-- ===== src/Database/Statement.antt =====
-- prepared_statement, person_writer and the functions of apps/use_sqlite/src/main.cpp over a handle that is not
-- null. A pointer is `none` where it is null, and a result `none` where an assertion fails. What is printed is left
-- out.
use communicate_between_proc.Prelude.{
  ℕ, ◌+◌, Bool, true, false, Option, none, some, List, [], ◌∷◌, ℤ, ◌==◌, if◌then◌else◌, codes,
}
use communicate_between_proc.Database.Sqlite.{Sqlite, Stmt, sqlite_ok, sqlite_done, sqlite_row}

pub record Person : Type 0 where
  pub name : List ℕ
  pub age : ℤ

pub record PreparedStatement : Type 0 where
  pub database_handle : Option ℕ
  pub stmt : Option Stmt

-- The assertions that both pointers are not null.
abbrev pub handles : PreparedStatement → Option (ℕ × Stmt)
handles p = elim p.database_handle [
  | none ↦ none
  | some h ↦ elim p.stmt [ none ↦ none | some s ↦ some (h, s) ]
]

-- person_writer::query
abbrev pub insert_query : List ℕ
insert_query = codes "INSERT INTO people (name, age) VALUES (?, ?);"

-- The text of a pointer to characters.
unfoldable pub until_zero : List ℕ → List ℕ
until_zero [] = []
until_zero (c ∷ cs) = let rest = until_zero cs in if c == 0 then [] else c ∷ rest

module _ {D C : Type 0} (sqlite : Sqlite D C) where
  -- The backup is finished only where its step has copied all pages.
  unfoldable pub copy_content : ℕ → ℕ → D → Bool × D
  copy_content src_handle dest_handle d =
      let (backup, d1) = sqlite.sqlite3_backup_init src_handle dest_handle d in
      elim backup [
        | none ↦ (false, d1)
        | some b ↦
            let (code, d2) = sqlite.sqlite3_backup_step b d1 in
            let (finish_code, d3) = sqlite.sqlite3_backup_finish b d2 in
            if code == sqlite_done then (finish_code == sqlite_ok, d3) else (false, d2)
      ]

  unfoldable pub create : ℕ → List ℕ → D → Option PreparedStatement × D
  create database_handle query d =
      let (code, stmt, d') = sqlite.sqlite3_prepare_v2 database_handle query d in
      if code == sqlite_ok
      then (some (record { database_handle = some database_handle; stmt = stmt }), d')
      else (none, d')

  -- The constructor that moves: the new object, and what is left of the other.
  unfoldable pub move : PreparedStatement → PreparedStatement × PreparedStatement
  move other = (other, record { database_handle = none; stmt = none })

  unfoldable pub set_integer : PreparedStatement → ℕ → ℤ → D → Option (Bool × D)
  set_integer p index value d = elim (handles p) [
    | none ↦ none
    | some (h, s) ↦
        let (code, d') = sqlite.sqlite3_bind_int s (index + 1) value d in
        some (code == sqlite_ok, d')
  ]

  unfoldable pub set_text : PreparedStatement → ℕ → List ℕ → D → Option (Bool × D)
  unfolding until_zero
  set_text p index value d = elim (handles p) [
    | none ↦ none
    | some (h, s) ↦
        let (code, d') = sqlite.sqlite3_bind_text s (index + 1) (until_zero value) d in
        some (code == sqlite_ok, d')
  ]

  unfoldable pub execute : PreparedStatement → D → Option (Option ℕ × D)
  execute p d = elim (handles p) [
    | none ↦ none
    | some (h, s) ↦
        let (code, d') = sqlite.sqlite3_step s d in
        some (
          if code == sqlite_done then some code else if code == sqlite_row then some code else none,
          d',
        )
  ]

  unfoldable pub reset : PreparedStatement → D → Option (Bool × D)
  reset p d = elim (handles p) [
    | none ↦ none
    | some (h, s) ↦ let (code, d') = sqlite.sqlite3_reset s d in some (code == sqlite_ok, d')
  ]

  unfoldable pub get_value : PreparedStatement → ℕ → D → Option ℤ
  get_value p index d = elim (handles p) [
    | none ↦ none
    | some (h, s) ↦ some (sqlite.sqlite3_column_int s index d)
  ]

  unfoldable pub destroy : PreparedStatement → D → Option (Bool × PreparedStatement × D)
  destroy p d = elim p.stmt [
    | none ↦ some (true, p, d)
    | some s ↦ elim p.database_handle [
      | none ↦ none
      | some h ↦
          let (code, d') = sqlite.sqlite3_finalize s d in
          some (if code == sqlite_ok then (true, record p { stmt = none }, d') else (false, p, d'))
    ]
  ]

  -- ~prepared_statement
  unfoldable pub destructor : PreparedStatement → D → Option D
  destructor p d = elim (destroy p d) [
    | none ↦ none
    | some (destroyed, p', d') ↦ if destroyed then some d' else none
  ]

  -- person_writer, whose only field is the statement.
  unfoldable pub create_writer : ℕ → D → Option PreparedStatement × D
  unfolding create move
  create_writer database_handle d =
      let (stmt, d') = create database_handle insert_query d in
      elim stmt [ none ↦ (none, d') | some p ↦ (some (move p).0, d') ]

  -- Behind the two parameters: what `executed` has is the code.
  unfoldable pub insert : PreparedStatement → D → Option (Bool × D)
  unfolding execute reset
  insert stmt d = elim (execute stmt d) [
    | none ↦ none
    | some (executed, d1) ↦ elim executed [
      | none ↦ some (false, d1)
      | some code ↦ elim (reset stmt d1) [
        | none ↦ none
        | some (ready, d2) ↦ if code == sqlite_done then some (true, d2) else none
      ]
    ]
  ]

  unfoldable pub write : PreparedStatement → Person → D → Option (Bool × D)
  unfolding set_integer set_text insert
  write stmt person d = elim (set_integer stmt 0 person.age d) [
    | none ↦ none
    | some (age_set, d1) ↦ elim (set_text stmt 1 person.name d1) [
      | none ↦ if age_set then none else some (false, d1)
      | some (name_set, d2) ↦
          let inserted = insert stmt d2 in
          if age_set then if name_set then inserted else some (false, d2) else some (false, d1)
    ]
  ]

  unfoldable pub execute_script : ℕ → List ℕ → D → Bool × D
  execute_script database_handle script d =
      let (code, d') = sqlite.sqlite3_exec database_handle script d in (code == sqlite_ok, d')

  -- close_database, of a handle that may be null.
  unfoldable pub close_database : Option ℕ → D → Option (Bool × D)
  close_database none d = none
  close_database (some h) d =
      let (code, d') = sqlite.sqlite3_close (some h) d in some (code == sqlite_ok, d')

  -- create_database: the result of the last close is not looked at.
  unfoldable pub create_database : List ℕ → List ℕ → D → Option (Bool × D)
  unfolding execute_script close_database
  create_database destination script d =
      let (code, handle, d1) = sqlite.sqlite3_open destination d in
      if code == sqlite_ok
      then elim handle [
        | none ↦ none
        | some h ↦
            let (executed, d2) = execute_script h script d1 in
            elim (close_database (some h) d2) [ none ↦ none | some (_, d3) ↦ some (executed, d3) ]
      ]
      else elim (close_database handle d1) [ none ↦ none | some (_, d2) ↦ some (false, d2) ]
