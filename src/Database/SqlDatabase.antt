-- ===== src/Database/SqlDatabase.antt =====
-- sql_database of apps/use_sqlite/src/main.cpp. The objects that `open` moves from own nothing, and their
-- destructors do nothing.
use communicate_between_proc.Prelude.{
  ℕ, Bool, true, false, Option, none, some, List, [], ◌∷◌, ◌==◌, if◌then◌else◌, codes,
}
use communicate_between_proc.Database.Sqlite.{Sqlite, sqlite_ok}
use communicate_between_proc.Database.Statement
use communicate_between_proc.Database.Statement.{
  Person, PreparedStatement, copy_content, create_writer,
}

pub record SqlDatabase : Type 0 where
  pub person_writer : PreparedStatement
  pub disk_database_handle : Option ℕ
  pub in_memory_database_handle : Option ℕ

-- The assertions on the two handles.
abbrev pub both : SqlDatabase → Option (ℕ × ℕ)
both db = elim db.disk_database_handle [
  | none ↦ none
  | some disk ↦ elim db.in_memory_database_handle [
    | none ↦ none
    | some memory ↦ some (disk, memory)
  ]
]

pub data Call : Type 0 where
  load_call flush_call : Call
  write_call : Person → Call

module _ {D C : Type 0} (sqlite : Sqlite D C) where
  unfoldable pub load_into_memory_impl : ℕ → ℕ → D → Bool × D
  unfolding copy_content
  load_into_memory_impl disk memory d =
      let (loaded, d') = copy_content sqlite disk memory d in
      if loaded then (true, d') else (true, d')

  -- Behind the creation of the writer.
  unfoldable pub with_writer : ℕ → ℕ → Option PreparedStatement × D → Option SqlDatabase × D
  with_writer disk memory (none, d) =
      let (_, d1) = sqlite.sqlite3_close (some disk) d in
      let (_, d2) = sqlite.sqlite3_close (some memory) d1 in (none, d2)
  with_writer disk memory (some writer, d) = (
    some (record {
      person_writer = writer;
      disk_database_handle = some disk;
      in_memory_database_handle = some memory;
    }),
    d,
  )

  -- Behind the two calls that open a connection.
  unfoldable pub open_content : ℕ → ℕ → D → Option SqlDatabase × D
  unfolding load_into_memory_impl create_writer with_writer
  open_content disk memory d =
      let (loaded, d1) = load_into_memory_impl disk memory d in
      if loaded then with_writer disk memory (create_writer sqlite memory d1) else (none, d1)

  unfoldable pub open_memory : Option ℕ → D → Option (Option SqlDatabase × D)
  unfolding open_content
  open_memory disk d =
      let (code, memory, d1) = sqlite.sqlite3_open (codes ":memory:") d in
      if code == sqlite_ok
      then elim disk [
        | none ↦ none
        | some disk_handle ↦ elim memory [
          | none ↦ none
          | some memory_handle ↦ some (open_content disk_handle memory_handle d1)
        ]
      ]
      else let (_, d2) = sqlite.sqlite3_close disk d1 in
        let (_, d3) = sqlite.sqlite3_close memory d2 in some (none, d3)

  unfoldable pub open_database : List ℕ → D → Option (Option SqlDatabase × D)
  unfolding open_memory
  open_database database_path d =
      let (code, disk, d1) = sqlite.sqlite3_open database_path d in
      let (_, d2) = sqlite.sqlite3_close disk d1 in
      if code == sqlite_ok then open_memory disk d1 else some (none, d2)

  unfoldable pub load_into_memory : SqlDatabase → D → Option (Bool × D)
  unfolding load_into_memory_impl
  load_into_memory db d = elim (both db) [
    | none ↦ none
    | some (disk, memory) ↦ some (load_into_memory_impl disk memory d)
  ]

  unfoldable pub flush_to_disk : SqlDatabase → D → Option (Bool × D)
  unfolding copy_content
  flush_to_disk db d = elim (both db) [
    | none ↦ none
    | some (disk, memory) ↦
        let (content_copied, d1) = copy_content sqlite memory disk d in
        let (code, d2) = sqlite.sqlite3_db_cacheflush disk d1 in
        some (if content_copied then (code == sqlite_ok, d2) else (false, d1))
  ]

  unfoldable pub write_person : SqlDatabase → Person → D → Option (Bool × D)
  write_person db person d = Statement.write sqlite db.person_writer person d

  unfoldable pub close_both : SqlDatabase → D → Option D
  close_both db d = elim db.disk_database_handle [
    | none ↦ elim db.in_memory_database_handle [ none ↦ some d | some h ↦ none ]
    | some disk ↦
        let (_, d1) = sqlite.sqlite3_close (some disk) d in
        let (_, d2) = sqlite.sqlite3_close db.in_memory_database_handle d1 in some d2
  ]

  -- ~sql_database, and behind it the destructor of the writer's statement.
  unfoldable pub destructor : SqlDatabase → D → Option D
  unfolding close_both
  destructor db d = elim (Statement.destroy sqlite db.person_writer d) [
    | none ↦ none
    | some (_, writer, d1) ↦ elim (close_both db d1) [
      | none ↦ none
      | some d2 ↦ Statement.destructor sqlite writer d2
    ]
  ]

  unfoldable pub call : Call → SqlDatabase → D → Option (Bool × D)
  unfolding load_into_memory flush_to_disk write_person
  call load_call db d = load_into_memory db d
  call flush_call db d = flush_to_disk db d
  call (write_call person) db d = write_person db person d

  -- Calls up to the first that does not return true.
  unfoldable pub calls : List Call → SqlDatabase → D → Option (Bool × D)
  calls [] db d = some (true, d)
  calls (c ∷ cs) db d = elim (call c db d) [
    | none ↦ none
    | some (b, d') ↦ let rest = calls cs db d' in if b then rest else some (false, d')
  ]
