-- ===== src/Database/Sqlite.antt =====
-- What apps/use_sqlite asks of SQLite: its calls over a state `D` of the library, and what its documentation
-- says of them. `C` is the content of a database. An opaque handle is its number, with what it was made of.
use communicate_between_proc.Prelude.{
  ℕ, ◌+◌, ◌-◌, ◌≡◌, ◌≢◌, Bool, true, false, Option, none, some, List, ℤ, ◌==◌, if◌then◌else◌,
}

abbrev pub sqlite_ok : ℕ
sqlite_ok = 0

abbrev pub sqlite_row : ℕ
sqlite_row = 100

abbrev pub sqlite_done : ℕ
sqlite_done = 101

-- A parameter of a statement.
pub data Value : Type 0 where
  integer : ℤ → Value
  text : List ℕ → Value

abbrev pub Bindings : Type 0
Bindings = ℕ → Option Value

pub record Stmt : Type 0 where
  pub number : ℕ
  pub database : ℕ
  pub query : List ℕ

pub record Backup : Type 0 where
  pub number : ℕ
  pub source : ℕ
  pub destination : ℕ

-- The state as far as the documentation speaks of it: how many connections there are, and of a connection whether it
-- is open, its content
-- and how many statements and backups of it are unfinished; of a statement its parameters and whether its last
-- evaluation failed.
pub record View (C : Type 0) : Type 0 where
  pub connections : ℕ
  pub is_open : ℕ → Bool
  pub content : ℕ → C
  pub busy : ℕ → ℕ
  pub bindings : ℕ → Bindings
  pub failed : ℕ → Bool

abbrev pub put : {A : Type 0} → ℕ → A → (ℕ → A) → ℕ → A
put i a f = λ j. if j == i then a else f j

module _ {C : Type 0} where
  abbrev pub opened : ℕ → C → View C → View C
  opened h c v = record v {
    connections = v.connections + 1;
    is_open = put h true v.is_open;
    content = put h c v.content;
    busy = put h 0 v.busy;
  }

  abbrev pub closed : ℕ → View C → View C
  closed h v = record v { connections = v.connections - 1; is_open = put h false v.is_open }

  abbrev pub prepared : Stmt → View C → View C
  prepared s v = record v {
    busy = put s.database (v.busy s.database + 1) v.busy;
    bindings = put s.number (λ i. none) v.bindings;
    failed = put s.number false v.failed;
  }

  abbrev pub bound : Stmt → ℕ → Value → View C → View C
  bound s i value v = record v {
    bindings = put s.number (put i (some value) (v.bindings s.number)) v.bindings;
  }

  abbrev pub stepped : Stmt → C → View C → View C
  stepped s c v = record v {
    content = put s.database c v.content;
    failed = put s.number false v.failed;
  }

  abbrev pub finalized : Stmt → View C → View C
  finalized s v = record v { busy = put s.database (v.busy s.database - 1) v.busy }

  abbrev pub begun : Backup → View C → View C
  begun b v = record v { busy = put b.destination (v.busy b.destination + 1) v.busy }

  abbrev pub copied : Backup → View C → View C
  copied b v = record v { content = put b.destination (v.content b.source) v.content }

  abbrev pub finished : Backup → View C → View C
  finished b v = record v { busy = put b.destination (v.busy b.destination - 1) v.busy }

pub record Sqlite (D C : Type 0) : Type 0 where
  pub sqlite3_open : List ℕ → D → ℕ × Option ℕ × D
  pub sqlite3_close : Option ℕ → D → ℕ × D
  pub sqlite3_exec : ℕ → List ℕ → D → ℕ × D
  pub sqlite3_prepare_v2 : ℕ → List ℕ → D → ℕ × Option Stmt × D
  pub sqlite3_bind_int : Stmt → ℕ → ℤ → D → ℕ × D
  pub sqlite3_bind_text : Stmt → ℕ → List ℕ → D → ℕ × D
  pub sqlite3_step : Stmt → D → ℕ × D
  pub sqlite3_reset : Stmt → D → ℕ × D
  pub sqlite3_column_int : Stmt → ℕ → D → ℤ
  pub sqlite3_finalize : Stmt → D → ℕ × D
  -- Of the database of a source, into that of a destination; a step copies all pages.
  pub sqlite3_backup_init : ℕ → ℕ → D → Option Backup × D
  pub sqlite3_backup_step : Backup → D → ℕ × D
  pub sqlite3_backup_finish : Backup → D → ℕ × D
  pub sqlite3_db_cacheflush : ℕ → D → ℕ × D
  pub view : D → View C
  -- The content of a file, and what a statement does to a content.
  pub stored : List ℕ → D → C
  pub effect : List ℕ → Bindings → C → C
  pub open_ok :
      (path : List ℕ) (d : D)
      → (sqlite3_open path d).0 ≡ sqlite_ok
      → (h : ℕ) × ((sqlite3_open path d).1 ≡ some h)
  pub open_none :
      (path : List ℕ) (d : D)
      → (sqlite3_open path d).1 ≡ none
      → view (sqlite3_open path d).2 ≡ view d
  pub open_some :
      (path : List ℕ) (d : D) (h : ℕ)
      → (sqlite3_open path d).1 ≡ some h
      → ((view d).is_open h ≡ false)
        × (view (sqlite3_open path d).2 ≡ opened h (stored path d) (view d))
  pub close_none : (d : D) → view (sqlite3_close none d).1 ≡ view d
  pub close_idle :
      (h : ℕ) (d : D)
      → (view d).is_open h ≡ true
      → (view d).busy h ≡ 0
      → view (sqlite3_close (some h) d).1 ≡ closed h (view d)
  pub prepare_ok :
      (h : ℕ) (query : List ℕ) (d : D)
      → (sqlite3_prepare_v2 h query d).0 ≡ sqlite_ok
      → (number : ℕ) × ((sqlite3_prepare_v2 h query d).1
          ≡ some (record { number = number; database = h; query = query }))
        × (view (sqlite3_prepare_v2 h query d).2
            ≡ prepared (record { number = number; database = h; query = query }) (view d))
  pub prepare_fails :
      (h : ℕ) (query : List ℕ) (d : D)
      → (sqlite3_prepare_v2 h query d).0 ≢ sqlite_ok
      → view (sqlite3_prepare_v2 h query d).2 ≡ view d
  pub bind_int_ok :
      (s : Stmt) (i : ℕ) (n : ℤ) (d : D)
      → (sqlite3_bind_int s i n d).0 ≡ sqlite_ok
      → view (sqlite3_bind_int s i n d).1 ≡ bound s i (integer n) (view d)
  pub bind_text_ok :
      (s : Stmt) (i : ℕ) (t : List ℕ) (d : D)
      → (sqlite3_bind_text s i t d).0 ≡ sqlite_ok
      → view (sqlite3_bind_text s i t d).1 ≡ bound s i (text t) (view d)
  pub step_done :
      (s : Stmt) (d : D)
      → (sqlite3_step s d).0 ≡ sqlite_done
      → view (sqlite3_step s d).1
        ≡ stepped s
            (effect s.query ((view d).bindings s.number) ((view d).content s.database))
            (view d)
  pub reset_lem :
      (s : Stmt) (d : D) → (view d).failed s.number ≡ false → view (sqlite3_reset s d).1 ≡ view d
  pub finalize_lem :
      (s : Stmt) (d : D)
      → (view d).failed s.number ≡ false
      → ((sqlite3_finalize s d).0 ≡ sqlite_ok)
        × (view (sqlite3_finalize s d).1 ≡ finalized s (view d))
  pub backup_init_none :
      (source destination : ℕ) (d : D)
      → (sqlite3_backup_init source destination d).0 ≡ none
      → view (sqlite3_backup_init source destination d).1 ≡ view d
  pub backup_init_some :
      (source destination : ℕ) (d : D) (b : Backup)
      → (sqlite3_backup_init source destination d).0 ≡ some b
      → (b.source ≡ source)
        × (b.destination ≡ destination)
        × (view (sqlite3_backup_init source destination d).1 ≡ begun b (view d))
  pub backup_step_done :
      (b : Backup) (d : D)
      → (sqlite3_backup_step b d).0 ≡ sqlite_done
      → view (sqlite3_backup_step b d).1 ≡ copied b (view d)
  -- Behind a step that has copied all pages.
  pub backup_finish_done :
      (b : Backup) (d : D)
      → (sqlite3_backup_step b d).0 ≡ sqlite_done
      → view (sqlite3_backup_finish b (sqlite3_backup_step b d).1).1
        ≡ finished b (view (sqlite3_backup_step b d).1)
  pub cacheflush_lem : (h : ℕ) (d : D) → view (sqlite3_db_cacheflush h d).1 ≡ view d
