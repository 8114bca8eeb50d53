-- ===== src/Database/Copying.antt =====
-- The copies of apps/use_sqlite between two databases, where no backup between them fails.
use communicate_between_proc.Prelude.{
  ℕ, ◌+◌, ◌-◌, ◌≡◌, ◌≢◌, true, ap, ap₂, ◌∙◌, fun_ext, some, arith,
}
use communicate_between_proc.Database.Sqlite.{
  Sqlite, View, Backup, put, begun, copied, finished, sqlite_done,
}
use communicate_between_proc.Database.Statement.{copy_content}

-- The content of one connection in another.
abbrev pub copied_to : {C : Type 0} → ℕ → ℕ → View C → View C
copied_to source destination v = record v { content = put destination (v.content source) v.content }

put_back : (i : ℕ) (f : ℕ → ℕ) → put i (put i (f i + 1) f i - 1) (put i (f i + 1) f) ≡ f
put_back i f = fun_ext (λ j. ground arith)

-- A backup between two different open connections begins, and its step copies all pages: no other program
-- has the file locked, and no error of the disk occurs.
pub record BackupsSucceed {D C : Type 0} (sqlite : Sqlite D C) : Type 0 where
  pub begins :
      (source destination : ℕ) (d : D)
      → source ≢ destination
      → (sqlite.view d).is_open source ≡ true
      → (sqlite.view d).is_open destination ≡ true
      → (b : Backup) × ((sqlite.sqlite3_backup_init source destination d).0 ≡ some b)
  pub done :
      (source destination : ℕ) (d : D) (b : Backup)
      → source ≢ destination
      → (sqlite.view d).is_open source ≡ true
      → (sqlite.view d).is_open destination ≡ true
      → (sqlite.sqlite3_backup_init source destination d).0 ≡ some b
      → (sqlite.sqlite3_backup_step b (sqlite.sqlite3_backup_init source destination d).1).0
        ≡ sqlite_done

module _ {D C : Type 0} (sqlite : Sqlite D C) (backups : BackupsSucceed sqlite) where
  whole_backup :
      (b : Backup) (v : View C)
      → finished b (copied b (begun b v)) ≡ copied_to b.source b.destination v
  whole_backup b v =
      ap (λ busy. record (copied_to b.source b.destination v) { busy = busy })
        (put_back b.destination v.busy)

  pub copy_content-view :
      (source destination : ℕ) (d : D)
      → source ≢ destination
      → (sqlite.view d).is_open source ≡ true
      → (sqlite.view d).is_open destination ≡ true
      → sqlite.view (copy_content sqlite source destination d).1
        ≡ copied_to source destination (sqlite.view d)
  unfolding copy_content
  copy_content-view source destination d differ from_open to_open =
      let (b, e) = backups.begins source destination d differ from_open to_open in
      let (from, to, v1) = sqlite.backup_init_some source destination d b e in
      let d1 = (sqlite.sqlite3_backup_init source destination d).1 in
      let done = backups.done source destination d b differ from_open to_open e in
      let v2 = sqlite.backup_step_done b d1 done in
      let v3 = sqlite.backup_finish_done b d1 done in
      rw (copy_content, e, done)
        (v3
          ∙ ap (finished b) (v2 ∙ ap (copied b) v1)
          ∙ whole_backup b (sqlite.view d)
          ∙ ap₂ (λ from' to'. copied_to from' to' (sqlite.view d)) from to)
