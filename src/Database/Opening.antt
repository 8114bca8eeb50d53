-- ===== src/Database/Opening.antt =====
-- The connections that sql_database::open of apps/use_sqlite opens, and those that it closes where it fails.
use communicate_between_proc.Prelude.{
  ℕ, ◌+◌, ◌-◌, ◌≡◌, ◌≢◌, refl, ap, ◌∙◌, sym, Bool, true, false, Option, none, some, arith,
  ℕ_discrete, ◌⊎◌, inl, inr, codes, Option-cases,
}
use communicate_between_proc.Database.Sqlite.{
  Sqlite, View, put, opened, closed, prepared, sqlite_ok,
}
use communicate_between_proc.Database.Statement.{
  insert_query, copy_content, create_writer, create, move,
}
use communicate_between_proc.Database.SqlDatabase.{
  SqlDatabase, load_into_memory_impl, with_writer, open_content, open_memory,
}
use communicate_between_proc.Database.Copying.{BackupsSucceed, copied_to, copy_content-view}
use communicate_between_proc.Database.Writing.{writer, writer_stmt, put_at, put_other}
use communicate_between_proc.Database.Refine.{opened_database, Ready}

open_not_fresh :
    (disk memory : ℕ) (is_open : ℕ → Bool)
    → is_open disk ≡ true
    → is_open memory ≡ false
    → disk ≢ memory
open_not_fresh disk memory is_open open_disk fresh same =
    absurd (grind (arith, same, fresh, open_disk))

module _ {D C : Type 0} (sqlite : Sqlite D C) (backups : BackupsSucceed sqlite) where
  abbrev connections : D → ℕ
  connections d = (sqlite.view d).connections

  load_lem :
      (disk memory : ℕ) (d : D)
      → load_into_memory_impl sqlite disk memory d ≡ (true, (copy_content sqlite disk memory d).1)
  unfolding load_into_memory_impl
  load_lem disk memory d = ground arith

  writer_ok :
      (memory number : ℕ) (d : D)
      → (sqlite.sqlite3_prepare_v2 memory insert_query d).0 ≡ sqlite_ok
      → (sqlite.sqlite3_prepare_v2 memory insert_query d).1 ≡ some (writer_stmt memory number)
      → create_writer sqlite memory d
        ≡ (some (writer memory number), (sqlite.sqlite3_prepare_v2 memory insert_query d).2)
  unfolding create_writer create move
  writer_ok memory number d ok e = ground (arith, ok, e)

  writer_fails :
      (memory : ℕ) (d : D)
      → (sqlite.sqlite3_prepare_v2 memory insert_query d).0 ≢ sqlite_ok
      → create_writer sqlite memory d ≡ (none, (sqlite.sqlite3_prepare_v2 memory insert_query d).2)
  unfolding create_writer create move
  writer_fails memory d fails = ground (arith, fails)

  content_lem :
      (disk memory : ℕ) (d : D)
      → open_content sqlite disk memory d
        ≡ with_writer sqlite disk memory
            (create_writer sqlite memory (copy_content sqlite disk memory d).1)
  unfolding open_content
  content_lem disk memory d = rw (open_content, load_lem disk memory d) refl

  -- What `open` makes of a state, for the content of the file.
  abbrev pub Outcome : C → D → Option SqlDatabase → D → Type 0
  Outcome k d r d' =
      ((r ≡ none) × (connections d' ≡ connections d))
      ⊎ ((disk : ℕ) × (memory : ℕ) × (number : ℕ) × (r ≡ some (opened_database disk memory number))
          × Ready disk memory number (sqlite.view d') (k, k)
          × (connections d' ≡ connections d + 2))

  module _ (disk memory : ℕ) (d : D) (distinct : disk ≢ memory)
      (disk_open : (sqlite.view d).is_open disk ≡ true)
      (memory_open : (sqlite.view d).is_open memory ≡ true) where
    abbrev filled : D
    filled = (copy_content sqlite disk memory d).1

    content_ok :
        (sqlite.sqlite3_prepare_v2 memory insert_query filled).0 ≡ sqlite_ok
        → (number : ℕ) × ((open_content sqlite disk memory d).0
            ≡ some (opened_database disk memory number))
          × (sqlite.view (open_content sqlite disk memory d).1
              ≡ prepared (writer_stmt memory number) (copied_to disk memory (sqlite.view d)))
    unfolding with_writer
    content_ok ok =
        let (number, e, v) = sqlite.prepare_ok memory insert_query filled ok in
        let whole =
          content_lem disk memory d
          ∙ ap (with_writer sqlite disk memory) (writer_ok memory number filled ok e) in
        (
          number,
          ap (λ r. r.0) whole,
          ap (λ r. sqlite.view r.1) whole
              ∙ v
              ∙ ap (prepared (writer_stmt memory number))
                  (copy_content-view sqlite backups disk memory d distinct disk_open memory_open),
        )

    content_fails :
        (sqlite.sqlite3_prepare_v2 memory insert_query filled).0 ≢ sqlite_ok
        → (sqlite.view d).busy disk ≡ 0
        → (sqlite.view d).busy memory ≡ 0
        → ((open_content sqlite disk memory d).0 ≡ none)
          × (sqlite.view (open_content sqlite disk memory d).1
              ≡ closed memory (closed disk (copied_to disk memory (sqlite.view d))))
    unfolding with_writer
    content_fails fails disk_idle memory_idle =
        let before =
          sqlite.prepare_fails memory insert_query filled fails
          ∙ copy_content-view sqlite backups disk memory d distinct disk_open memory_open in
        let d1 = (sqlite.sqlite3_prepare_v2 memory insert_query filled).2 in
        let one =
          sqlite.close_idle disk d1 (ap (λ v. v.is_open disk) before ∙ disk_open)
            (ap (λ v. v.busy disk) before ∙ disk_idle)
          ∙ ap (closed disk) before in
        let two =
          sqlite.close_idle memory _
            (ap (λ v. v.is_open memory) one
              ∙ put_other disk memory false (sqlite.view d).is_open (λ e. distinct (sym e))
              ∙ memory_open)
            (ap (λ v. v.busy memory) one ∙ memory_idle)
          ∙ ap (closed memory) one in
        let whole =
          content_lem disk memory d
          ∙ ap (with_writer sqlite disk memory) (writer_fails memory filled fails) in
        (ap (λ r. r.0) whole, ap (λ r. sqlite.view r.1) whole ∙ two)

  abbrev pub given_up : ℕ → D → D
  given_up disk d =
      let (code, handle, d1) = sqlite.sqlite3_open (codes ":memory:") d in
      (sqlite.sqlite3_close handle (sqlite.sqlite3_close (some disk) d1).1).1

  -- The second call fails to open a connection.
  pub memory_fails :
      (disk : ℕ) (d : D)
      → (sqlite.sqlite3_open (codes ":memory:") d).0 ≢ sqlite_ok
      → (sqlite.view d).is_open disk ≡ true
      → (sqlite.view d).busy disk ≡ 0
      → (open_memory sqlite (some disk) d ≡ some (none, given_up disk d))
        × (connections (given_up disk d) ≡ connections d - 1)
  unfolding open_memory
  memory_fails disk d fails is_open idle =
      let d1 = (sqlite.sqlite3_open (codes ":memory:") d).2 in
      (
        ground (arith, fails),
        elim (Option-cases (sqlite.sqlite3_open (codes ":memory:") d).1) [
          | inl e ↦
              let before = sqlite.open_none (codes ":memory:") d e in
              let one =
                sqlite.close_idle disk d1 (ap (λ v. v.is_open disk) before ∙ is_open)
                  (ap (λ v. v.busy disk) before ∙ idle)
                ∙ ap (closed disk) before in
              rw (given_up, e) (ap (λ v. v.connections) (sqlite.close_none _ ∙ one))
          | inr (memory, e) ↦
              let (fresh, before) = sqlite.open_some (codes ":memory:") d memory e in
              let distinct = open_not_fresh disk memory (sqlite.view d).is_open is_open fresh in
              let disk_idle : put memory 0 (sqlite.view d).busy disk ≡ 0 = ground (arith, idle) in
              let one =
                sqlite.close_idle disk d1
                  (ap (λ v. v.is_open disk) before
                    ∙ put_other memory disk true (sqlite.view d).is_open distinct
                    ∙ is_open)
                  (ap (λ v. v.busy disk) before ∙ disk_idle)
                ∙ ap (closed disk) before in
              let two =
                sqlite.close_idle memory _
                  (ap (λ v. v.is_open memory) one
                    ∙ put_other disk memory false (put memory true (sqlite.view d).is_open)
                        (λ same. distinct (sym same))
                    ∙ put_at memory true (sqlite.view d).is_open)
                  (ap (λ v. v.busy memory) one ∙ put_at memory 0 (sqlite.view d).busy)
                ∙ ap (closed memory) one in
              rw (given_up, e) (ap (λ v. v.connections) two ∙ omega arith)
        ],
      )

  prepared-Ready :
      (disk memory number : ℕ) (v : View C) (c k : C)
      → disk ≢ memory
      → v.is_open disk ≡ true
      → v.busy disk ≡ 0
      → v.content disk ≡ k
      → Ready disk memory number
          (prepared (writer_stmt memory number) (copied_to disk memory (opened memory c v)))
          (k, k)
  prepared-Ready disk memory number v c k distinct is_open idle content =
      let content_there = put_other memory disk c v.content distinct ∙ content in
      record {
        distinct = distinct;
        disk_open = put_other memory disk true v.is_open distinct ∙ is_open;
        memory_open = put_at memory true v.is_open;
        disk_idle = ground (arith, distinct, idle);
        memory_busy = ground arith;
        succeeded = put_at number false v.failed;
        unbound = λ i one two. ap (λ b. b i) (put_at number (λ j. none) v.bindings);
        in_memory = put_at memory _ (put memory c v.content) ∙ content_there;
        on_disk = put_other memory disk _ (put memory c v.content) distinct ∙ content_there;
      }

  -- The second call opens a connection.
  pub memory_ok :
      (disk : ℕ) (d : D) (k : C)
      → (sqlite.sqlite3_open (codes ":memory:") d).0 ≡ sqlite_ok
      → (sqlite.view d).busy disk ≡ 0
      → (sqlite.view d).content disk ≡ k
      → (sqlite.view d).is_open disk ≡ true
      → (d0 : D) → connections d ≡ connections d0 + 1
      → (r : Option SqlDatabase) × (d' : D) × (open_memory sqlite (some disk) d ≡ some (r, d'))
        × Outcome k d0 r d'
  unfolding open_memory
  memory_ok disk d k ok idle content is_open d0 count =
      let (memory, e) = sqlite.open_ok (codes ":memory:") d ok in
      let (fresh, before) = sqlite.open_some (codes ":memory:") d memory e in
      let d1 = (sqlite.sqlite3_open (codes ":memory:") d).2 in
      let distinct = open_not_fresh disk memory (sqlite.view d).is_open is_open fresh in
      let disk_open =
        ap (λ w. w.is_open disk) before
        ∙ put_other memory disk true (sqlite.view d).is_open distinct
        ∙ is_open in
      let memory_open =
        ap (λ w. w.is_open memory) before ∙ put_at memory true (sqlite.view d).is_open in
      let disk_idle : put memory 0 (sqlite.view d).busy disk ≡ 0 = ground (arith, idle) in
      let result : open_memory sqlite (some disk) d ≡ some (open_content sqlite disk memory d1) =
        ground (arith, ok, e) in
      (
        (open_content sqlite disk memory d1).0,
        (open_content sqlite disk memory d1).1,
        result,
        elim (ℕ_discrete
            (sqlite.sqlite3_prepare_v2 memory insert_query
              (filled disk memory d1 distinct disk_open memory_open)).0
            sqlite_ok) [
              | yes prepared_ok ↦
                  let (number, r, v) =
                    content_ok disk memory d1 distinct disk_open memory_open prepared_ok in
                  inr (
                    disk,
                    memory,
                    number,
                    r,
                    rw
                        (v
                          ∙ ap (λ w. prepared (writer_stmt memory number) (copied_to disk memory w))
                              before)
                        (prepared-Ready disk memory number (sqlite.view d) _ k distinct is_open idle
                          content),
                    omega (arith, count, ap (λ w. w.connections) v, ap (λ w. w.connections) before),
                  )
              | no fails ↦
                  let (r, v) =
                    content_fails disk memory d1 distinct disk_open memory_open fails
                      (ap (λ w. w.busy disk) before ∙ disk_idle)
                      (ap (λ w. w.busy memory) before ∙ put_at memory 0 (sqlite.view d).busy) in
                  inl (
                    r,
                    omega (arith, count, ap (λ w. w.connections) v, ap (λ w. w.connections) before),
                  )
            ],
      )
