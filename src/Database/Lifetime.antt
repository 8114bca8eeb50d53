-- ===== src/Database/Lifetime.antt =====
-- An object of sql_database in apps/use_sqlite, from `open` to its destructor.
use communicate_between_proc.Prelude.{
  ℕ, ◌+◌, ◌-◌, ◌≡◌, ◌≢◌, refl, subst, ap, ap₂, ◌∙◌, sym, true, false, Option, none, some, List,
  arith, ℕ_discrete, inl, inr, codes, Option-cases,
}
use communicate_between_proc.Database.Sqlite.{Sqlite, closed, sqlite_ok}
use communicate_between_proc.Database.Statement
use communicate_between_proc.Database.Statement.{PreparedStatement, insert_query}
use communicate_between_proc.Database.SqlDatabase.{
  SqlDatabase, Call, calls, open_memory, open_database, close_both, destructor,
}
use communicate_between_proc.Database.Copying.{BackupsSucceed}
use communicate_between_proc.Database.Writing.{row, writer_stmt, put_at, put_other}
use communicate_between_proc.Database.Refine.{opened_database, Ready, run_calls, calls-Ready}
use communicate_between_proc.Database.Opening.{Outcome, memory_ok, memory_fails, given_up}

module _ {D C : Type 0} (sqlite : Sqlite D C) (backups : BackupsSucceed sqlite) where
  abbrev connections : D → ℕ
  connections d = (sqlite.view d).connections

  abbrev Opens : List ℕ → D → Type 0
  Opens path d =
      (r : Option SqlDatabase) × (d' : D) × (open_database sqlite path d ≡ some (r, d'))
      × Outcome sqlite backups (sqlite.stored path d) d r d'

  -- The connection of a call that has failed is closed.
  disk_fails : (path : List ℕ) (d : D) → (sqlite.sqlite3_open path d).0 ≢ sqlite_ok → Opens path d
  unfolding open_database
  disk_fails path d fails =
      let (code, handle, d1) = sqlite.sqlite3_open path d in
      let d2 = (sqlite.sqlite3_close handle d1).1 in
      let result : open_database sqlite path d ≡ some (none, d2) = ground (arith, fails) in
      (
        none,
        d2,
        result,
        inl (
          refl,
          elim (Option-cases (sqlite.sqlite3_open path d).1) [
            | inl e ↦
                rw e (ap (λ v. v.connections) (sqlite.close_none d1 ∙ sqlite.open_none path d e))
            | inr (disk, e) ↦
                let before = (sqlite.open_some path d disk e).1 in
                rw e (
                  ap (λ v. v.connections)
                    (sqlite.close_idle disk d1
                        (ap (λ v. v.is_open disk) before ∙ put_at disk true (sqlite.view d).is_open)
                        (ap (λ v. v.busy disk) before ∙ put_at disk 0 (sqlite.view d).busy)
                      ∙ ap (closed disk) before)
                  ∙ omega arith)
          ],
        ),
      )

  disk_ok : (path : List ℕ) (d : D) → (sqlite.sqlite3_open path d).0 ≡ sqlite_ok → Opens path d
  unfolding open_database
  disk_ok path d ok =
      let (disk, e) = sqlite.open_ok path d ok in
      let (fresh, before) = sqlite.open_some path d disk e in
      let is_open = ap (λ v. v.is_open disk) before ∙ put_at disk true (sqlite.view d).is_open in
      let d1 = (sqlite.sqlite3_open path d).2 in
      let idle = ap (λ v. v.busy disk) before ∙ put_at disk 0 (sqlite.view d).busy in
      let content =
        ap (λ v. v.content disk) before
        ∙ put_at disk (sqlite.stored path d) (sqlite.view d).content in
      let count = ap (λ v. v.connections) before in
      let result : open_database sqlite path d ≡ open_memory sqlite (some disk) d1 =
        ground (arith, ok, e) in
      elim (ℕ_discrete (sqlite.sqlite3_open (codes ":memory:") d1).0 sqlite_ok) [
        | yes both ↦
            let (r, d', e', outcome) =
              memory_ok sqlite backups disk d1 (sqlite.stored path d) both idle content is_open d
                count in
            (r, d', result ∙ e', outcome)
        | no fails ↦
            let (e', same) = memory_fails sqlite backups disk d1 fails is_open idle in
            (
              none,
              given_up sqlite backups disk d1,
              result ∙ e',
              inl (refl, omega (arith, same, count)),
            )
      ]

  open_database-Outcome : (path : List ℕ) (d : D) → Opens path d
  open_database-Outcome path d = elim (ℕ_discrete (sqlite.sqlite3_open path d).0 sqlite_ok) [
    | yes ok ↦ disk_ok path d ok
    | no fails ↦ disk_fails path d fails
  ]

  -- The destructor of an opened database.
  destructor_lem :
      (disk memory number : ℕ) (d : D) (contents : C × C)
      → Ready disk memory number (sqlite.view d) contents
      → (d' : D) × (destructor sqlite (opened_database disk memory number) d ≡ some d')
        × (connections d' ≡ connections d - 2)
  unfolding destructor close_both Statement.destroy Statement.destructor
  destructor_lem disk memory number d contents r =
      let s = writer_stmt memory number in
      let (ok, before) = sqlite.finalize_lem s d r.succeeded in
      let d1 = (sqlite.sqlite3_finalize s d).1 in
      let d2 = (sqlite.sqlite3_close (some disk) d1).1 in
      let d3 = (sqlite.sqlite3_close (some memory) d2).1 in
      let disk_idle =
        ap (λ v. v.busy disk) before
        ∙ put_other memory disk _ (sqlite.view d).busy r.distinct
        ∙ r.disk_idle in
      let one =
        sqlite.close_idle disk d1 (ap (λ v. v.is_open disk) before ∙ r.disk_open) disk_idle
        ∙ ap (closed disk) before in
      let memory_idle : (sqlite.view d).busy memory - 1 ≡ 0 = omega (arith, r.memory_busy) in
      let two =
        sqlite.close_idle memory d2
          (ap (λ v. v.is_open memory) one
            ∙ put_other disk memory false (sqlite.view d).is_open (λ same. r.distinct (sym same))
            ∙ r.memory_open)
          (ap (λ v. v.busy memory) one ∙ put_at memory _ (sqlite.view d).busy ∙ memory_idle)
        ∙ ap (closed memory) one in
      let result : destructor sqlite (opened_database disk memory number) d ≡ some d3 =
        ground (arith, ok) in
      (d3, result, omega (arith, ap (λ v. v.connections) two))

  -- Where every backup between two different open connections succeeds, `open` returns, with two more connections where it has a database, and with
  -- none more where it has not.
  pub open_balance :
      (path : List ℕ) (d : D)
      → (r : Option SqlDatabase) × (d' : D) × (open_database sqlite path d ≡ some (r, d'))
        × ((sqlite.view d').connections
            ≡ (sqlite.view d).connections + (elim r [ none ↦ 0 | some db ↦ 2 ]))
  open_balance path d =
      let (r, d', e, outcome) = open_database-Outcome path d in
      (
        r,
        d',
        e,
        elim outcome [
          | inl (n, same) ↦ rw n (omega (arith, same))
          | inr (disk, memory, number, n, ready, more) ↦ rw n more
        ],
      )

  opened_lem :
      (path : List ℕ) (d d1 : D) (db : SqlDatabase)
      → open_database sqlite path d ≡ some (some db, d1)
      → (disk : ℕ) × (memory : ℕ) × (number : ℕ) × (db ≡ opened_database disk memory number)
        × Ready disk memory number (sqlite.view d1) (sqlite.stored path d, sqlite.stored path d)
        × (connections d1 ≡ connections d + 2)
  opened_lem path d d1 db h =
      let (r, d', e, outcome) = open_database-Outcome path d in
      let same : (some db ≡ r) × (d1 ≡ d') = ground (arith, h, e) in
      elim outcome [
        | inl (n, _) ↦ absurd (ground (arith, same.0, n))
        | inr (disk, memory, number, n, ready, more) ↦
            let is : db ≡ opened_database disk memory number = ground (arith, same.0, n) in
            (disk, memory, number, is, rw same.1 ready, rw same.1 more)
      ]

  module _ (path : List ℕ) (cs : List Call) (d d1 d2 : D) (db : SqlDatabase)
      (opens : open_database sqlite path d ≡ some (some db, d1))
      (succeed : calls sqlite cs db d1 ≡ some (true, d2)) where
    -- Where every backup between two different open connections succeeds, a database is opened and every call of it returns true, its destructor returns, and there are as
    -- many connections as before.
    pub lifetime_balance :
        (d3 : D) × (destructor sqlite db d2 ≡ some d3)
        × ((sqlite.view d3).connections ≡ (sqlite.view d).connections)
    lifetime_balance =
        let (disk, memory, number, is, ready, more) = opened_lem path d d1 db opens in
        let (ready', same) =
          calls-Ready sqlite backups disk memory number cs d1 d2 _ ready (rw (sym is) succeed) in
        let (d3, e, less) = destructor_lem disk memory number d2 _ ready' in
        (
          d3,
          subst (λ db. destructor sqlite db d2 ≡ some d3) (sym is) e,
          omega (arith, less, same, more),
        )

    -- From the same calls, the contents in memory and on the disk are what the calls make of
    -- two copies of the file's content: a load copies the disk's, a flush the memory's, and a write has the effect of the
    -- insertion in memory, whose first parameter is the age of the person and whose second is the name up to a zero.
    pub calls_contents :
        (disk memory : ℕ)
        → db.disk_database_handle ≡ some disk
        → db.in_memory_database_handle ≡ some memory
        → ((sqlite.view d2).content memory, (sqlite.view d2).content disk)
          ≡ run_calls
              (λ person. sqlite.effect insert_query (row person))
              cs
              (sqlite.stored path d, sqlite.stored path d)
    calls_contents disk memory on_disk in_memory =
        let (disk', memory', number, is, ready, more) = opened_lem path d d1 db opens in
        let (ready', same) =
          calls-Ready sqlite backups disk' memory' number cs d1 d2 _ ready (rw (sym is) succeed) in
        let disk_same : disk ≡ disk' = ground (arith, on_disk, is) in
        let memory_same : memory ≡ memory' = ground (arith, in_memory, is) in
        ap₂ (λ m k. (m, k)) (ap (λ h. (sqlite.view d2).content h) memory_same ∙ ready'.in_memory)
          (ap (λ h. (sqlite.view d2).content h) disk_same ∙ ready'.on_disk)
