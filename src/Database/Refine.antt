-- ===== src/Database/Refine.antt =====
-- What calls of an opened database of apps/use_sqlite do to the contents of its two connections.
use communicate_between_proc.Prelude.{
  ℕ, ◌≡◌, ◌≢◌, refl, ap, ◌∙◌, sym, Bool, true, false, Option, none, some, List, [], ◌∷◌, arith,
  if◌then◌else◌,
}
use communicate_between_proc.Database.Sqlite.{Sqlite, View}
use communicate_between_proc.Database.Statement.{Person, insert_query, copy_content}
use communicate_between_proc.Database.SqlDatabase.{
  SqlDatabase, Call, load_call, flush_call, write_call, call, calls, load_into_memory,
  flush_to_disk, write_person, load_into_memory_impl,
}
use communicate_between_proc.Database.Copying.{BackupsSucceed, copied_to, copy_content-view}
use communicate_between_proc.Database.Writing.{row, writer, inserted, write-view, put_at, put_other}

abbrev pub opened_database : ℕ → ℕ → ℕ → SqlDatabase
opened_database disk memory number = record {
  person_writer = writer memory number;
  disk_database_handle = some disk;
  in_memory_database_handle = some memory;
}

-- The contents in memory and on the disk, behind calls.
module _ {C : Type 0} (insertion : Person → C → C) where
  abbrev pub run_call : Call → C × C → C × C
  run_call load_call (m, k) = (k, k)
  run_call flush_call (m, k) = (m, m)
  run_call (write_call person) (m, k) = (insertion person m, k)

  abbrev pub run_calls : List Call → C × C → C × C
  run_calls [] contents = contents
  run_calls (c ∷ cs) contents = run_calls cs (run_call c contents)

-- An opened database with contents `m` and `k`.
pub record Ready {C : Type 0} (disk memory number : ℕ) (v : View C) (contents : C × C)
    : Type 0 where
  pub distinct : disk ≢ memory
  pub disk_open : v.is_open disk ≡ true
  pub memory_open : v.is_open memory ≡ true
  pub disk_idle : v.busy disk ≡ 0
  pub memory_busy : v.busy memory ≡ 1
  pub succeeded : v.failed number ≡ false
  pub unbound : (i : ℕ) → i ≢ 1 → i ≢ 2 → v.bindings number i ≡ none
  pub in_memory : v.content memory ≡ contents.0
  pub on_disk : v.content disk ≡ contents.1

module _ {D C : Type 0} (sqlite : Sqlite D C) (backups : BackupsSucceed sqlite)
    (disk memory number : ℕ) where
  abbrev insertion : Person → C → C
  insertion person = sqlite.effect insert_query (row person)

  abbrev db : SqlDatabase
  db = opened_database disk memory number

  abbrev connections : D → ℕ
  connections d = (sqlite.view d).connections

  loaded :
      (v : View C) (contents : C × C)
      → Ready disk memory number v contents
      → Ready disk memory number (copied_to disk memory v) (contents.1, contents.1)
  loaded v contents r = record {
    distinct = r.distinct;
    disk_open = r.disk_open;
    memory_open = r.memory_open;
    disk_idle = r.disk_idle;
    memory_busy = r.memory_busy;
    succeeded = r.succeeded;
    unbound = r.unbound;
    in_memory = put_at memory (v.content disk) v.content ∙ r.on_disk;
    on_disk = put_other memory disk (v.content disk) v.content r.distinct ∙ r.on_disk;
  }

  flushed :
      (v : View C) (contents : C × C)
      → Ready disk memory number v contents
      → Ready disk memory number (copied_to memory disk v) (contents.0, contents.0)
  flushed v contents r = record {
    distinct = r.distinct;
    disk_open = r.disk_open;
    memory_open = r.memory_open;
    disk_idle = r.disk_idle;
    memory_busy = r.memory_busy;
    succeeded = r.succeeded;
    unbound = r.unbound;
    in_memory =
        put_other disk memory (v.content memory) v.content (λ e. r.distinct (sym e)) ∙ r.in_memory;
    on_disk = put_at disk (v.content memory) v.content ∙ r.in_memory;
  }

  written :
      (person : Person) (d : D) (contents : C × C)
      → Ready disk memory number (sqlite.view d) contents
      → Ready disk memory number
          (inserted sqlite memory number person d (sqlite.view d))
          (insertion person contents.0, contents.1)
  written person d contents r =
      let v = sqlite.view d in
      record {
        distinct = r.distinct;
        disk_open = r.disk_open;
        memory_open = r.memory_open;
        disk_idle = r.disk_idle;
        memory_busy = r.memory_busy;
        succeeded = put_at number false v.failed;
        unbound =
            λ i one two. rw (put_at number (row person) v.bindings) (ground (arith, one, two));
        in_memory = put_at memory _ v.content ∙ ap (insertion person) r.in_memory;
        on_disk = put_other memory disk _ v.content r.distinct ∙ r.on_disk;
      }

  flush_codes :
      (d d' : D)
      → flush_to_disk sqlite db d ≡ some (true, d')
      → d' ≡ (sqlite.sqlite3_db_cacheflush disk (copy_content sqlite memory disk d).1).1
  unfolding flush_to_disk
  flush_codes d d' h = ground arith

  load_codes :
      (d d' : D)
      → load_into_memory sqlite db d ≡ some (true, d')
      → d' ≡ (copy_content sqlite disk memory d).1
  unfolding load_into_memory load_into_memory_impl
  load_codes d d' h = ground arith

  -- Behind one call that returns true.
  record Behind (c : Call) (d d' : D) (contents : C × C) : Type 0 where
    ready : Ready disk memory number (sqlite.view d') (run_call insertion c contents)
    same : connections d' ≡ connections d

  call-Behind :
      (c : Call) (d d' : D) (contents : C × C)
      → Ready disk memory number (sqlite.view d) contents
      → call sqlite c db d ≡ some (true, d')
      → Behind c d d' contents
  unfolding call write_person
  call-Behind load_call d d' contents r h =
      let e =
        ap sqlite.view (load_codes d d' h)
        ∙ copy_content-view sqlite backups disk memory d r.distinct r.disk_open r.memory_open in
      record { ready = rw e (loaded (sqlite.view d) contents r); same = ap (λ v. v.connections) e }
  call-Behind flush_call d d' contents r h =
      let e =
        ap sqlite.view (flush_codes d d' h)
        ∙ sqlite.cacheflush_lem disk _
        ∙ copy_content-view sqlite backups memory disk d (λ e. r.distinct (sym e)) r.memory_open
            r.disk_open in
      record { ready = rw e (flushed (sqlite.view d) contents r); same = ap (λ v. v.connections) e }
  call-Behind (write_call person) d d' contents r h =
      let e = write-view sqlite memory number person d d' r.unbound h in
      record { ready = rw e (written person d contents r); same = ap (λ v. v.connections) e }

  true_first :
      (o : Option (Bool × D)) (rest : D → Option (Bool × D)) (d' : D)
      → (elim o [ none ↦ none | some (b, d1) ↦ if b then rest d1 else some (false, d1) ])
        ≡ some (true, d')
      → (d1 : D) × (o ≡ some (true, d1)) × (rest d1 ≡ some (true, d'))
  true_first none rest d' h = absurd (ground (arith, h))
  true_first (some (true, d1)) rest d' h = (d1, refl, h)
  true_first (some (false, d1)) rest d' h = absurd (ground (arith, h))

  calls_step :
      (c : Call) (cs : List Call) (d d' : D)
      → calls sqlite (c ∷ cs) db d ≡ some (true, d')
      → (d1 : D) × (call sqlite c db d ≡ some (true, d1))
        × (calls sqlite cs db d1 ≡ some (true, d'))
  unfolding calls
  calls_step c cs d d' h = true_first (call sqlite c db d) (λ d1. calls sqlite cs db d1) d' h

  -- Behind a list of calls.
  pub calls-Ready :
      (cs : List Call) (d d' : D) (contents : C × C)
      → Ready disk memory number (sqlite.view d) contents
      → calls sqlite cs db d ≡ some (true, d')
      → Ready disk memory number (sqlite.view d') (run_calls insertion cs contents)
        × (connections d' ≡ connections d)
  unfolding calls
  calls-Ready [] d d' contents r h =
      let e : d' ≡ d = ground (arith, h) in (rw e r, ap connections e)
  calls-Ready (c ∷ cs) d d' contents r h =
      let (d1, first, rest) = calls_step c cs d d' h in
      let b = call-Behind c d d1 contents r first in
      let (ready, same) = calls-Ready cs d1 d' (run_call insertion c contents) b.ready rest in
      (ready, same ∙ b.same)
