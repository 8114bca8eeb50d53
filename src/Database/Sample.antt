-- ===== src/Database/Sample.antt =====
-- A SQLite in which no call fails, as an instance of `Sqlite`: the content of a database is the two values of each
-- insertion, and files are empty.
use communicate_between_proc.Prelude.{
  ℕ, ◌+◌, ◌≡◌, refl, subst, ap, fun_ext, ◌&&◌, ◌≢◌, ltb, false, Option, none, some, List, [], ◌∷◌,
  ◌++◌, pos, arith,
}
use communicate_between_proc.Database.Sqlite.{
  Sqlite, View, Value, Stmt, Backup, Bindings, integer, text, sqlite_ok, sqlite_done, opened,
  closed, prepared, bound, stepped, finalized, begun, copied, finished,
}
use communicate_between_proc.Database.Copying.{BackupsSucceed}

abbrev pub Rows : Type 0
Rows = List (Option Value × Option Value)

-- The next connection, and the next statement or backup.
pub record State : Type 0 where
  pub seen : View Rows
  pub next : ℕ
  pub serial : ℕ

abbrev pub empty : State
empty = record {
  seen = record {
    connections = 0;
    is_open = λ h. false;
    content = λ h. [];
    busy = λ h. 0;
    bindings = λ s i. none;
    failed = λ s. false;
  };
  next = 0;
  serial = 0;
}

abbrev pub sees : (View Rows → View Rows) → State → State
sees f d = record d { seen = f d.seen }

abbrev pub takes : (View Rows → View Rows) → State → State
takes f d = record d { seen = f d.seen; serial = d.serial + 1 }

-- No connection is open that was not made.
abbrev pub view : State → View Rows
view d = record d.seen { is_open = λ h. ltb h d.next && d.seen.is_open h }

abbrev pub open_one : State → State
open_one d = record d { seen = opened d.next [] d.seen; next = d.next + 1 }

abbrev pub insert_row : Bindings → Rows → Rows
insert_row b rows = rows ++ (b 1, b 2) ∷ []

abbrev pub close : Option ℕ → State → ℕ × State
close none d = (sqlite_ok, d)
close (some h) d = (sqlite_ok, sees (closed h) d)

abbrev pub statement : ℕ → List ℕ → State → Stmt
statement h query d = record { number = d.serial; database = h; query = query }

abbrev pub backup : ℕ → ℕ → State → Backup
backup source destination d = record {
  number = d.serial;
  source = source;
  destination = destination;
}

pub some_handle : {A : Type 0} (a : A) → some a ≢ none
some_handle a e = absurd (ground (arith, e))

pub open_sees :
    (d : State) (h : ℕ)
    → some d.next ≡ some h
    → ((view d).is_open h ≡ false) × (view (open_one d) ≡ opened h [] (view d))
open_sees d h e =
    let same : d.next ≡ h = ground (arith, e) in
    let first : view (open_one d) ≡ opened d.next [] (view d) =
      ap (λ is_open. record (opened d.next [] d.seen) { is_open = is_open })
        (fun_ext (λ j. ground arith)) in
    subst (λ h'. ((view d).is_open h' ≡ false) × (view (open_one d) ≡ opened h' [] (view d))) same
      (ground arith, first)

pub close_sees : (h : ℕ) (d : State) → view (sees (closed h) d) ≡ closed h (view d)
close_sees h d =
    ap (λ is_open. record (closed h d.seen) { is_open = is_open }) (fun_ext (λ j. ground arith))

pub init_sees :
    (source destination : ℕ) (d : State) (b : Backup)
    → some (backup source destination d) ≡ some b
    → (b.source ≡ source)
      × (b.destination ≡ destination)
      × (begun (backup source destination d) (view d) ≡ begun b (view d))
init_sees source destination d b e =
    let same : backup source destination d ≡ b = ground (arith, e) in
    subst
      (λ c.
        (c.source ≡ source)
        × (c.destination ≡ destination)
        × (begun (backup source destination d) (view d) ≡ begun c (view d)))
      same (refl, refl, refl)

abbrev pub sample : Sqlite State Rows
sample = record {
  sqlite3_open = λ path d. (sqlite_ok, some d.next, open_one d);
  sqlite3_close = close;
  sqlite3_exec = λ h script d. (sqlite_ok, d);
  sqlite3_prepare_v2 = λ h query d.
      (sqlite_ok, some (statement h query d), takes (prepared (statement h query d)) d);
  sqlite3_bind_int = λ s i n d. (sqlite_ok, sees (bound s i (integer n)) d);
  sqlite3_bind_text = λ s i t d. (sqlite_ok, sees (bound s i (text t)) d);
  sqlite3_step = λ s d. (
    sqlite_done,
    sees (stepped s (insert_row (d.seen.bindings s.number) (d.seen.content s.database))) d,
  );
  sqlite3_reset = λ s d. (sqlite_ok, d);
  sqlite3_column_int = λ s i d. pos 0;
  sqlite3_finalize = λ s d. (sqlite_ok, sees (finalized s) d);
  sqlite3_backup_init = λ source destination d.
      (some (backup source destination d), takes (begun (backup source destination d)) d);
  sqlite3_backup_step = λ b d. (sqlite_done, sees (copied b) d);
  sqlite3_backup_finish = λ b d. (sqlite_ok, sees (finished b) d);
  sqlite3_db_cacheflush = λ h d. (sqlite_ok, d);
  view = view;
  stored = λ path d. [];
  effect = λ query b rows. insert_row b rows;
  open_ok = λ path d ok. (d.next, refl);
  open_none = λ path d e. absurd (some_handle _ e);
  open_some = λ path d h e. open_sees d h e;
  close_none = λ d. refl;
  close_idle = λ h d is_open idle. close_sees h d;
  prepare_ok = λ h query d ok. (d.serial, refl, refl);
  prepare_fails = λ h query d fails. absurd (fails refl);
  bind_int_ok = λ s i n d ok. refl;
  bind_text_ok = λ s i t d ok. refl;
  step_done = λ s d ok. refl;
  reset_lem = λ s d fine. refl;
  finalize_lem = λ s d fine. (refl, refl);
  backup_init_none = λ source destination d e. absurd (some_handle _ e);
  backup_init_some = λ source destination d b e. init_sees source destination d b e;
  backup_step_done = λ b d ok. refl;
  backup_finish_done = λ b d ok. refl;
  cacheflush_lem = λ h d. refl;
}

pub sample-BackupsSucceed : BackupsSucceed sample
sample-BackupsSucceed = record {
  begins = λ source destination d differ from to. (backup source destination d, refl);
  done = λ source destination d b differ from to e. refl;
}
