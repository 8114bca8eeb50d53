-- ===== src/Unix/Tests.antt =====
-- The results on libs/unix at concrete inputs.
use communicate_between_proc.Prelude.{
  zero, suc, ℤ, negsuc, length, replicate, set, ◌≡◌, ◌+◌, refl, true, false, none, some, pos, [],
  ◌∷◌, Bool, ◌≢◌, if◌then◌else◌, get_elem?, arith,
}
use communicate_between_proc.Unix.Kernel.{operation_failed, operation_successful}
use communicate_between_proc.Unix.Pipe.{
  Descriptors, Pipe, reading, create, close_end, write, is_end_open, destructor,
}
use communicate_between_proc.Unix.PipeEnds.{close_use, write_use, perform, performs, pipe_releases}
use communicate_between_proc.Unix.SemaphoreSet
use communicate_between_proc.Unix.GroupNotifier
use communicate_between_proc.Unix.GroupNotifier.{GroupNotifier}
use communicate_between_proc.Unix.GroupNotifier.Accounts.{
  call, calls, notifier_accounts, notifying_all, waiting_for_one, waiting_for, trying_for_one,
}
use communicate_between_proc.Unix.Sample.{Values, sample}
use communicate_between_proc.Unix.Permissions
use communicate_between_proc.Unix.Permissions.{
  no_permissions, get, owner, group, others, read_it, write_it, build, grants-build, owner_can_read,
  owner_can_write, owner_can_execute, group_can_read, group_can_write, group_can_execute,
  others_can_read, others_can_write, others_can_execute,
}

-- rw-r--r--
usual_mode :
    get (
      build
        ((owner, read_it) ∷ (owner, write_it) ∷ (group, read_it) ∷ (others, read_it) ∷ [])
        no_permissions)
    ≡ 420
unfolding get build no_permissions owner_can_read owner_can_write owner_can_execute group_can_read
    group_can_write group_can_execute others_can_read others_can_write others_can_execute
    Permissions.call
usual_mode = refl

-- S_ISUID, which is bit 11, stays as it is.
grants-build_example :
    get_elem? (build ((owner, read_it) ∷ (group, write_it) ∷ []) (replicate 16 false)) 11
    ≡ some false
grants-build_example =
    grants-build ((owner, read_it) ∷ (group, write_it) ∷ []) 11 (replicate 16 false) (omega arith)
      refl

abbrev notifier : GroupNotifier
notifier = record { semaphores = record { handle = pos 0; count = 2 }; index = 1; group_size = 3 }

abbrev no_values : Values
no_values = λ i. 0

-- Three are notified and three wait; the try for a fourth fails.
abbrev values_behind : Values
values_behind j =
    elim (calls sample notifier
      (notifying_all ∷ waiting_for_one ∷ waiting_for 2 ∷ trying_for_one ∷ []) no_values) [
        | none ↦ 7
        | some (less, more, k) ↦ k j
      ]

notifier_accounts_example : (values_behind 1 + 3 ≡ 0 + 3) × (values_behind 0 ≡ 0)
unfolding calls call operation_failed SemaphoreSet.change_value SemaphoreSet.try_changing_value
    SemaphoreSet.checked GroupNotifier.notify_all GroupNotifier.wait_for_one GroupNotifier.wait_for
    GroupNotifier.try_waiting_for_one SemaphoreSet.decrease_value SemaphoreSet.increase_value
    SemaphoreSet.try_decreasing_value
notifier_accounts_example =
    notifier_accounts sample notifier
      (notifying_all ∷ waiting_for_one ∷ waiting_for 2 ∷ trying_for_one ∷ []) no_values
      values_behind 3 3 0 refl (λ e. omega (arith, e))

-- A process with the descriptors 0 and 1, by whether it has them.
record Table : Type 0 where
  first : Bool
  second : Bool

abbrev is_open : ℤ → Table → Bool
is_open (pos zero) t = t.first
is_open (pos (suc zero)) t = t.second
is_open fd t = false

abbrev ended : ℤ → Table → Table
ended (pos zero) t = record t { first = false }
ended (pos (suc zero)) t = record t { second = false }
ended fd t = t

abbrev close : ℤ → Table → ℤ × Table
close fd t = (if is_open fd t then pos 0 else negsuc 0, ended fd t)

ended-is_open : (fd : ℤ) (t : Table) → is_open fd (ended fd t) ≡ false
ended-is_open fd t = ground arith

ended_other : (fd other : ℤ) (t : Table) → other ≢ fd → is_open other (ended fd t) ≡ is_open other t
ended_other fd other t n = ground arith

others_closed :
    (fd : ℤ) (t : Table)
    → fd ≢ pos 0
    → fd ≢ pos 1
    → is_open fd (record { first = true; second = true }) ≡ is_open fd t
others_closed fd t n m = ground arith

close-succeeds :
    (fd : ℤ) (t : Table) → is_open fd t ≡ true → operation_successful (close fd t).0 ≡ true
unfolding operation_successful
close-succeeds fd t h = ground (arith, h)

ends_differ : pos 0 ≢ pos 1
ends_differ e = absurd (ground (arith, e))

abbrev counted : Descriptors Table
counted = record {
  errno = λ k. 9;
  sys_pipe = λ k. (pos 0, pos 0, pos 1, record { first = true; second = true });
  sys_close = λ fd k. close fd k;
  sys_write = λ fd bytes k. (pos (length bytes), k);
  sys_read = λ fd count k. (pos 0, [], k);
  is_open = is_open;
  pipe_opens = λ k h. (ends_differ, refl, refl);
  pipe_others = λ fd k n m. others_closed fd k n m;
  close_closes = λ fd k h. ended-is_open fd k;
  close_others = λ fd other k n. ended_other fd other k n;
  write_keeps = λ fd other bytes k. refl;
  read_keeps = λ fd other count k. refl;
}

abbrev no_table : Table
no_table = record { first = false; second = false }

abbrev both_ends : Pipe
both_ends = record { read_end = pos 0; write_end = pos 1; end_open = replicate 8 true }

abbrev write_only : Pipe
write_only = record both_ends { end_open = set (replicate 8 true) 0 false }

pipe_releases_example :
    (k3 : Table) × (destructor counted write_only (record { first = false; second = true })
      ≡ some k3)
    × (is_open (pos 0) k3 ≡ false)
    × (is_open (pos 1) k3 ≡ false)
    × ((fd : ℤ) → fd ≢ pos 0 → fd ≢ pos 1 → is_open fd k3 ≡ is_open fd no_table)
unfolding create performs perform close_end write is_end_open operation_successful operation_failed
pipe_releases_example =
    pipe_releases counted close-succeeds (close_use reading ∷ write_use (7 ∷ []) ∷ []) no_table
      (record { first = true; second = true }) (record { first = false; second = true }) both_ends
      write_only refl refl
