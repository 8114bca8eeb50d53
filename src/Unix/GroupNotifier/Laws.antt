-- ===== src/Unix/GroupNotifier/Laws.antt =====
-- What a client of a group notifier may count on: each call waits, or fails with no value changed, or
-- changes the value of its own semaphore and no other.
use communicate_between_proc.Prelude.{
  ℕ, zero, suc, ◌+◌, ◌≤◌, ◌<◌, ltb, negsuc, arith, ◌≡◌, ◌≢◌, refl, Bool, true, false, Option, none,
  some, [], ◌∷◌, ℤ, pos, pos_part, neg_part, if◌then◌else◌,
}
use communicate_between_proc.Unix.Kernel.{Kernel, Result, ok, err, Sembuf, operation_failed}
use communicate_between_proc.Unix.SemaphoreSet.{
  checked, change_value, try_changing_value, increase_value, decrease_value, try_decreasing_value,
  to_short, is_positive, is_negative,
}
use communicate_between_proc.Unix.GroupNotifier.{
  GroupNotifier, minus, wait_for_one, wait_for, wait_for_all, notify_one, notify, notify_all,
  wait_till_none, try_waiting_for_one, after,
}

-- A count as a short is no greater, and a count below 2 ^ 15 stays as it is.
pub to_short_le : (n : ℕ) → pos_part (to_short (pos n)) ≤ n
to_short_le n = ground arith

pub to_short-minus :
    (n : ℕ) → n < 32768 → (neg_part (to_short (minus n)) ≡ n) × (pos_part (to_short (minus n)) ≡ 0)
to_short-minus zero h = (refl, refl)
to_short-minus (suc n) h = (ground arith, ground arith)

module _ {K : Type 0} (kernel : Kernel K) where
  open kernel use {errno, semop, value, semop_changes, semop_zero, semop_others, semop_fails}

  -- The value of semaphore `j` of the set of a notifier.
  abbrev pub value_at : GroupNotifier → ℕ → K → ℕ
  value_at g j k = value g.semaphores.handle j k

  -- How a call may end that takes `less` off the value of the notifier and adds `more`.
  pub data Ends (g : GroupNotifier) (less more : ℕ) (k : K)
      : Option (Result (Unit {0}) × K) → Type 0 where
    waits : Ends g less more k none
    fails :
        {e : ℕ} {k' : K}
        → ((j : ℕ) → value_at g j k' ≡ value_at g j k)
        → Ends g less more k (some (err e, k'))
    changes :
        {k' : K}
        → value_at g g.index k' + less ≡ value_at g g.index k + more
        → ((j : ℕ) → j ≢ g.index → value_at g j k' ≡ value_at g j k)
        → Ends g less more k (some (ok tt, k'))

  abbrev operation : GroupNotifier → ℤ → Bool → Sembuf
  operation g change w = record { sem_num = g.index; sem_op = change; nowait = w }

  semop-Ends :
      (g : GroupNotifier) (change : ℤ) (w : Bool) (k : K)
      → Ends g
          (neg_part change)
          (pos_part change)
          k
          (elim (semop g.semaphores.handle (operation g change w ∷ []) k)
            as (λ _. Option (Result (Unit {0}) × K)) [
              | none ↦ none
              | some returned ↦ some (checked kernel returned)
            ])
  unfolding checked
  semop-Ends g change w k = by_call (semop g.semaphores.handle (operation g change w ∷ []) k) refl
    where
      by_return :
          (ret : ℤ) (k' : K) (failed : Bool)
          → operation_failed ret ≡ failed
          → semop g.semaphores.handle (operation g change w ∷ []) k ≡ some (ret, k')
          → Ends g
              (neg_part change)
              (pos_part change)
              k
              (some (if failed then (err (errno k'), k') else (ok tt, k')))
      by_return ret k' true f e =
          fails (λ j. semop_fails g.semaphores.handle (operation g change w) k k' ret j e f)
      by_return ret k' false f e =
          changes (semop_changes g.semaphores.handle (operation g change w) k k' ret e f)
            (λ j. semop_others g.semaphores.handle (operation g change w) k k' ret j e)

      by_call :
          (o : Option (ℤ × K))
          → semop g.semaphores.handle (operation g change w ∷ []) k ≡ o
          → Ends g
              (neg_part change)
              (pos_part change)
              k
              (elim o as (λ _. Option (Result (Unit {0}) × K)) [
                | none ↦ none
                | some returned ↦ some (checked kernel returned)
              ])
      by_call none e = waits
      by_call (some (ret, k')) e = by_return ret k' (operation_failed ret) refl e

  -- A test that fails where an assertion does.
  asserted-Ends :
      (b : Bool) (g : GroupNotifier) (k : K) {less more : ℕ} {o : Option (Result (Unit {0}) × K)}
      → Ends g less more k o
      → Ends g less more k (if b then o else none)
  asserted-Ends true g k e = e
  asserted-Ends false g k e = waits

  -- What a change of the value takes off it, and what it adds, as a short.
  abbrev pub less_by : ℤ → ℕ
  less_by change = neg_part (to_short change)

  abbrev pub more_by : ℤ → ℕ
  more_by change = pos_part (to_short change)

  change-Ends :
      (g : GroupNotifier) (change : ℤ) (k : K)
      → Ends g
          (less_by change)
          (more_by change)
          k
          (change_value kernel g.semaphores g.index change k)
  unfolding change_value
  change-Ends g change k =
      asserted-Ends (ltb g.index g.semaphores.count) g k (semop-Ends g (to_short change) false k)

  pub wait_for_one-Ends : (g : GroupNotifier) (k : K) → Ends g 1 0 k (wait_for_one kernel g k)
  unfolding wait_for_one decrease_value
  wait_for_one-Ends g k = change-Ends g (minus 1) k

  pub wait_for-Ends :
      (g : GroupNotifier) (n : ℕ) (k : K)
      → Ends g (less_by (minus n)) (more_by (minus n)) k (wait_for kernel g n k)
  unfolding wait_for decrease_value
  wait_for-Ends g n k =
      asserted-Ends (ltb 0 n) g k
        (asserted-Ends (is_negative (minus n)) g k (change-Ends g (minus n) k))

  pub wait_for_all-Ends :
      (g : GroupNotifier) (k : K)
      → Ends g
          (less_by (minus g.group_size))
          (more_by (minus g.group_size))
          k
          (wait_for_all kernel g k)
  unfolding wait_for_all decrease_value
  wait_for_all-Ends g k =
      asserted-Ends (is_negative (minus g.group_size)) g k (change-Ends g (minus g.group_size) k)

  pub notify_one-Ends : (g : GroupNotifier) (k : K) → Ends g 0 1 k (notify_one kernel g k)
  unfolding notify_one increase_value
  notify_one-Ends g k = change-Ends g (pos 1) k

  pub notify-Ends :
      (g : GroupNotifier) (n : ℕ) (k : K)
      → Ends g (less_by (pos n)) (more_by (pos n)) k (notify kernel g n k)
  unfolding notify increase_value
  notify-Ends g n k =
      asserted-Ends (ltb 0 n) g k
        (asserted-Ends (is_positive (pos n)) g k (change-Ends g (pos n) k))

  pub notify_all-Ends :
      (g : GroupNotifier) (k : K)
      → Ends g (less_by (pos g.group_size)) (more_by (pos g.group_size)) k (notify_all kernel g k)
  unfolding notify_all increase_value
  notify_all-Ends g k =
      asserted-Ends (is_positive (pos g.group_size)) g k (change-Ends g (pos g.group_size) k)

  pub wait_till_none-Ends : (g : GroupNotifier) (k : K) → Ends g 0 0 k (wait_till_none kernel g k)
  unfolding wait_till_none
  wait_till_none-Ends g k = change-Ends g (pos 0) k

  pub try_waiting_for_one-Ends :
      (g : GroupNotifier) (k : K) → Ends g 1 0 k (try_waiting_for_one kernel g k)
  unfolding try_waiting_for_one try_changing_value try_decreasing_value
  try_waiting_for_one-Ends g k =
      asserted-Ends (ltb g.index g.semaphores.count) g k (semop-Ends g (negsuc 0) true k)

  -- What holds of where a process goes on, in each way that its call may end.
  pub after_cases :
      {Point : Type 0} (P : Point → K → Type 0) (g : GroupNotifier) {less more : ℕ} {k : K}
      {o : Option (Result (Unit {0}) × K)} (w f d : Point)
      → Ends g less more k o
      → P w k
      → ((k' : K) → ((j : ℕ) → value_at g j k' ≡ value_at g j k) → P f k')
      → ((k' : K)
          → value_at g g.index k' + less ≡ value_at g g.index k + more
          → ((j : ℕ) → j ≢ g.index → value_at g j k' ≡ value_at g j k)
          → P d k')
      → P (after o w f d k).0 (after o w f d k).1
  unfolding after
  after_cases P g w f d waits p q r = p
  after_cases P g w f d (fails {k'} e) p q r = q k' e
  after_cases P g w f d (changes {k'} e o) p q r = r k' e o
