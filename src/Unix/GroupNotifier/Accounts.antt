-- ===== src/Unix/GroupNotifier/Accounts.antt =====
-- Sequences of calls on one group notifier, with what they took off its semaphore and added to it.
use communicate_between_proc.Prelude.{
  ℕ, ℤ, pos, negsuc, pos_part, neg_part, ◌+◌, ◌≡◌, ◌≢◌, Option, none, some, List, [], ◌∷◌, arith,
  Option-cases, inl, inr, ◌∙◌, sym, ap,
}
use communicate_between_proc.Unix.Kernel.{Kernel, Result, ok, err}
use communicate_between_proc.Unix.SemaphoreSet.{to_short}
use communicate_between_proc.Unix.GroupNotifier.{
  GroupNotifier, minus, wait_for_one, wait_for, wait_for_all, notify_one, notify, notify_all,
  wait_till_none, try_waiting_for_one,
}
use communicate_between_proc.Unix.GroupNotifier.Laws.{
  value_at, Ends, waits, fails, changes, wait_for_one-Ends, wait_for-Ends, wait_for_all-Ends,
  notify_one-Ends, notify-Ends, notify_all-Ends, wait_till_none-Ends, try_waiting_for_one-Ends,
}

-- The public methods.
pub data Use : Type 0 where
  waiting_for_one waiting_for_all notifying_one notifying_all waiting_till_none trying_for_one : Use
  waiting_for notifying : ℕ → Use

-- What a method adds to the semaphore, or takes off it where it is negative: its count as a short.
abbrev pub change_of : GroupNotifier → Use → ℤ
change_of g waiting_for_one = negsuc 0
change_of g waiting_for_all = to_short (minus g.group_size)
change_of g notifying_one = pos 1
change_of g notifying_all = to_short (pos g.group_size)
change_of g waiting_till_none = pos 0
change_of g trying_for_one = negsuc 0
change_of g (waiting_for n) = to_short (minus n)
change_of g (notifying n) = to_short (pos n)

abbrev pub taken : GroupNotifier → Use → ℕ
taken g u = neg_part (change_of g u)

abbrev pub added : GroupNotifier → Use → ℕ
added g u = pos_part (change_of g u)

module _ {K : Type 0} (kernel : Kernel K) (g : GroupNotifier) where
  unfoldable pub call : Use → K → Option (Result (Unit {0}) × K)
  call waiting_for_one k = wait_for_one kernel g k
  call waiting_for_all k = wait_for_all kernel g k
  call notifying_one k = notify_one kernel g k
  call notifying_all k = notify_all kernel g k
  call waiting_till_none k = wait_till_none kernel g k
  call trying_for_one k = try_waiting_for_one kernel g k
  call (waiting_for n) k = wait_for kernel g n k
  call (notifying n) k = notify kernel g n k

  abbrev pub counted : Use → Option (ℕ × ℕ × K) → Option (ℕ × ℕ × K)
  counted u none = none
  counted u (some (less, more, k)) = some (taken g u + less, added g u + more, k)

  -- What the calls that succeeded took, and what they added; `none` where a call does not return.
  unfoldable pub calls : List Use → K → Option (ℕ × ℕ × K)
  calls [] k = some (0, 0, k)
  calls (u ∷ us) k = elim (call u k) [
    | none ↦ none
    | some (err e, k') ↦ calls us k'
    | some (ok _, k') ↦ counted u (calls us k')
  ]

  call-Ends : (u : Use) (k : K) → Ends kernel g (taken g u) (added g u) k (call u k)
  unfolding call
  call-Ends waiting_for_one k = wait_for_one-Ends kernel g k
  call-Ends waiting_for_all k = wait_for_all-Ends kernel g k
  call-Ends notifying_one k = notify_one-Ends kernel g k
  call-Ends notifying_all k = notify_all-Ends kernel g k
  call-Ends waiting_till_none k = wait_till_none-Ends kernel g k
  call-Ends trying_for_one k = try_waiting_for_one-Ends kernel g k
  call-Ends (waiting_for n) k = wait_for-Ends kernel g n k
  call-Ends (notifying n) k = notify-Ends kernel g n k

  -- The semaphore of the notifier loses `less` and gains `more`, and semaphore `j` stays as it is.
  abbrev Account : ℕ → ℕ → ℕ → K → K → Type 0
  Account less more j k k' =
      (value_at kernel g g.index k' + less ≡ value_at kernel g g.index k + more)
      × (value_at kernel g j k' ≡ value_at kernel g j k)

  -- Where a sequence of calls on a notifier, blocking or not, failing or not, comes to its end, with no
  -- assertion failed, the value of its semaphore has changed by what the calls that succeeded added,
  -- less what they took, each by its count as a short, and no other semaphore of the set has changed.
  pub notifier_accounts :
      (us : List Use) (k k' : K) (less more j : ℕ)
      → calls us k ≡ some (less, more, k')
      → j ≢ g.index
      → (value_at kernel g g.index k' + less ≡ value_at kernel g g.index k + more)
        × (value_at kernel g j k' ≡ value_at kernel g j k)
  unfolding calls
  notifier_accounts [] k k' less more j h n = grind arith
  notifier_accounts (u ∷ us) k k' less more j h n =
      by_end (call u k) (call-Ends u k) h (λ k₁ less more. notifier_accounts us k₁ k' less more j)
    where
      by_end :
          (o : Option (Result (Unit {0}) × K))
          → Ends kernel g (taken g u) (added g u) k o
          → elim o as (λ _. Option (ℕ × ℕ × K)) [
            | none ↦ none
            | some (err e, k₁) ↦ calls us k₁
            | some (ok _, k₁) ↦ counted u (calls us k₁)
          ]
            ≡ some (less, more, k')
          → ((k₁ : K) (less more : ℕ)
              → calls us k₁ ≡ some (less, more, k')
              → j ≢ g.index
              → Account less more j k₁ k')
          → Account less more j k k'
      by_end _ waits h rest = ground arith
      by_end _ (fails {e = e} {k' = k₁} same) h rest = (
        omega (arith, (rest k₁ less more h n).0, same g.index),
        (rest k₁ less more h n).1 ∙ same j,
      )
      by_end _ (changes {k' = k₁} own others) h rest = elim (Option-cases (calls us k₁)) [
        | inl e ↦ absurd (cc)
        | inr ((l, m, k₂), e) ↦
            let all : some (taken g u + l, added g u + m, k₂) ≡ some (less, more, k') =
              sym (ap (counted u) e) ∙ h in
            ground (arith, rest k₁ l m, own, others j n, all, e)
      ]
