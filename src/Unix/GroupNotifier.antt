-- ===== src/Unix/GroupNotifier.antt =====
-- libs/unix/include/unix/ipc/system_v/group_notifier.hpp.
pub mod Laws
pub mod Accounts
use communicate_between_proc.Prelude.{
  ℕ, zero, suc, ◌≡◌, Bool, Option, ℤ, pos, negsuc, none, some, ltb, if◌then◌else◌,
}
use communicate_between_proc.Unix.Kernel.{Kernel, Result, ok, err}
use communicate_between_proc.Unix.SemaphoreSet.{
  SemaphoreSet, change_value, increase_value, decrease_value, try_decreasing_value,
}

pub record GroupNotifier : Type 0 where
  pub semaphores : SemaphoreSet
  pub index : ℕ
  pub group_size : ℕ

-- Where a process goes on after a call of a notifier: it waits, the call failed, or it succeeded.
unfoldable pub after : {K P : Type 0} → Option (Result (Unit {0}) × K) → P → P → P → K → P × K
after none waits fails succeeds k = (waits, k)
after (some (err e, k')) waits fails succeeds k = (fails, k')
after (some (ok tt, k')) waits fails succeeds k = (succeeds, k')

-- -n
abbrev pub minus : ℕ → ℤ
minus zero = pos 0
minus (suc n) = negsuc n

module _ {K : Type 0} (kernel : Kernel K) where
  abbrev pub Call : Type 0
  Call = K → Option (Result (Unit {0}) × K)

  unfoldable pub wait_for_one : GroupNotifier → Call
  unfolding decrease_value
  wait_for_one g k = decrease_value kernel g.semaphores g.index (minus 1) k

  unfoldable pub wait_for : GroupNotifier → ℕ → Call
  unfolding decrease_value
  wait_for g count k =
      if ltb 0 count then decrease_value kernel g.semaphores g.index (minus count) k else none

  unfoldable pub wait_for_all : GroupNotifier → Call
  unfolding decrease_value
  wait_for_all g k = decrease_value kernel g.semaphores g.index (minus g.group_size) k

  unfoldable pub notify_one : GroupNotifier → Call
  unfolding increase_value
  notify_one g k = increase_value kernel g.semaphores g.index (pos 1) k

  unfoldable pub notify : GroupNotifier → ℕ → Call
  unfolding increase_value
  notify g count k =
      if ltb 0 count then increase_value kernel g.semaphores g.index (pos count) k else none

  unfoldable pub notify_all : GroupNotifier → Call
  unfolding increase_value
  notify_all g k = increase_value kernel g.semaphores g.index (pos g.group_size) k

  unfoldable pub wait_till_none : GroupNotifier → Call
  wait_till_none g k = change_value kernel g.semaphores g.index (pos 0) k

  unfoldable pub try_waiting_for_one : GroupNotifier → Call
  unfolding try_decreasing_value
  try_waiting_for_one g k = try_decreasing_value kernel g.semaphores g.index (minus 1) k
