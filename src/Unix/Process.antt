-- ===== src/Unix/Process.antt =====
-- libs/unix/include/unix/process.hpp and libs/common/include/common/process.hpp. What fork and wait return is
-- an argument, with the error number that they leave.
use communicate_between_proc.Prelude.{
  ℕ, zero, Bool, true, false, Option, none, some, List, [], ◌∷◌, ◌==◌, ℤ, pos, if◌then◌else◌,
}
use communicate_between_proc.Unix.Kernel.{Kernel, Result, ok, err, operation_failed}
use communicate_between_proc.Unix.GroupNotifier.{GroupNotifier, wait_for_all, notify_one, after}

unfoldable pub is_child_process : ℤ → Bool
is_child_process (pos zero) = true
is_child_process _ = false

unfoldable pub create_process : ℤ → ℕ → Result ℤ
create_process pid errno = if operation_failed pid then err errno else ok pid

unfoldable pub wait_till_child_terminates : ℤ → ℕ → Result ℤ
wait_till_child_terminates child_id errno =
    if operation_failed child_id then err errno else ok child_id

-- The loop over what the waits return; `none` is a loop that waits for more. `echild` is ECHILD.
unfoldable pub wait_till_all_children_termninate : ℕ → List (ℤ × ℕ) → Option Bool
unfolding wait_till_child_terminates
wait_till_all_children_termninate echild [] = none
wait_till_all_children_termninate echild ((child_id, errno) ∷ waits) =
    elim (wait_till_child_terminates child_id errno) [
      | err code ↦ some (code == echild)
      | ok id ↦ wait_till_all_children_termninate echild waits
    ]

module _ {K P : Type 0} (kernel : Kernel K) where
  -- Where a process goes on behind its call: while it waits, where that failed, and where it succeeded.
  unfoldable pub wait_till_all_children_ready : GroupNotifier → P → P → P → K → P × K
  unfolding after
  wait_till_all_children_ready g waits fails succeeds k =
      after (wait_for_all kernel g k) waits fails succeeds k

  unfoldable pub signal_readiness_to_parent : GroupNotifier → P → P → P → K → P × K
  unfolding after
  signal_readiness_to_parent g waits fails succeeds k =
      after (notify_one kernel g k) waits fails succeeds k
