-- ===== src/Unix/SemaphoreSet.antt =====
-- libs/unix/include/unix/ipc/system_v/semaphore_set.hpp, over the system calls of `Kernel`. A method
-- returns its result and the state of the system; `none` is a call that does not return, as it waits or
-- an assertion fails.
use Prim.Native.Nat.{bit_or}
use communicate_between_proc.Prelude.{
  ℕ, ◌-◌, ◌%◌, Bool, true, false, Option, none, some, List, [], ◌∷◌, length, ltb, ℤ, pos, negsuc,
  pos_part, neg_part, if◌then◌else◌,
}
use communicate_between_proc.Unix.Kernel.{Kernel, Result, ok, err, Sembuf, operation_failed}

pub record SemaphoreSet : Type 0 where
  pub handle : ℤ
  pub count : ℕ

-- The value of 16 bits as a short, and an int as a short, which `sem_op` is: its lower 16 bits.
abbrev pub short_of_bits : ℕ → ℤ
short_of_bits bits = if ltb bits 32768 then pos bits else negsuc (65535 - bits)

abbrev pub to_short : ℤ → ℤ
to_short (pos n) = short_of_bits (n % 65536)
to_short (negsuc n) = short_of_bits (65535 - n % 65536)

-- 0 < n and n < 0.
abbrev pub is_positive : ℤ → Bool
is_positive n = ltb 0 (pos_part n)

abbrev pub is_negative : ℤ → Bool
is_negative n = ltb 0 (neg_part n)

module _ {K : Type 0} (kernel : Kernel K) where
  open kernel use {
    errno, einval, ipc_private, ipc_creat, ipc_excl, semget, semctl_stat, semctl_setval,
    semctl_setall, semctl_getval, semctl_getall, semctl_rmid, semop,
  }

  -- The end of most methods: nothing, or the error number.
  unfoldable pub checked : ℤ × K → Result (Unit {0}) × K
  checked (ret, k) = if operation_failed ret then (err (errno k), k) else (ok tt, k)

  -- The size of a set, of what `get_info` returns.
  unfoldable pub get_info : ℤ → K → Result ℕ × K
  get_info handle k =
      let (ret, sem_nsems, k') = semctl_stat handle k in
      if operation_failed ret then (err (errno k'), k') else (ok sem_nsems, k')

  unfoldable pub create : ℤ → ℕ → ℕ → K → Result SemaphoreSet × K
  unfolding get_info
  create key semaphore_count flags k =
      let (handle, k₁) = semget key semaphore_count flags k in
      let (info, k₂) = get_info handle k₁ in
      if operation_failed handle then (err (errno k₁), k₁) else elim info [
        | err e ↦ (err e, k₂)
        | ok sem_nsems ↦ (ok (record { handle = handle; count = sem_nsems }), k₂)
      ]

  unfoldable pub open_existing : ℤ → K → Result SemaphoreSet × K
  open_existing key k = create key 0 0 k

  unfoldable pub create_if_absent : ℤ → ℕ → ℕ → K → Result SemaphoreSet × K
  create_if_absent key semaphore_count permissions k =
      create key semaphore_count (bit_or ipc_creat permissions) k

  unfoldable pub create_exclusively : ℤ → ℕ → ℕ → K → Result SemaphoreSet × K
  create_exclusively key semaphore_count permissions k =
      create key semaphore_count (bit_or (bit_or ipc_creat ipc_excl) permissions) k

  unfoldable pub create_private : ℕ → ℕ → K → Result SemaphoreSet × K
  create_private semaphore_count permissions k = create ipc_private semaphore_count permissions k

  unfoldable pub set_value : SemaphoreSet → ℕ → ℤ → K → Result (Unit {0}) × K
  unfolding checked
  set_value s sem_index init_value k = checked (semctl_setval s.handle sem_index init_value k)

  unfoldable pub set_values : SemaphoreSet → List ℕ → K → Result (Unit {0}) × K
  unfolding checked
  set_values s init_values k =
      if ltb (length init_values) s.count
      then (err einval, k)
      else checked (semctl_setall s.handle init_values k)

  -- The result is read from `arg.val`, which the call does not set: whatever it held.
  unfoldable pub get_value : ℤ → SemaphoreSet → ℕ → K → Result ℤ × K
  get_value arg_val s sem_index k =
      let (ret, k') = semctl_getval s.handle sem_index k in
      if operation_failed ret then (err (errno k'), k') else (ok arg_val, k')

  unfoldable pub get_values : SemaphoreSet → List ℕ → K → Result (List ℕ) × K
  get_values s current_values k =
      let (ret, values, k') = semctl_getall s.handle k in
      if ltb (length current_values) s.count
      then (err einval, k)
      else if operation_failed ret
      then (err (errno k'), k')
      else (ok values, k')

  unfoldable pub change_values : SemaphoreSet → List Sembuf → K → Option (Result (Unit {0}) × K)
  unfolding checked
  change_values s ops k = elim (semop s.handle ops k) [
    | none ↦ none
    | some returned ↦ some (checked returned)
  ]

  unfoldable pub change_value : SemaphoreSet → ℕ → ℤ → K → Option (Result (Unit {0}) × K)
  unfolding checked
  change_value s sem_index change k =
      let args : Sembuf = record {
        sem_num = sem_index;
        sem_op = to_short change;
        nowait = false;
      } in
      if ltb sem_index s.count
      then elim (semop s.handle (args ∷ []) k) [
        | none ↦ none
        | some returned ↦ some (checked returned)
      ]
      else none

  unfoldable pub increase_value : SemaphoreSet → ℕ → ℤ → K → Option (Result (Unit {0}) × K)
  increase_value s sem_index increment k =
      if is_positive increment then change_value s sem_index increment k else none

  unfoldable pub decrease_value : SemaphoreSet → ℕ → ℤ → K → Option (Result (Unit {0}) × K)
  decrease_value s sem_index decrement k =
      if is_negative decrement then change_value s sem_index decrement k else none

  unfoldable pub try_changing_value : SemaphoreSet → ℕ → ℤ → K → Option (Result (Unit {0}) × K)
  unfolding checked
  try_changing_value s sem_index change k =
      let args : Sembuf = record { sem_num = sem_index; sem_op = to_short change; nowait = true } in
      if ltb sem_index s.count
      then elim (semop s.handle (args ∷ []) k) [
        | none ↦ none
        | some returned ↦ some (checked returned)
      ]
      else none

  unfoldable pub try_increasing_value : SemaphoreSet → ℕ → ℤ → K → Option (Result (Unit {0}) × K)
  try_increasing_value s sem_index increment k =
      if is_positive increment then try_changing_value s sem_index increment k else none

  unfoldable pub try_decreasing_value : SemaphoreSet → ℕ → ℤ → K → Option (Result (Unit {0}) × K)
  try_decreasing_value s sem_index decrement k =
      if is_negative decrement then try_changing_value s sem_index decrement k else none

  unfoldable pub remove : SemaphoreSet → K → Result (Unit {0}) × K
  unfolding checked
  remove s k = checked (semctl_rmid s.handle k)
