-- ===== src/Unix/Kernel.antt =====
-- What libs/unix asks of the operating system for semaphore sets. The system calls are a parameter,
-- over a state `K` of the system; `none` is a call that does not return. The laws are those of the
-- manual of semop: a call that succeeds on one operation adds it to the value, an operation of 0 has
-- waited for the value 0, and a call that fails changes no value.
use communicate_between_proc.Prelude.{
  ℕ, zero, ◌+◌, ◌≡◌, ◌≢◌, Bool, true, false, Option, some, List, [], ◌∷◌, ℤ, pos, negsuc, pos_part,
  neg_part,
}

-- unix::error_code, in std::expected.
pub data Result (A : Type 0) : Type 0 where
  ok : A → Result A
  err : ℕ → Result A

pub record Sembuf : Type 0 where
  pub sem_num : ℕ
  pub sem_op : ℤ
  pub nowait : Bool

-- utility.hpp
unfoldable pub operation_successful : ℤ → Bool
operation_successful (pos zero) = true
operation_successful _ = false

unfoldable pub operation_failed : ℤ → Bool
operation_failed (negsuc zero) = true
operation_failed _ = false

pub record Kernel (K : Type 0) : Type 0 where
  pub errno : K → ℕ
  pub einval : ℕ
  pub ipc_private : ℤ
  pub ipc_creat : ℕ
  pub ipc_excl : ℕ
  pub semget : ℤ → ℕ → ℕ → K → ℤ × K
  pub semctl_stat : ℤ → K → ℤ × ℕ × K
  pub semctl_setval : ℤ → ℕ → ℤ → K → ℤ × K
  pub semctl_setall : ℤ → List ℕ → K → ℤ × K
  pub semctl_getval : ℤ → ℕ → K → ℤ × K
  pub semctl_getall : ℤ → K → ℤ × List ℕ × K
  pub semctl_rmid : ℤ → K → ℤ × K
  pub semop : ℤ → List Sembuf → K → Option (ℤ × K)
  -- The value of a semaphore of a set.
  pub value : ℤ → ℕ → K → ℕ
  pub semop_changes :
      (handle : ℤ) (op : Sembuf) (k k' : K) (ret : ℤ)
      → semop handle (op ∷ []) k ≡ some (ret, k')
      → operation_failed ret ≡ false
      → value handle op.sem_num k' + neg_part op.sem_op
        ≡ value handle op.sem_num k + pos_part op.sem_op
  pub semop_zero :
      (handle : ℤ) (i : ℕ) (w : Bool) (k k' : K) (ret : ℤ)
      → semop handle (record { sem_num = i; sem_op = pos 0; nowait = w } ∷ []) k ≡ some (ret, k')
      → operation_failed ret ≡ false
      → value handle i k ≡ 0
  pub semop_others :
      (handle : ℤ) (op : Sembuf) (k k' : K) (ret : ℤ) (j : ℕ)
      → semop handle (op ∷ []) k ≡ some (ret, k')
      → j ≢ op.sem_num
      → value handle j k' ≡ value handle j k
  pub semop_fails :
      (handle : ℤ) (op : Sembuf) (k k' : K) (ret : ℤ) (j : ℕ)
      → semop handle (op ∷ []) k ≡ some (ret, k')
      → operation_failed ret ≡ true
      → value handle j k' ≡ value handle j k
