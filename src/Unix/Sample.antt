-- ===== src/Unix/Sample.antt =====
-- A system whose state is the values of one semaphore set, as an instance of `Kernel`. A wait that
-- would block does not return, or fails with EAGAIN (11) where it is not to block.
use communicate_between_proc.Prelude.{
  ℕ, zero, suc, ◌+◌, ◌-◌, ◌≡◌, ◌≢◌, Bool, true, false, Option, none, some, List, [], ◌∷◌, ℤ, pos,
  negsuc, pos_part, neg_part, leb, ◌==◌, get_or, arith, if◌then◌else◌,
}
use communicate_between_proc.Unix.Kernel.{Kernel, Sembuf, operation_failed}

abbrev pub Values : Type 0
Values = ℕ → ℕ

abbrev put : ℕ → ℕ → Values → Values
put i v values = λ j. if j == i then v else values j

abbrev blocked : Bool → Values → Option (ℤ × Values)
blocked true k = some (negsuc 0, k)
blocked false k = none

abbrev operate : ℕ → ℤ → Bool → Values → Option (ℤ × Values)
operate i (pos zero) nowait k = if k i == 0 then some (pos 0, k) else blocked nowait k
operate i (pos (suc n)) nowait k = some (pos 0, put i (k i + suc n) k)
operate i (negsuc n) nowait k =
    if leb (suc n) (k i) then some (pos 0, put i (k i - suc n) k) else blocked nowait k

abbrev semop : List Sembuf → Values → Option (ℤ × Values)
semop (op ∷ []) k = operate op.sem_num op.sem_op op.nowait k
semop ops k = some (negsuc 0, k)

pub operate_changes :
    (i : ℕ) (n : ℤ) (w : Bool) (k k' : Values) (ret : ℤ)
    → operate i n w k ≡ some (ret, k')
    → operation_failed ret ≡ false
    → k' i + neg_part n ≡ k i + pos_part n
unfolding operation_failed
operate_changes i (pos zero) true k k' ret h e = ground arith
operate_changes i (pos zero) false k k' ret h e = ground arith
operate_changes i (pos (suc n)) w k k' ret h e = ground arith
operate_changes i (negsuc n) true k k' ret h e = ground arith
operate_changes i (negsuc n) false k k' ret h e = ground arith

pub operate_others :
    (i : ℕ) (n : ℤ) (w : Bool) (k k' : Values) (ret : ℤ) (j : ℕ)
    → operate i n w k ≡ some (ret, k')
    → j ≢ i
    → k' j ≡ k j
unfolding operation_failed
operate_others i (pos zero) true k k' ret j h e = ground arith
operate_others i (pos zero) false k k' ret j h e = ground arith
operate_others i (pos (suc n)) w k k' ret j h e = ground arith
operate_others i (negsuc n) true k k' ret j h e = ground arith
operate_others i (negsuc n) false k k' ret j h e = ground arith

pub operate_fails :
    (i : ℕ) (n : ℤ) (w : Bool) (k k' : Values) (ret : ℤ) (j : ℕ)
    → operate i n w k ≡ some (ret, k')
    → operation_failed ret ≡ true
    → k' j ≡ k j
unfolding operation_failed
operate_fails i (pos zero) true k k' ret j h e = ground arith
operate_fails i (pos zero) false k k' ret j h e = ground arith
operate_fails i (pos (suc n)) w k k' ret j h e = ground arith
operate_fails i (negsuc n) true k k' ret j h e = ground arith
operate_fails i (negsuc n) false k k' ret j h e = ground arith

pub operate-zero :
    (i : ℕ) (w : Bool) (k k' : Values) (ret : ℤ)
    → operate i (pos zero) w k ≡ some (ret, k')
    → operation_failed ret ≡ false
    → k i ≡ 0
unfolding operation_failed
operate-zero i true k k' ret h e = ground arith
operate-zero i false k k' ret h e = ground arith

abbrev pub sample : Kernel Values
sample = record {
  errno = λ k. 11;
  einval = 22;
  ipc_private = pos 0;
  ipc_creat = 512;
  ipc_excl = 1024;
  semget = λ key count flags k. (pos 0, k);
  semctl_stat = λ handle k. (pos 0, 4, k);
  semctl_setval = λ handle i v k. (pos 0, put i (pos_part v) k);
  semctl_setall = λ handle values k. (pos 0, λ i. get_or values i 0);
  semctl_getval = λ handle i k. (pos (k i), k);
  semctl_getall = λ handle k. (pos 0, k 0 ∷ k 1 ∷ k 2 ∷ k 3 ∷ [], k);
  semctl_rmid = λ handle k. (pos 0, k);
  semop = λ handle ops k. semop ops k;
  value = λ handle i k. k i;
  semop_changes =
      λ handle op k k' ret h e. operate_changes op.sem_num op.sem_op op.nowait k k' ret h e;
  semop_zero = λ handle i w k k' ret h e. operate-zero i w k k' ret h e;
  semop_others =
      λ handle op k k' ret j h e. operate_others op.sem_num op.sem_op op.nowait k k' ret j h e;
  semop_fails =
      λ handle op k k' ret j h e. operate_fails op.sem_num op.sem_op op.nowait k k' ret j h e;
}
