-- ===== src/LockFree/SpinLock.antt =====
-- libs/lock_free/include/lock_free/spin_lock.hpp, with the threads that use it: each call of `lock` is
-- cut into the rounds of its loop, and a schedule says which thread steps next. A thread calls `unlock`
-- only where it holds the lock.
use communicate_between_proc.Prelude.{
  ℕ, zero, suc, ◌+◌, ◌≡◌, Bool, true, false, none, some, List, [], ◌∷◌, get_elem?, set, arith,
  Option-cases, inl, inr,
}

-- In the loop of `lock`, between `lock` and `unlock`, and elsewhere.
pub data User : Type 0 where
  outside locking holding : User

pub record SpinLock : Type 0 where
  pub flag : Bool
  pub users : List User

-- A round of the loop of `lock`: test_and_set, which returns what the flag was.
unfoldable pub lock : Bool → Bool × User
lock flag = elim flag [ true ↦ (true, locking) | false ↦ (true, holding) ]

unfoldable pub unlock : Bool × User
unlock = (false, outside)

-- The next step of a user, with the flag.
abbrev pub use_lock : Bool → User → Bool × User
unfolding lock unlock
use_lock flag outside = (flag, locking)
use_lock flag locking = lock flag
use_lock flag holding = unlock

unfoldable pub turn : ℕ → SpinLock → SpinLock
turn i s = elim (get_elem? s.users i) [
  | none ↦ s
  | some u ↦ record { flag = (use_lock s.flag u).0; users = set s.users i (use_lock s.flag u).1 }
]

unfoldable pub turns : List ℕ → SpinLock → SpinLock
turns [] s = s
turns (i ∷ is) s = turns is (turn i s)

abbrev holds : User → ℕ
holds holding = 1
holds _ = 0

abbrev pub holders : List User → ℕ
holders [] = 0
holders (u ∷ us) = holds u + holders us

-- The flag is set while a thread holds the lock, and one thread at most does.
abbrev pub Exclusive : SpinLock → Type 0
Exclusive s = holders s.users ≡ elim s.flag as (λ _. ℕ) [ true ↦ 1 | false ↦ 0 ]

holders-set :
    (us : List User) (i : ℕ) (u u' : User)
    → get_elem? us i ≡ some u
    → holders (set us i u') + holds u ≡ holders us + holds u'
holders-set [] i u u' h = ground arith
holders-set (x ∷ us) zero u u' h = ground arith
holders-set (x ∷ us) (suc i) u u' h = omega (arith, holders-set us i u u' h)

turn_of_user :
    (flag : Bool) (u : User) (n n' : ℕ)
    → n' + holds u ≡ n + holds (use_lock flag u).1
    → n ≡ elim flag as (λ _. ℕ) [ true ↦ 1 | false ↦ 0 ]
    → n' ≡ elim (use_lock flag u).0 as (λ _. ℕ) [ true ↦ 1 | false ↦ 0 ]
unfolding lock unlock
turn_of_user true outside n n' h e = omega arith
turn_of_user false outside n n' h e = omega arith
turn_of_user true locking n n' h e = omega arith
turn_of_user false locking n n' h e = omega arith
turn_of_user true holding n n' h e = omega arith
turn_of_user false holding n n' h e = omega arith

turn-Exclusive : (i : ℕ) (s : SpinLock) → Exclusive s → Exclusive (turn i s)
unfolding turn
turn-Exclusive i s h = elim (Option-cases (get_elem? s.users i)) [
  | inl e ↦ rw (e, turn) h
  | inr (u, e) ↦
      rw (e, turn)
        (turn_of_user s.flag u (holders s.users) _ (holders-set s.users i u (use_lock s.flag u).1 e)
          h)
]

-- Under every schedule one thread at most holds the lock, and the flag is set exactly while one does,
-- if that is so at the start.
pub turns-Exclusive : (is : List ℕ) (s : SpinLock) → Exclusive s → Exclusive (turns is s)
unfolding turns
turns-Exclusive [] s h = h
turns-Exclusive (i ∷ is) s h = turns-Exclusive is (turn i s) (turn-Exclusive i s h)
