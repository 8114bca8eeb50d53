-- ===== src/LockFree/GroupNotifier.antt =====
-- libs/lock_free/include/lock_free/group_notifier.hpp. A system is the notifier with the threads that
-- call `wait_for_one`, each at a point of its loop; an event is a step of one of them between two
-- accesses of the counter, or a notification by another thread. A sequence of events is a schedule.
-- The counter, an atomic of 32 bits with a sign, is its bits as a number below 2 ^ 32, and wraps.
-- compare_exchange_weak does not fail without a cause here.
use communicate_between_proc.Prelude.{
  ℕ, zero, suc, ◌+◌, ◌≡◌, refl, Bool, ◌&&◌, ◌||◌, none, some, List, [], ◌∷◌, get_elem?, set, ◌==◌,
  leb, if◌then◌else◌, arith, Option-cases, inl, inr, ◌%◌,
}

-- An int32_t, by its bits.
abbrev pub wrap : ℕ → ℕ
wrap n = n % 4294967296

abbrev pub not_positive : ℕ → Bool
not_positive n = n == 0 || leb 2147483648 n

-- Before the load; with `expected`, before `wait` and behind it; and returned.
pub data Thread : Type 0 where
  start : Thread
  loaded : ℕ → Thread
  ready : ℕ → Thread
  returned : Thread

-- A step of `wait_for_one`: the counter and the thread afterwards. `wait(0)` blocks while the counter
-- is 0.
unfoldable pub wait_for_one : ℕ → Thread → ℕ × Thread
wait_for_one counter start = (counter, loaded counter)
wait_for_one counter (loaded expected) =
    if not_positive expected && counter == 0
    then (counter, loaded expected)
    else (counter, ready expected)
wait_for_one counter (ready expected) =
    if counter == expected then (wrap (counter + 4294967295), returned) else (counter, start)
wait_for_one counter returned = (counter, returned)

pub record System : Type 0 where
  pub counter : ℕ
  pub group_size : ℕ
  pub threads : List Thread
  pub notified : ℕ

unfoldable pub notify_all : System → System
notify_all s = record s {
  counter = wrap (s.counter + s.group_size);
  notified = s.notified + s.group_size;
}

unfoldable pub notify_one : System → System
notify_one s = record s { counter = wrap (s.counter + 1); notified = s.notified + 1 }

pub data Event : Type 0 where
  thread : ℕ → Event
  all one : Event

unfoldable pub step : Event → System → System
unfolding wait_for_one notify_all notify_one
step (thread i) s = elim (get_elem? s.threads i) [
  | none ↦ s
  | some t ↦
      let (counter, t') = wait_for_one s.counter t in
      record s { counter = counter; threads = set s.threads i t' }
]
step all s = notify_all s
step one s = notify_one s

unfoldable pub steps : List Event → System → System
steps [] s = s
steps (e ∷ es) s = steps es (step e s)

abbrev is_returned : Thread → ℕ
is_returned returned = 1
is_returned _ = 0

-- How many threads have returned.
abbrev pub return_count : List Thread → ℕ
return_count [] = 0
return_count (t ∷ ts) = is_returned t + return_count ts

return_count-set :
    (ts : List Thread) (i : ℕ) (t t' : Thread)
    → get_elem? ts i ≡ some t
    → return_count (set ts i t') + is_returned t ≡ return_count ts + is_returned t'
return_count-set [] i t t' h = ground arith
return_count-set (x ∷ ts) zero t t' h = ground arith
return_count-set (x ∷ ts) (suc i) t t' h = omega (arith, return_count-set ts i t t' h)

wait_for_one_lem :
    (c : ℕ) (t : Thread)
    → let (c', t') = wait_for_one c t in wrap (c' + is_returned t') ≡ wrap (c + is_returned t)
unfolding wait_for_one
wait_for_one_lem c start = refl
wait_for_one_lem c (loaded e) = ground arith
wait_for_one_lem c (ready e) = ground arith
wait_for_one_lem c returned = refl

-- The counter, less what was notified, plus the threads that returned, stays the same.
abbrev Balanced : System → System → Type 0
Balanced s s' =
    wrap (s'.counter + return_count s'.threads + s.notified)
    ≡ wrap (s.counter + return_count s.threads + s'.notified)

step-Balanced : (e : Event) (s : System) → Balanced s (step e s)
unfolding step
step-Balanced (thread i) s = elim (Option-cases (get_elem? s.threads i)) [
  | inl e ↦ rw (e, step) refl
  | inr (t, e) ↦
      rw (e, step)
        (omega (
          arith,
          wait_for_one_lem s.counter t,
          return_count-set s.threads i t (wait_for_one s.counter t).1 e,
        ))
]
step-Balanced all s = omega arith
step-Balanced one s = omega arith

-- Whatever the schedule, the counter grows by the notifications and falls by the threads that return,
-- modulo 2 ^ 32: counter + returned - notified, written without subtraction, is the same before and
-- behind it.
pub steps-balance :
    (es : List Event) (s : System)
    → let s' = steps es s in
      (s'.counter + return_count s'.threads + s.notified) % 4294967296
      ≡ (s.counter + return_count s.threads + s'.notified) % 4294967296
unfolding steps
steps-balance [] s = refl
steps-balance (e ∷ es) s = omega (arith, step-Balanced e s, steps-balance es (step e s))
