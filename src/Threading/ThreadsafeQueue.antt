-- ===== src/Threading/ThreadsafeQueue.antt =====
-- apps/threading/include/threadsafe_queue.hpp, between threads. A method holds the mutex from its start to its end but
-- for the wait of wait_and_pop, which gives it up while the thread sleeps: a method is one step, and so is what
-- a woken thread does with the mutex.
use communicate_between_proc.Prelude.{
  ℕ, replicate, Bool, true, false, Option, none, some, List, [], ◌∷◌, ◌++◌, get_elem?, set,
}

-- A thread outside of a wait, asleep in it, or woken but without the mutex.
pub data Pc : Type 0 where
  outside sleeping woken : Pc

-- `pushed` and `popped` are the values of all calls so far.
pub record System (A : Type 0) : Type 0 where
  pub queue : List A
  pub threads : List Pc
  pub pushed : List A
  pub popped : List A

pub data Event (A : Type 0) : Type 0 where
  push_call : ℕ → A → ℕ → Event A
  try_pop_call wait_and_pop_call resume wake : ℕ → Event A

unfoldable pub wake_first : List Pc → List Pc
wake_first [] = []
wake_first (sleeping ∷ pcs) = woken ∷ pcs
wake_first (outside ∷ pcs) = outside ∷ wake_first pcs
wake_first (woken ∷ pcs) = woken ∷ wake_first pcs

-- data_pushed.notify_one(): it wakes one of the threads that sleep, the one at `choice` where it does.
unfoldable pub notify_one : ℕ → List Pc → List Pc
unfolding wake_first
notify_one choice pcs = elim (get_elem? pcs choice) [
  | some sleeping ↦ set pcs choice woken
  | _ ↦ wake_first pcs
]

module _ {A : Type 0} where
  unfoldable pub push : A → ℕ → System A → System A
  unfolding notify_one
  push value choice s = record s {
    queue = s.queue ++ value ∷ [];
    threads = notify_one choice s.threads;
    pushed = s.pushed ++ value ∷ [];
  }

  -- try_pop(T &); the version that returns a pointer cannot be instantiated, nor can that of wait_and_pop.
  unfoldable pub try_pop : System A → Option A × System A
  try_pop s = elim s.queue [
    | [] ↦ (none, s)
    | value ∷ rest ↦ (some value, record s { queue = rest; popped = s.popped ++ value ∷ [] })
  ]

  -- wait_and_pop(T &), with the mutex: the thread sleeps where the queue is empty.
  unfoldable pub wait_and_pop : ℕ → System A → System A
  wait_and_pop i s = elim s.queue [
    | [] ↦ record s { threads = set s.threads i sleeping }
    | value ∷ rest ↦ record s {
      queue = rest;
      popped = s.popped ++ value ∷ [];
      threads = set s.threads i outside;
    }
  ]

  unfoldable pub empty : System A → Bool
  empty s = elim s.queue [ [] ↦ true | value ∷ rest ↦ false ]

  -- A call by a thread that is in none; `wake` is a wake-up that no one asked for.
  unfoldable pub step : Event A → System A → System A
  unfolding push try_pop wait_and_pop
  step (push_call i value choice) s = elim (get_elem? s.threads i) [
    | some outside ↦ push value choice s
    | _ ↦ s
  ]
  step (try_pop_call i) s = elim (get_elem? s.threads i) [ some outside ↦ (try_pop s).1 | _ ↦ s ]
  step (wait_and_pop_call i) s = elim (get_elem? s.threads i) [
    | some outside ↦ wait_and_pop i s
    | _ ↦ s
  ]
  step (resume i) s = elim (get_elem? s.threads i) [ some woken ↦ wait_and_pop i s | _ ↦ s ]
  step (wake i) s = elim (get_elem? s.threads i) [
    | some sleeping ↦ record s { threads = set s.threads i woken }
    | _ ↦ s
  ]

  unfoldable pub steps : List (Event A) → System A → System A
  steps [] s = s
  steps (e ∷ es) s = steps es (step e s)

  -- The constructor, between threads that are in no call.
  unfoldable pub start : ℕ → System A
  start thread_count = record {
    queue = [];
    threads = replicate thread_count outside;
    pushed = [];
    popped = [];
  }
