-- ===== src/Threading/Tests.antt =====
-- The results on apps/threading at concrete inputs.
use communicate_between_proc.Prelude.{
  ℕ, List, ◌+◌, replicate, some, get_elem?, set, length, ◌<◌, ◌≤◌, ◌++◌, ◌≡◌, refl, [], ◌∷◌, false,
  true, arith,
}
use communicate_between_proc.Threading.ParallelAccumulate.{
  thread_count, accumulate, parallel_accumulate,
}
use communicate_between_proc.Threading.ThreadsafeQueue.{
  Event, wait_and_pop_call, push_call, resume, woken, outside, steps, step, start, wait_and_pop,
  push, notify_one,
}
use communicate_between_proc.Threading.Wakeups.{sleepers, risers, values_in_order, no_lost_wakeup}
use communicate_between_proc.Threading.Sums.{parallel_accumulate-accumulate}
use communicate_between_proc.Threading.HierarchicalMutex.{
  HierarchicalMutex, violated, done, blocked, lock, unlock, violates, update_hierarchy_value,
  lock_all, Descending, lock_all-Descending, unlock-lock,
}

abbrev high : HierarchicalMutex
high = record { internal_mutex = false; hierarchy_value = 10; previous_hierarchy_value = 0 }

abbrev low : HierarchicalMutex
low = record { internal_mutex = false; hierarchy_value = 5; previous_hierarchy_value = 0 }

lock_all-Descending_example : Descending 20 (high ∷ low ∷ [])
unfolding lock_all lock violates update_hierarchy_value
lock_all-Descending_example = lock_all-Descending (high ∷ low ∷ []) 20 refl

unlock-lock_example :
    (m' : HierarchicalMutex) × (lock 20 high ≡ done tt 10 m')
    × (m'.internal_mutex ≡ true)
    × (lock 10 m' ≡ violated)
    × ((other : ℕ) → 10 < other → lock other m' ≡ blocked)
    × (unlock 10 m' ≡ done tt 20 (record m' { internal_mutex = false }))
unlock-lock_example = unlock-lock 20 high (omega arith) refl

abbrev numbers : List ℕ
numbers = replicate 60 3

parallel_accumulate-accumulate_example :
    parallel_accumulate (λ x y. x + y) 0 0 (1 ∷ 0 ∷ []) numbers 5
    ≡ accumulate (λ x y. x + y) numbers 5
unfolding thread_count
parallel_accumulate-accumulate_example =
    parallel_accumulate-accumulate (λ x y. x + y) 0 (λ x y z. omega arith) (λ x. omega arith) 0
      (1 ∷ 0 ∷ []) numbers 5 (omega arith) (λ i h. ground (arith, h))

-- Two threads wait, a third pushes twice, and one of the two goes on.
abbrev rush : List (Event ℕ)
rush = wait_and_pop_call 0 ∷ wait_and_pop_call 1 ∷ push_call 2 7 1 ∷ push_call 2 8 0 ∷ resume 1 ∷ []

values_in_order_example :
    (steps rush (start 3)).popped ++ (steps rush (start 3)).queue ≡ (steps rush (start 3)).pushed
values_in_order_example = values_in_order 3 rush

no_lost_wakeup_example :
    let s = steps rush (start 3) in
    (0 < sleepers s.threads → length s.queue ≤ risers s.threads)
    × ((i : ℕ)
        → get_elem? s.threads i ≡ some woken
        → ((step (resume i) s).popped ≡ s.popped ++ 8 ∷ [])
          × ((step (resume i) s).threads ≡ set s.threads i outside))
unfolding steps step start wait_and_pop push notify_one
no_lost_wakeup_example = no_lost_wakeup 3 rush 8 [] refl
