-- ===== src/Threading/Wakeups.antt =====
-- The order of the values of apps/threading/include/threadsafe_queue.hpp, and the threads that wait for them.
use communicate_between_proc.Prelude.{
  ℕ, zero, suc, ◌+◌, ◌≤◌, ◌<◌, ◌≡◌, refl, sym, ap, ◌∙◌, some, List, [], ◌∷◌, ◌++◌, append_assoc,
  length, length-append, get_elem?, set, replicate, ◌⊎◌, inl, inr, Option-cases, sum_by, sum_by-set,
  arith,
}
use communicate_between_proc.Threading.ThreadsafeQueue.{
  Pc, outside, sleeping, woken, System, Event, push_call, try_pop_call, wait_and_pop_call, resume,
  wake, wake_first, notify_one, push, try_pop, wait_and_pop, step, steps, start,
}

abbrev pub asleep : Pc → ℕ
asleep sleeping = 1
asleep _ = 0

abbrev pub awake : Pc → ℕ
awake woken = 1
awake _ = 0

abbrev pub sleepers : List Pc → ℕ
sleepers pcs = sum_by asleep pcs

abbrev pub risers : List Pc → ℕ
risers pcs = sum_by awake pcs

-- One sleeper is woken, where there is one.
abbrev Woken : List Pc → List Pc → Type 0
Woken pcs pcs' =
    ((sleepers pcs ≡ 0) × (sleepers pcs' ≡ 0))
    ⊎ ((sleepers pcs' + 1 ≡ sleepers pcs) × (risers pcs' ≡ risers pcs + 1))

wake_first-Woken : (pcs : List Pc) → Woken pcs (wake_first pcs)
unfolding wake_first
wake_first-Woken [] = inl (refl, refl)
wake_first-Woken (sleeping ∷ pcs) = inr (omega arith, omega arith)
wake_first-Woken (outside ∷ pcs) = elim (wake_first-Woken pcs) [
  | inl (a, b) ↦ inl (omega (arith, a), omega (arith, b))
  | inr (a, b) ↦ inr (omega (arith, a), omega (arith, b))
]
wake_first-Woken (woken ∷ pcs) = elim (wake_first-Woken pcs) [
  | inl (a, b) ↦ inl (omega (arith, a), omega (arith, b))
  | inr (a, b) ↦ inr (omega (arith, a), omega (arith, b))
]

notify_one-Woken : (choice : ℕ) (pcs : List Pc) → Woken pcs (notify_one choice pcs)
unfolding notify_one
notify_one-Woken choice pcs = elim (Option-cases (get_elem? pcs choice)) [
  | inl e ↦ rw (notify_one, e) (wake_first-Woken pcs)
  | inr (outside, e) ↦ rw (notify_one, e) (wake_first-Woken pcs)
  | inr (woken, e) ↦ rw (notify_one, e) (wake_first-Woken pcs)
  | inr (sleeping, e) ↦
      rw (notify_one, e)
        (inr (
          omega (arith, sum_by-set asleep pcs choice sleeping woken e),
          omega (arith, sum_by-set awake pcs choice sleeping woken e),
        ))
]

sleepers-replicate : (n : ℕ) → sleepers (replicate n outside) ≡ 0
sleepers-replicate zero = refl
sleepers-replicate (suc n) = omega (arith, sleepers-replicate n)

module _ {A : Type 0} where
  record Invariant (s : System A) : Type 0 where
    fifo : s.popped ++ s.queue ≡ s.pushed
    enough : (sleepers s.threads ≡ 0) ⊎ (length s.queue ≤ risers s.threads)

  push-Invariant :
      (value : A) (choice : ℕ) (s : System A) → Invariant s → Invariant (push value choice s)
  unfolding push
  push-Invariant value choice s v = record {
    fifo = sym (append_assoc s.popped s.queue (value ∷ [])) ∙ ap (λ l. l ++ value ∷ []) v.fifo;
    enough =
        ground
          (arith, v.enough, notify_one-Woken choice s.threads, length-append s.queue (value ∷ []));
  }

  List-cases : (xs : List A) → (xs ≡ []) ⊎ ((x : A) × (rest : List A) × (xs ≡ x ∷ rest))
  List-cases [] = inl refl
  List-cases (x ∷ rest) = inr (x, rest, refl)

  try_pop-Invariant : (s : System A) → Invariant s → Invariant (try_pop s).1
  unfolding try_pop
  try_pop-Invariant s v = elim (List-cases s.queue) [
    | inl e ↦ rw (try_pop, e) v
    | inr (value, rest, e) ↦
        rw (try_pop, e)
          (record {
            fifo =
                append_assoc s.popped (value ∷ []) rest ∙ ap (λ l. s.popped ++ l) (sym e) ∙ v.fifo;
            enough = ground (arith, v.enough, e);
          })
  ]

  -- By a thread that does not sleep.
  wait_and_pop-Invariant :
      (i : ℕ) (pc : Pc) (s : System A)
      → get_elem? s.threads i ≡ some pc
      → asleep pc ≡ 0
      → awake pc ≤ 1
      → Invariant s
      → Invariant (wait_and_pop i s)
  unfolding wait_and_pop
  wait_and_pop-Invariant i pc s g not_asleep one v = elim (List-cases s.queue) [
    | inl e ↦
        rw (wait_and_pop, e)
          (record { fifo = v.fifo; enough = inr (omega (arith, ap (λ l. length l) e)) })
    | inr (value, rest, e) ↦
        let still = sum_by-set asleep s.threads i pc outside g in
        let less = sum_by-set awake s.threads i pc outside g in
        let shorter = ap (λ l. length l) e in
        rw (wait_and_pop, e)
          (record {
            fifo =
                append_assoc s.popped (value ∷ []) rest ∙ ap (λ l. s.popped ++ l) (sym e) ∙ v.fifo;
            enough = ground (arith, v.enough, still, less, shorter, not_asleep, one);
          })
  ]

  wake-Invariant :
      (i : ℕ) (s : System A)
      → get_elem? s.threads i ≡ some sleeping
      → Invariant s
      → Invariant (record s { threads = set s.threads i woken })
  wake-Invariant i s g v = record {
    fifo = v.fifo;
    enough = ground (
      arith,
      v.enough,
      sum_by-set asleep s.threads i sleeping woken g,
      sum_by-set awake s.threads i sleeping woken g,
    );
  }

  step-Invariant : (e : Event A) (s : System A) → Invariant s → Invariant (step e s)
  unfolding step
  step-Invariant (push_call i value choice) s v = elim (Option-cases (get_elem? s.threads i)) [
    | inl e ↦ rw (step, e) v
    | inr (outside, e) ↦ rw (step, e) (push-Invariant value choice s v)
    | inr (sleeping, e) ↦ rw (step, e) v
    | inr (woken, e) ↦ rw (step, e) v
  ]
  step-Invariant (try_pop_call i) s v = elim (Option-cases (get_elem? s.threads i)) [
    | inl e ↦ rw (step, e) v
    | inr (outside, e) ↦ rw (step, e) (try_pop-Invariant s v)
    | inr (sleeping, e) ↦ rw (step, e) v
    | inr (woken, e) ↦ rw (step, e) v
  ]
  step-Invariant (wait_and_pop_call i) s v = elim (Option-cases (get_elem? s.threads i)) [
    | inl e ↦ rw (step, e) v
    | inr (outside, e) ↦ rw (step, e) (wait_and_pop-Invariant i outside s e refl (omega arith) v)
    | inr (sleeping, e) ↦ rw (step, e) v
    | inr (woken, e) ↦ rw (step, e) v
  ]
  step-Invariant (resume i) s v = elim (Option-cases (get_elem? s.threads i)) [
    | inl e ↦ rw (step, e) v
    | inr (outside, e) ↦ rw (step, e) v
    | inr (sleeping, e) ↦ rw (step, e) v
    | inr (woken, e) ↦ rw (step, e) (wait_and_pop-Invariant i woken s e refl (omega arith) v)
  ]
  step-Invariant (wake i) s v = elim (Option-cases (get_elem? s.threads i)) [
    | inl e ↦ rw (step, e) v
    | inr (outside, e) ↦ rw (step, e) v
    | inr (sleeping, e) ↦ rw (step, e) (wake-Invariant i s e v)
    | inr (woken, e) ↦ rw (step, e) v
  ]

  steps-Invariant : (es : List (Event A)) (s : System A) → Invariant s → Invariant (steps es s)
  unfolding steps
  steps-Invariant [] s v = v
  steps-Invariant (e ∷ es) s v = steps-Invariant es (step e s) (step-Invariant e s v)

  start-Invariant : (n : ℕ) → Invariant (start n)
  unfolding start
  start-Invariant n = record { fifo = refl; enough = inl (sleepers-replicate n) }

  -- Behind every schedule of calls and wake-ups, the values that the calls returned, and behind them those in the queue, are the
  -- values that were pushed, in their order.
  pub values_in_order :
      (n : ℕ) (es : List (Event A)) → let s = steps es (start n) in s.popped ++ s.queue ≡ s.pushed
  values_in_order n es = (steps-Invariant es (start n) (start-Invariant n)).fifo

  -- Behind every schedule, as long as a thread sleeps, there are at least as many woken threads as values in the queue, and any
  -- woken thread that then goes on returns from its wait with the first value of a queue that is not empty.
  pub no_lost_wakeup :
      (n : ℕ) (es : List (Event A)) (value : A) (rest : List A)
      → (steps es (start n)).queue ≡ value ∷ rest
      → let s = steps es (start n) in
        (0 < sleepers s.threads → length s.queue ≤ risers s.threads)
        × ((i : ℕ)
            → get_elem? s.threads i ≡ some woken
            → ((step (resume i) s).popped ≡ s.popped ++ value ∷ [])
              × ((step (resume i) s).threads ≡ set s.threads i outside))
  unfolding step wait_and_pop
  no_lost_wakeup n es value rest e =
      let s = steps es (start n) in
      let v : Invariant s = steps-Invariant es (start n) (start-Invariant n) in
      (
        λ some_sleep. ground (arith, v.enough, some_sleep),
        λ i g. (rw (step, g, wait_and_pop, e) refl, rw (step, g, wait_and_pop, e) refl),
      )
