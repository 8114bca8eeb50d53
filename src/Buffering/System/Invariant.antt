-- ===== src/Buffering/System/Invariant.antt =====
-- What holds of the processes together under every schedule: the counters and the semaphores account
-- for every message and for every start of a producer.
use communicate_between_proc.Prelude.{
  ℕ, ◌+◌, ◌≤◌, ◌<◌, ◌≡◌, refl, some, List, [], ◌∷◌, get_elem?, set, arith, if◌then◌else◌,
  Option-cases, inl, inr, sum_by, sum_by-set, le-sum_by, sum_by-map_zero, ◌∙◌,
}
use communicate_between_proc.LockFree.RingBuffer.{RingBuffer}
use communicate_between_proc.Unix.Kernel.{Kernel}
use communicate_between_proc.Buffering.ProcessInfo.{ProcessInfo}
use communicate_between_proc.Buffering.Process.{Message, SharedData, Config, Pc, setup, advance}
use communicate_between_proc.Buffering.System.{
  Process, System, Event, step_of, children_ended, start, end_wait, step, steps,
}
use communicate_between_proc.Buffering.System.Weights.{
  checked, in_pop, unannounced, is_stopping, in_production, waited_for, starts, misplaced, written,
  producers, Local, stop_tokens_zero, advance-Local, end_wait-Local,
}

module _ {K : Type 0} (kernel : Kernel K) (c : Config) where
  -- A count over the processes of a weight at their points.
  abbrev pub total : (Pc → ℕ) → List Process → ℕ
  total weight ps = sum_by (λ p. weight p.pc) ps

  abbrev pub total_starts : List Process → ℕ
  total_starts ps = sum_by (λ p. starts c.producer_count p.info p.pc) ps

  abbrev pub total_misplaced : List Process → ℕ
  total_misplaced ps = sum_by (λ p. misplaced p.info p.pc) ps

  pub record Invariant (s : System K) : Type 0 where
    pub announced :
        (if s.shared.done_flag
          then 0
          else (written kernel c s.kernel_state
              + s.shared.consumed_message_count
              + total checked s.processes
              + total in_pop s.processes
              + total unannounced s.processes))
        ≤ s.shared.produced_message_count
    pub popped :
        s.shared.consumed_message_count + total in_pop s.processes ≤ s.shared.produced_message_count
    pub quiet : (if s.shared.done_flag then 0 else total is_stopping s.processes) ≡ 0
    pub production :
        c.producer_count < 32768
        → producers kernel c s.kernel_state
            + total in_production s.processes
            + total (waited_for c.producer_count) s.processes
          ≤ total_starts s.processes
    pub placed : total_misplaced s.processes ≡ 0

  -- One process moves.
  moved-Invariant :
      (s : System K) (i : ℕ) (p : Process) (pc' : Pc) (k' : K) (shared' : SharedData)
      → get_elem? s.processes i ≡ some p
      → Local kernel c p.info p.pc s.kernel_state s.shared pc' k' shared'
      → Invariant s
      → Invariant (record {
        kernel_state = k';
        shared = shared';
        processes = set s.processes i (record p { pc = pc' });
      })
  moved-Invariant s i p pc' k' shared' e l v =
      let p' : Process = record p { pc = pc' } in
      let sum = λ (w : Process → ℕ). sum_by-set w s.processes i p p' e in
      let checked_sum = sum (λ q. checked q.pc) in
      let pop_sum = sum (λ q. in_pop q.pc) in
      let announce_sum = sum (λ q. unannounced q.pc) in
      let stop_sum = sum (λ q. is_stopping q.pc) in
      let produce_sum = sum (λ q. in_production q.pc) in
      let wait_sum = sum (λ q. waited_for c.producer_count q.pc) in
      let start_sum = sum (λ q. starts c.producer_count q.info q.pc) in
      let place_sum = sum (λ q. misplaced q.info q.pc) in
      let checked_le = le-sum_by (λ q. checked q.pc) s.processes i p e in
      let stop_le = le-sum_by (λ q. is_stopping q.pc) s.processes i p e in
      record {
        announced = ground (
          arith,
          l.announced,
          v.announced,
          l.flagged,
          v.quiet,
          stop_tokens_zero c.consumer_count p.pc,
        );
        popped = ground (arith, l.popped, v.popped, v.announced, l.flagged, v.quiet);
        quiet = ground (arith, l.flagged, l.stopped, v.quiet);
        production = λ small. omega (arith, l.production small, v.production small);
        placed = omega (arith, l.placed, v.placed);
      }

  misplaced_zero :
      (s : System K) (i : ℕ) (p : Process)
      → get_elem? s.processes i ≡ some p
      → Invariant s
      → misplaced p.info p.pc ≡ 0
  misplaced_zero s i p e v =
      omega (arith, le-sum_by (λ q. misplaced q.info q.pc) s.processes i p e, v.placed)

  step-Invariant : (e : Event) (s : System K) → Invariant s → Invariant (step kernel c e s)
  unfolding step
  step-Invariant (step_of i) s v = elim (Option-cases (get_elem? s.processes i)) [
    | inl e ↦ rw (e, step) v
    | inr (p, e) ↦
        let moved = advance kernel c p.info p.pc s.kernel_state s.shared in
        rw (e, step)
          (moved-Invariant s i p moved.0 moved.1 moved.2 e
            (advance-Local kernel c p.info p.pc s.kernel_state s.shared (misplaced_zero s i p e v))
            v)
  ]
  step-Invariant (children_ended i b) s v = elim (Option-cases (get_elem? s.processes i)) [
    | inl e ↦ rw (e, step) v
    | inr (p, e) ↦
        rw (e, step)
          (moved-Invariant s i p (end_wait b p.pc) s.kernel_state s.shared e
            (end_wait-Local kernel c p.info b p.pc s.kernel_state s.shared) v)
  ]

  pub start-Invariant :
      (k : K) (queue : RingBuffer Message) (infos : List ProcessInfo)
      → written kernel c k ≡ 0
      → producers kernel c k ≡ 0
      → Invariant (start k queue infos)
  unfolding start
  start-Invariant k queue infos w p =
      let started : ProcessInfo → Process = λ info. record { info = info; pc = setup info } in
      let zero_of = λ (weight : Process → ℕ). sum_by-map_zero weight started infos in
      let checked_sum = zero_of (λ q. checked q.pc) (λ info. ground arith) in
      let pop_sum = zero_of (λ q. in_pop q.pc) (λ info. ground arith) in
      let announce_sum = zero_of (λ q. unannounced q.pc) (λ info. ground arith) in
      let stop_sum = zero_of (λ q. is_stopping q.pc) (λ info. ground arith) in
      let produce_sum = zero_of (λ q. in_production q.pc) (λ info. ground arith) in
      let wait_sum = zero_of (λ q. waited_for c.producer_count q.pc) (λ info. ground arith) in
      let place_sum = zero_of (λ q. misplaced q.info q.pc) (λ info. ground arith) in
      record {
        announced = omega arith;
        popped = omega arith;
        quiet = stop_sum;
        production = λ small. omega arith;
        placed = place_sum;
      }

  pub steps-Invariant :
      (es : List Event) (s : System K) → Invariant s → Invariant (steps kernel c es s)
  unfolding steps
  steps-Invariant [] s v = v
  steps-Invariant (e ∷ es) s v = steps-Invariant es (step kernel c e s) (step-Invariant e s v)

  -- What is counted of the processes' infos stays as it is.
  step-infos :
      (w : ProcessInfo → ℕ) (e : Event) (s : System K)
      → sum_by (λ p. w p.info) (step kernel c e s).processes ≡ sum_by (λ p. w p.info) s.processes
  unfolding step
  step-infos w (step_of i) s = elim (Option-cases (get_elem? s.processes i)) [
    | inl e ↦ rw (e, step) refl
    | inr (p, e) ↦
        rw (e, step)
          (omega (
            arith,
            sum_by-set (λ q. w q.info) s.processes i p
                (record p { pc = (advance kernel c p.info p.pc s.kernel_state s.shared).0 }) e,
          ))
  ]
  step-infos w (children_ended i b) s = elim (Option-cases (get_elem? s.processes i)) [
    | inl e ↦ rw (e, step) refl
    | inr (p, e) ↦
        rw (e, step)
          (omega (
            arith,
            sum_by-set (λ q. w q.info) s.processes i p (record p { pc = end_wait b p.pc }) e,
          ))
  ]

  pub steps-infos :
      (w : ProcessInfo → ℕ) (es : List Event) (s : System K)
      → sum_by (λ p. w p.info) (steps kernel c es s).processes ≡ sum_by (λ p. w p.info) s.processes
  unfolding steps
  steps-infos w [] s = refl
  steps-infos w (e ∷ es) s = steps-infos w es (step kernel c e s) ∙ step-infos w e s
