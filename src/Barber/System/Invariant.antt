-- ===== src/Barber/System/Invariant.antt =====
-- What holds of the processes of apps/sleeping_barber_problem together, under every schedule.
use communicate_between_proc.Prelude.{
  ℕ, ◌+◌, ◌≤◌, ◌≡◌, some, List, [], ◌∷◌, get_elem?, set, arith, if◌then◌else◌, Option-cases, inl,
  inr, sum_by, sum_by-set, le-sum_by, sum_by-map_zero,
}
use communicate_between_proc.LockFree.RingBuffer.{RingBuffer}
use communicate_between_proc.LockFree.RingBuffer.Turns.{At}
use communicate_between_proc.Unix.Kernel.{Kernel}
use communicate_between_proc.Barber.Roles.{ProcessInfo}
use communicate_between_proc.Barber.Shop.{SharedData, Config, Pc, begin, advance}
use communicate_between_proc.Barber.System.{
  Process, System, Event, step_of, children_ended, start, end_wait, step, steps,
}
use communicate_between_proc.Barber.System.Weights.{
  in_chair, arriving, failure, busy, closing, extra_zero, waiting, Local, advance-Local,
  end_wait-Local,
}
use communicate_between_proc.Barber.System.Moves.{Moved, advance-Moved, end_wait-Moved}

-- A count over the processes of a weight at their points.
abbrev pub total : (Pc → ℕ) → List Process → ℕ
total weight ps = sum_by (λ p. weight p.pc) ps

module _ {K : Type 0} (kernel : Kernel K) (c : Config) (slot_count : ℕ) where
  pub record Invariant (s : System K) : Type 0 where
    pub pushes : ℕ
    pub pops : ℕ
    pub dropped : ℕ
    pub at : At slot_count pushes pops s.shared.customer_queue
    pub arrived :
        s.shared.next_customer_id
        ≡ s.shared.refused_customers + total arriving s.processes + pushes + dropped
    pub served : pops ≡ s.shared.served_customers + total in_chair s.processes
    pub failed : dropped ≤ total failure s.processes
    pub bounded :
        (if s.shared.shop_closed
          then 0
          else (waiting kernel c s.kernel_state
              + s.shared.served_customers
              + s.shared.refused_customers
              + total busy s.processes))
        ≤ s.shared.next_customer_id
    pub quiet : (if s.shared.shop_closed then 0 else total closing s.processes) ≡ 0

  -- One process moves.
  moved-Invariant :
      (s : System K) (i : ℕ) (p : Process) (pc' : Pc) (k' : K) (shared' : SharedData)
      (v : Invariant s)
      → get_elem? s.processes i ≡ some p
      → Local kernel c p.pc s.kernel_state s.shared pc' k' shared'
      → Moved slot_count v.pushes v.pops v.dropped p.pc s.shared pc' shared'
      → Invariant (record {
        kernel_state = k';
        shared = shared';
        processes = set s.processes i (record p { pc = pc' });
      })
  moved-Invariant s i p pc' k' shared' v e l m =
      let sum = λ (w : Process → ℕ). sum_by-set w s.processes i p (record p { pc = pc' }) e in
      let arriving_sum = sum (λ q. arriving q.pc) in
      let chair_sum = sum (λ q. in_chair q.pc) in
      let failure_sum = sum (λ q. failure q.pc) in
      let busy_sum = sum (λ q. busy q.pc) in
      let closing_sum = sum (λ q. closing q.pc) in
      let closing_le = le-sum_by (λ q. closing q.pc) s.processes i p e in
      record {
        pushes = m.pushes';
        pops = m.pops';
        dropped = m.dropped';
        at = m.at;
        arrived = omega (arith, m.arrived, v.arrived);
        served = omega (arith, m.served, v.served);
        failed = omega (arith, m.failed, v.failed);
        bounded =
            ground (arith, l.bounded, v.bounded, l.closed, v.quiet, extra_zero c.barber_count p.pc);
        quiet = ground (arith, l.closed, l.quiet, v.quiet);
      }

  step-Invariant : (e : Event) (s : System K) → Invariant s → Invariant (step kernel c e s)
  unfolding step
  step-Invariant (step_of i) s v = elim (Option-cases (get_elem? s.processes i)) [
    | inl e ↦ rw (e, step) v
    | inr (p, e) ↦
        let moved = advance kernel c p.info p.pc s.kernel_state s.shared in
        rw (e, step)
          (moved-Invariant s i p moved.0 moved.1 moved.2 v e
            (advance-Local kernel c p.info p.pc s.kernel_state s.shared)
            (advance-Moved slot_count kernel c v.pushes v.pops v.dropped p.info p.pc s.kernel_state
              s.shared v.at))
  ]
  step-Invariant (children_ended i b) s v = elim (Option-cases (get_elem? s.processes i)) [
    | inl e ↦ rw (e, step) v
    | inr (p, e) ↦
        rw (e, step)
          (moved-Invariant s i p (end_wait b p.pc) s.kernel_state s.shared v e
            (end_wait-Local kernel c b p.pc s.kernel_state s.shared)
            (end_wait-Moved slot_count v.pushes v.pops v.dropped b p.pc s.shared v.at))
  ]

  pub steps-Invariant :
      (es : List Event) (s : System K) → Invariant s → Invariant (steps kernel c es s)
  unfolding steps
  steps-Invariant [] s v = v
  steps-Invariant (e ∷ es) s v = steps-Invariant es (step kernel c e s) (step-Invariant e s v)

  pub start-Invariant :
      (k : K) (queue : RingBuffer ℕ) (infos : List ProcessInfo)
      → At slot_count 0 0 queue
      → waiting kernel c k ≡ 0
      → Invariant (start k queue infos)
  unfolding start
  start-Invariant k queue infos a w =
      let started : ProcessInfo → Process = λ info. record { info = info; pc = begin info } in
      let zero_of = λ (weight : Process → ℕ). sum_by-map_zero weight started infos in
      let arriving_sum = zero_of (λ q. arriving q.pc) (λ info. ground arith) in
      let chair_sum = zero_of (λ q. in_chair q.pc) (λ info. ground arith) in
      let failure_sum = zero_of (λ q. failure q.pc) (λ info. ground arith) in
      let busy_sum = zero_of (λ q. busy q.pc) (λ info. ground arith) in
      let closing_sum = zero_of (λ q. closing q.pc) (λ info. ground arith) in
      record {
        pushes = 0;
        pops = 0;
        dropped = 0;
        at = a;
        arrived = omega arith;
        served = omega arith;
        failed = omega arith;
        bounded = omega arith;
        quiet = closing_sum;
      }
