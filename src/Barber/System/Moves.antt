-- ===== src/Barber/System/Moves.antt =====
-- Where a step of a process of apps/sleeping_barber_problem moves a customer: into the queue, out of it, to a
-- counter, or nowhere.
use communicate_between_proc.Prelude.{
  ℕ, suc, ◌+◌, ◌≤◌, ◌≡◌, refl, Bool, true, false, Option, none, some, not, ◌==◌, inl, inr, arith,
  if◌then◌else◌, if_cases, ap,
}
use communicate_between_proc.LockFree.RingBuffer
use communicate_between_proc.LockFree.RingBuffer.{RingBuffer}
use communicate_between_proc.LockFree.RingBuffer.Turns.{At, push-At, pop-At, try_pop-At}
use communicate_between_proc.Unix.Kernel.{Kernel, Result, ok, err}
use communicate_between_proc.Unix.GroupNotifier.{
  after, wait_for_one, wait_for_all, notify_one, notify_all,
}
use communicate_between_proc.Barber.Roles.{ProcessInfo}
use communicate_between_proc.Barber.System.{end_wait}
use communicate_between_proc.Barber.Shop.{
  SharedData, Config, Pc, signalling_readiness, awaiting_children, awaiting_customer,
  checking_closed, popping, trimming, notifying_chair, draining, draining_pop, trimming_last,
  trying_chair, checking_open, numbering, refusing, pushing, notifying_customer, keeping_open,
  freeing_chairs, waking_barbers, awaiting_termination, comparing, returned, advance, barber_step,
  generator_step, main_step, children_readiness_notifier, empty_chair_notifier,
  customer_waiting_notifier, run, tried,
}
use communicate_between_proc.Barber.System.Weights.{in_chair, arriving, failure}

-- The customers that have come: those counted, those on their way, and those pushed or given up.
module _ (slot_count : ℕ) where
  -- The queue after a step, with the numbers of pushes, of pops and of customers given up so far.
  pub record Moved (pushes pops dropped : ℕ) (pc : Pc) (s : SharedData) (pc' : Pc) (s' : SharedData)
      : Type 0 where
    pub pushes' : ℕ
    pub pops' : ℕ
    pub dropped' : ℕ
    pub at : At slot_count pushes' pops' s'.customer_queue
    pub arrived :
        s'.next_customer_id + s.refused_customers + arriving pc + pushes + dropped
        ≡ s.next_customer_id + s'.refused_customers + arriving pc' + pushes' + dropped'
    pub served :
        pops' + s.served_customers + in_chair pc ≡ pops + s'.served_customers + in_chair pc'
    pub failed : dropped' + failure pc ≤ dropped + failure pc'

  module _ (pushes pops dropped : ℕ) (s : SharedData)
      (a : At slot_count pushes pops s.customer_queue) where
    -- Nothing happens to a customer.
    still :
        (pc pc' : Pc) (s' : SharedData)
        → s'.customer_queue ≡ s.customer_queue
        → s'.next_customer_id + s.refused_customers + arriving pc
          ≡ s.next_customer_id + s'.refused_customers + arriving pc'
        → s.served_customers + in_chair pc ≡ s'.served_customers + in_chair pc'
        → failure pc ≤ failure pc'
        → Moved pushes pops dropped pc s pc' s'
    still pc pc' s' q r e f = record {
      pushes' = pushes;
      pops' = pops;
      dropped' = dropped;
      at = rw q a;
      arrived = omega arith;
      served = omega arith;
      failed = omega arith;
    }

    -- A call of a notifier.
    after_still :
        {K : Type 0} (pc w f d : Pc) (o : Option (Result (Unit {0}) × K)) (k : K)
        → arriving pc + in_chair pc + failure pc ≡ 0
        → arriving w + in_chair w ≡ 0
        → arriving f + in_chair f ≡ 0
        → arriving d + in_chair d ≡ 0
        → Moved pushes pops dropped pc s (after o w f d k).0 s
    unfolding after
    after_still pc w f d none k h x y z =
        still pc w s refl (omega arith) (omega arith) (omega arith)
    after_still pc w f d (some (err e, k')) k h x y z =
        still pc f s refl (omega arith) (omega arith) (omega arith)
    after_still pc w f d (some (ok t, k')) k h x y z =
        still pc d s refl (omega arith) (omega arith) (omega arith)

  module _ {K : Type 0} (kernel : Kernel K) (c : Config) where
    try_still :
        (pushes pops dropped : ℕ) (s : SharedData) (o : Option (Result (Unit {0}) × K)) (k : K)
        → At slot_count pushes pops s.customer_queue
        → Moved pushes pops dropped trying_chair s (tried o k).0 s
    try_still pushes pops dropped s none k a =
        still pushes pops dropped s a trying_chair _ s refl (omega arith) (omega arith)
          (omega arith)
    try_still pushes pops dropped s (some (ok t, k')) k a =
        still pushes pops dropped s a trying_chair _ s refl (omega arith) (omega arith)
          (omega arith)
    try_still pushes pops dropped s (some (err e, k')) k a =
        still pushes pops dropped s a trying_chair _ s refl (omega arith) (omega arith)
          (omega arith)

    refused_or_dropped :
        (pushes pops dropped code : ℕ) (k : K) (s : SharedData) (unexpected : Bool)
        → (not (code == c.eagain)) ≡ unexpected
        → At slot_count pushes pops s.customer_queue
        → let (pc', k', s') = generator_step kernel c (numbering (some code)) k s in
          Moved pushes pops dropped (numbering (some code)) s pc' s'
    unfolding generator_step
    refused_or_dropped pushes pops dropped code k s true e a =
        rw (generator_step, e)
          (record {
            pushes' = pushes;
            pops' = pops;
            dropped' = suc dropped;
            at = a;
            arrived = omega arith;
            served = omega arith;
            failed = omega arith;
          })
    refused_or_dropped pushes pops dropped code k s false e a =
        rw (generator_step, e)
          (still pushes pops dropped s a (numbering (some code)) refusing
            (record s { next_customer_id = s.next_customer_id + 1 }) refl (omega arith)
            (omega arith) (omega arith))

    pop_moved :
        (pushes pops dropped : ℕ) (k : K) (s : SharedData)
        → At slot_count pushes pops s.customer_queue
        → let (pc', k', s') = barber_step kernel c popping k s in
          Moved pushes pops dropped popping s pc' s'
    unfolding barber_step
    pop_moved pushes pops dropped k s a =
        let (x, queue, e, a') = pop-At slot_count pushes pops s.customer_queue a in
        rw (barber_step, e)
          (record {
            pushes' = pushes;
            pops' = suc pops;
            dropped' = dropped;
            at = a';
            arrived = omega arith;
            served = omega arith;
            failed = omega arith;
          })

    drain_moved :
        (pushes pops dropped : ℕ) (k : K) (s : SharedData)
        → At slot_count pushes pops s.customer_queue
        → let (pc', k', s') = barber_step kernel c draining_pop k s in
          Moved pushes pops dropped draining_pop s pc' s'
    unfolding barber_step
    drain_moved pushes pops dropped k s a =
        elim (try_pop-At slot_count pushes pops s.customer_queue a) [
          | inl e ↦
              rw (barber_step, ap (λ r. r.0) e)
                (still pushes pops dropped s a draining_pop draining
                  (record s { customer_queue = (RingBuffer.try_pop s.customer_queue).1 })
                  (ap (λ r. r.1) e) (omega arith) (omega arith) (omega arith))
          | inr (x, queue, e, a') ↦
              rw (barber_step, ap (λ r. r.0) e)
                (record {
                  pushes' = pushes;
                  pops' = suc pops;
                  dropped' = dropped;
                  at = rw (ap (λ r. r.1) e) a';
                  arrived = omega arith;
                  served = omega arith;
                  failed = omega arith;
                })
        ]

    push_moved :
        (pushes pops dropped customer : ℕ) (k : K) (s : SharedData)
        → At slot_count pushes pops s.customer_queue
        → let (pc', k', s') = generator_step kernel c (pushing customer) k s in
          Moved pushes pops dropped (pushing customer) s pc' s'
    unfolding generator_step
    push_moved pushes pops dropped customer k s a =
        let (queue, e, a') = push-At slot_count pushes pops customer s.customer_queue a in
        rw (generator_step, e)
          (record {
            pushes' = suc pushes;
            pops' = pops;
            dropped' = dropped;
            at = a';
            arrived = omega arith;
            served = omega arith;
            failed = omega arith;
          })

    pub advance-Moved :
        (pushes pops dropped : ℕ) (info : ProcessInfo) (pc : Pc) (k : K) (s : SharedData)
        → At slot_count pushes pops s.customer_queue
        → let (pc', k', s') = advance kernel c info pc k s in Moved pushes pops dropped pc s pc' s'
    unfolding advance barber_step generator_step main_step
    advance-Moved pushes pops dropped info signalling_readiness k s a =
        after_still pushes pops dropped s a signalling_readiness signalling_readiness
          (returned false) (run info) (notify_one kernel (children_readiness_notifier c) k) k refl
          refl refl (ground arith)
    advance-Moved pushes pops dropped info awaiting_children k s a =
        after_still pushes pops dropped s a awaiting_children awaiting_children (returned false)
          keeping_open (wait_for_all kernel (children_readiness_notifier c) k) k refl refl refl refl
    advance-Moved pushes pops dropped info awaiting_customer k s a =
        after_still pushes pops dropped s a awaiting_customer awaiting_customer
          (checking_closed false) (checking_closed true)
          (wait_for_one kernel (customer_waiting_notifier c) k) k refl refl refl refl
    advance-Moved pushes pops dropped info (checking_closed b) k s a =
        let same = λ (p : Pc) (h : in_chair p + arriving p ≡ 0).
          still pushes pops dropped s a (checking_closed b) p s refl (omega arith) (omega arith)
            (omega arith) in
        if_cases
          (λ (r : Pc × K × SharedData). Moved pushes pops dropped (checking_closed b) s r.0 r.2)
          s.shop_closed (draining, k, s) (if b then (popping, k, s) else (returned false, k, s))
          (same draining refl)
          (if_cases
            (λ (r : Pc × K × SharedData). Moved pushes pops dropped (checking_closed b) s r.0 r.2) b
            (popping, k, s) (returned false, k, s) (same popping refl) (same (returned false) refl))
    advance-Moved pushes pops dropped info popping k s a = pop_moved pushes pops dropped k s a
    advance-Moved pushes pops dropped info trimming k s a =
        still pushes pops dropped s a trimming notifying_chair
          (record s { served_customers = s.served_customers + 1 }) refl (omega arith) (omega arith)
          (omega arith)
    advance-Moved pushes pops dropped info notifying_chair k s a =
        after_still pushes pops dropped s a notifying_chair notifying_chair (returned false)
          awaiting_customer (notify_one kernel (empty_chair_notifier c) k) k refl refl refl refl
    advance-Moved pushes pops dropped info draining k s a =
        if_cases (λ (r : Pc × K × SharedData). Moved pushes pops dropped draining s r.0 r.2)
          (RingBuffer.empty s.customer_queue) (returned true, k, s) (draining_pop, k, s)
          (still pushes pops dropped s a draining _ s refl (omega arith) (omega arith)
            (omega arith))
          (still pushes pops dropped s a draining _ s refl (omega arith) (omega arith)
            (omega arith))
    advance-Moved pushes pops dropped info draining_pop k s a =
        drain_moved pushes pops dropped k s a
    advance-Moved pushes pops dropped info trimming_last k s a =
        still pushes pops dropped s a trimming_last draining
          (record s { served_customers = s.served_customers + 1 }) refl (omega arith) (omega arith)
          (omega arith)
    advance-Moved pushes pops dropped info trying_chair k s a =
        try_still pushes pops dropped s _ k a
    advance-Moved pushes pops dropped info (checking_open o) k s a =
        if_cases
          (λ (r : Pc × K × SharedData). Moved pushes pops dropped (checking_open o) s r.0 r.2)
          s.shop_closed (returned true, k, s) (numbering o, k, s)
          (still pushes pops dropped s a (checking_open o) _ s refl (omega arith) (omega arith)
            (omega arith))
          (still pushes pops dropped s a (checking_open o) _ s refl (omega arith) (omega arith)
            (omega arith))
    advance-Moved pushes pops dropped info (numbering none) k s a =
        still pushes pops dropped s a (numbering none) (pushing s.next_customer_id)
          (record s { next_customer_id = s.next_customer_id + 1 }) refl (omega arith) (omega arith)
          (omega arith)
    advance-Moved pushes pops dropped info (numbering (some code)) k s a =
        refused_or_dropped pushes pops dropped code k s _ refl a
    advance-Moved pushes pops dropped info refusing k s a =
        still pushes pops dropped s a refusing trying_chair
          (record s { refused_customers = s.refused_customers + 1 }) refl (omega arith)
          (omega arith) (omega arith)
    advance-Moved pushes pops dropped info (pushing customer) k s a =
        push_moved pushes pops dropped customer k s a
    advance-Moved pushes pops dropped info notifying_customer k s a =
        after_still pushes pops dropped s a notifying_customer notifying_customer (returned false)
          trying_chair (notify_one kernel (customer_waiting_notifier c) k) k refl refl refl refl
    advance-Moved pushes pops dropped info keeping_open k s a =
        still pushes pops dropped s a keeping_open freeing_chairs (record s { shop_closed = true })
          refl (omega arith) (omega arith) (omega arith)
    advance-Moved pushes pops dropped info freeing_chairs k s a =
        after_still pushes pops dropped s a freeing_chairs freeing_chairs waking_barbers
          waking_barbers (notify_all kernel (empty_chair_notifier c) k) k refl refl refl refl
    advance-Moved pushes pops dropped info waking_barbers k s a =
        after_still pushes pops dropped s a waking_barbers waking_barbers awaiting_termination
          awaiting_termination (notify_all kernel (customer_waiting_notifier c) k) k refl refl refl
          refl
    advance-Moved pushes pops dropped info awaiting_termination k s a =
        still pushes pops dropped s a awaiting_termination _ s refl (omega arith) (omega arith)
          (omega arith)
    advance-Moved pushes pops dropped info comparing k s a =
        still pushes pops dropped s a comparing _ s refl (omega arith) (omega arith) (ground arith)
    advance-Moved pushes pops dropped info (returned b) k s a =
        still pushes pops dropped s a (returned b) _ s refl (omega arith) (omega arith)
          (omega arith)

  pub end_wait-Moved :
      (pushes pops dropped : ℕ) (b : Bool) (pc : Pc) (s : SharedData)
      → At slot_count pushes pops s.customer_queue
      → Moved pushes pops dropped pc s (end_wait b pc) s
  unfolding end_wait
  end_wait-Moved pushes pops dropped b pc s a =
      still pushes pops dropped s a pc (end_wait b pc) s refl (ground arith) (ground arith)
        (ground arith)
