-- ===== src/Barber/Shop.antt =====
-- apps/sleeping_barber_problem/include/barber: shared_data.hpp, occupation/barber.hpp and
-- occupation/customer_generator.hpp, with the part of src/main.cpp behind the creation of the processes.
-- A process is at a point of its code between two accesses of what processes share; `advance` is its
-- next step. A push, and a pop, of the ring buffer is one step here. The times that a process sleeps and
-- what is printed are left out; the counts do not wrap.
use communicate_between_proc.Prelude.{
  ℕ, ◌+◌, Bool, true, false, not, Option, none, some, ◌==◌, if◌then◌else◌,
}
use communicate_between_proc.LockFree.RingBuffer
use communicate_between_proc.LockFree.RingBuffer.{RingBuffer}
use communicate_between_proc.Unix.Kernel.{Kernel, Result, ok, err}
use communicate_between_proc.Unix.SemaphoreSet.{SemaphoreSet}
use communicate_between_proc.Unix.Process.{signal_readiness_to_parent, wait_till_all_children_ready}
use communicate_between_proc.Unix.GroupNotifier.{
  GroupNotifier, wait_for_one, wait_for_all, notify_one, notify_all, try_waiting_for_one, after,
}
use communicate_between_proc.Barber.Roles.{ProcessInfo}

pub record SharedData : Type 0 where
  pub shop_closed : Bool
  pub next_customer_id : ℕ
  pub served_customers : ℕ
  pub refused_customers : ℕ
  pub customer_queue : RingBuffer ℕ

-- The constants of `main`, and EAGAIN.
pub record Config : Type 0 where
  pub semaphores : SemaphoreSet
  pub barber_count : ℕ
  pub customer_generator_count : ℕ
  pub eagain : ℕ

module _ (c : Config) where
  abbrev pub children_readiness_notifier : GroupNotifier
  children_readiness_notifier = record {
    semaphores = c.semaphores;
    index = 0;
    group_size = c.barber_count + c.customer_generator_count;
  }

  abbrev pub empty_chair_notifier : GroupNotifier
  empty_chair_notifier = record {
    semaphores = c.semaphores;
    index = 1;
    group_size = c.customer_generator_count;
  }

  abbrev pub customer_waiting_notifier : GroupNotifier
  customer_waiting_notifier = record {
    semaphores = c.semaphores;
    index = 2;
    group_size = c.barber_count;
  }

pub data Pc : Type 0 where
  -- the readiness of the children
  signalling_readiness awaiting_children : Pc
  -- serve_customer; `checking_closed` has whether the wait succeeded
  awaiting_customer : Pc
  checking_closed : Bool → Pc
  popping trimming notifying_chair : Pc
  -- its inner loop
  draining draining_pop trimming_last : Pc
  -- generate_customers; `checking_open` and `numbering` have the error of the try for a chair
  trying_chair : Pc
  checking_open numbering : Option ℕ → Pc
  refusing : Pc
  pushing : ℕ → Pc
  notifying_customer : Pc
  -- the parent
  keeping_open freeing_chairs waking_barbers awaiting_termination comparing : Pc
  -- the end of `main`
  returned : Bool → Pc

-- What `main` runs in a child that is ready.
abbrev pub run : ProcessInfo → Pc
run info = if info.is_barber then awaiting_customer else trying_chair

abbrev pub begin : ProcessInfo → Pc
begin info = if info.is_child then signalling_readiness else awaiting_children

-- What the try for a chair leaves to look at: no error, or its number.
abbrev pub tried : {K : Type 0} → Option (Result (Unit {0}) × K) → K → Pc × K
tried none k = (trying_chair, k)
tried (some (ok _, k')) k = (checking_open none, k')
tried (some (err e, k')) k = (checking_open (some e), k')

module _ {K : Type 0} (kernel : Kernel K) (c : Config) where
  unfoldable pub barber_step : Pc → K → SharedData → Pc × K × SharedData
  unfolding after
  barber_step awaiting_customer k s =
      let (pc, k') =
        after (wait_for_one kernel (customer_waiting_notifier c) k) awaiting_customer
          (checking_closed false) (checking_closed true) k in
      (pc, k', s)
  barber_step (checking_closed customer_waiting) k s =
      if s.shop_closed
      then (draining, k, s)
      else if customer_waiting
      then (popping, k, s)
      else (returned false, k, s)
  barber_step popping k s = elim (RingBuffer.pop s.customer_queue) [
    | none ↦ (popping, k, s)
    | some (customer, queue) ↦ (trimming, k, record s { customer_queue = queue })
  ]
  barber_step trimming k s =
      (notifying_chair, k, record s { served_customers = s.served_customers + 1 })
  barber_step notifying_chair k s =
      let (pc, k') =
        after (notify_one kernel (empty_chair_notifier c) k) notifying_chair (returned false)
          awaiting_customer k in
      (pc, k', s)
  barber_step draining k s =
      if RingBuffer.empty s.customer_queue then (returned true, k, s) else (draining_pop, k, s)
  barber_step draining_pop k s =
      let (possible_customer, queue) = RingBuffer.try_pop s.customer_queue in
      elim possible_customer [
        | none ↦ (draining, k, record s { customer_queue = queue })
        | some customer ↦ (trimming_last, k, record s { customer_queue = queue })
      ]
  barber_step trimming_last k s =
      (draining, k, record s { served_customers = s.served_customers + 1 })
  barber_step pc k s = (pc, k, s)

  unfoldable pub generator_step : Pc → K → SharedData → Pc × K × SharedData
  unfolding after
  generator_step trying_chair k s =
      let (pc, k') = tried (try_waiting_for_one kernel (empty_chair_notifier c) k) k in (pc, k', s)
  generator_step (checking_open empty_chair) k s =
      if s.shop_closed then (returned true, k, s) else (numbering empty_chair, k, s)
  generator_step (numbering none) k s =
      (pushing s.next_customer_id, k, record s { next_customer_id = s.next_customer_id + 1 })
  generator_step (numbering (some code)) k s =
      let pc = if not (code == c.eagain) then returned false else refusing in
      (pc, k, record s { next_customer_id = s.next_customer_id + 1 })
  generator_step refusing k s =
      (trying_chair, k, record s { refused_customers = s.refused_customers + 1 })
  generator_step (pushing customer) k s = elim (RingBuffer.push customer s.customer_queue) [
    | none ↦ (pushing customer, k, s)
    | some queue ↦ (notifying_customer, k, record s { customer_queue = queue })
  ]
  generator_step notifying_customer k s =
      let (pc, k') =
        after (notify_one kernel (customer_waiting_notifier c) k) notifying_customer
          (returned false) trying_chair k in
      (pc, k', s)
  generator_step pc k s = (pc, k, s)

  -- The rest of `main`: the results of the notifications at the closing are not looked at, and the
  -- parent's last step is its assertion.
  unfoldable pub main_step : ProcessInfo → Pc → K → SharedData → Pc × K × SharedData
  unfolding after signal_readiness_to_parent wait_till_all_children_ready
  main_step info signalling_readiness k s =
      let (pc, k') =
        after (notify_one kernel (children_readiness_notifier c) k) signalling_readiness
          (returned false) (run info) k in
      (pc, k', s)
  main_step info awaiting_children k s =
      let (pc, k') =
        after (wait_for_all kernel (children_readiness_notifier c) k) awaiting_children
          (returned false) keeping_open k in
      (pc, k', s)
  main_step info keeping_open k s = (freeing_chairs, k, record s { shop_closed = true })
  main_step info freeing_chairs k s =
      let (pc, k') =
        after (notify_all kernel (empty_chair_notifier c) k) freeing_chairs waking_barbers
          waking_barbers k in
      (pc, k', s)
  main_step info waking_barbers k s =
      let (pc, k') =
        after (notify_all kernel (customer_waiting_notifier c) k) waking_barbers
          awaiting_termination awaiting_termination k in
      (pc, k', s)
  main_step info comparing k s =
      (returned (s.served_customers + s.refused_customers == s.next_customer_id), k, s)
  main_step info pc k s = (pc, k, s)

  unfoldable pub advance : ProcessInfo → Pc → K → SharedData → Pc × K × SharedData
  unfolding barber_step generator_step main_step
  advance info signalling_readiness k s = main_step info signalling_readiness k s
  advance info awaiting_children k s = main_step info awaiting_children k s
  advance info awaiting_customer k s = barber_step awaiting_customer k s
  advance info (checking_closed b) k s = barber_step (checking_closed b) k s
  advance info popping k s = barber_step popping k s
  advance info trimming k s = barber_step trimming k s
  advance info notifying_chair k s = barber_step notifying_chair k s
  advance info draining k s = barber_step draining k s
  advance info draining_pop k s = barber_step draining_pop k s
  advance info trimming_last k s = barber_step trimming_last k s
  advance info trying_chair k s = generator_step trying_chair k s
  advance info (checking_open o) k s = generator_step (checking_open o) k s
  advance info (numbering o) k s = generator_step (numbering o) k s
  advance info refusing k s = generator_step refusing k s
  advance info (pushing customer) k s = generator_step (pushing customer) k s
  advance info notifying_customer k s = generator_step notifying_customer k s
  advance info keeping_open k s = main_step info keeping_open k s
  advance info freeing_chairs k s = main_step info freeing_chairs k s
  advance info waking_barbers k s = main_step info waking_barbers k s
  advance info awaiting_termination k s = (awaiting_termination, k, s)
  advance info comparing k s = main_step info comparing k s
  advance info (returned b) k s = (returned b, k, s)
