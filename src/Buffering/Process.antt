-- ===== src/Buffering/Process.antt =====
-- apps/consumer_producer_problem/include/buffering, but for the creation of the processes: role/child.hpp,
-- role/parent.hpp, occupation/producer.hpp, occupation/consumer.hpp and processor.hpp, with
-- libs/common/include/common/process.hpp. A process is at a point of its code between two accesses of
-- what processes share; `advance` is its next step. A push, and a pop, of the ring buffer is one
-- step here. What is printed is left out; snprintf is the parameter `format` of the configuration.
use communicate_between_proc.Prelude.{
  ℕ, suc, ◌+◌, Bool, true, false, List, Option, none, some, ltb, if◌then◌else◌,
}
use communicate_between_proc.LockFree.RingBuffer
use communicate_between_proc.LockFree.RingBuffer.{RingBuffer}
use communicate_between_proc.Unix.Kernel.{Kernel}
use communicate_between_proc.Unix.SemaphoreSet.{SemaphoreSet}
use communicate_between_proc.Unix.Process.{signal_readiness_to_parent, wait_till_all_children_ready}
use communicate_between_proc.Unix.GroupNotifier.{
  GroupNotifier, wait_for_one, wait_for_all, notify_one, notify_all, wait_till_none, after,
}
use communicate_between_proc.Buffering.ProcessInfo.{ProcessInfo}

abbrev pub Message : Type 0
Message = List ℕ

pub record SharedData : Type 0 where
  pub done_flag : Bool
  pub produced_message_count : ℕ
  pub consumed_message_count : ℕ
  pub message_queue : RingBuffer Message

-- The constants of `main`, and snprintf for the number of a message and a producer.
pub record Config : Type 0 where
  pub semaphores : SemaphoreSet
  pub message_count : ℕ
  pub producer_count : ℕ
  pub consumer_count : ℕ
  pub children_count : ℕ
  pub format : ℕ → ℕ → Option Message

module _ (c : Config) where
  abbrev pub children_readiness_notifier : GroupNotifier
  children_readiness_notifier = record {
    semaphores = c.semaphores;
    index = 0;
    group_size = c.children_count;
  }

  abbrev pub message_written_notifier : GroupNotifier
  message_written_notifier = record {
    semaphores = c.semaphores;
    index = 1;
    group_size = c.consumer_count;
  }

  abbrev pub message_read_notifier : GroupNotifier
  message_read_notifier = record {
    semaphores = c.semaphores;
    index = 2;
    group_size = c.producer_count;
  }

  abbrev pub producers_notifier : GroupNotifier
  producers_notifier = record {
    semaphores = c.semaphores;
    index = 3;
    group_size = c.producer_count;
  }

pub data Pc : Type 0 where
  -- setup, of a child and of the parent
  signalling_readiness awaiting_children starting_production : Pc
  -- run_producer, with the counter of its loop
  awaiting_start : Pc
  producing counting_produced notifying_written awaiting_read : ℕ → Pc
  completing : Pc
  -- run_consumer; `checking` has whether the wait succeeded
  awaiting_message : Pc
  checking : Bool → Pc
  popping counting_consumed notifying_read : Pc
  -- finalize, of the parent
  awaiting_production awaiting_consumption closing stopping awaiting_termination : Pc
  -- the end of `process`
  returned : Bool → Pc

-- `process` calls the methods of the role and the occupation that `create_processor` chose: `setup`,
abbrev pub setup : ProcessInfo → Pc
setup info = if info.is_child then signalling_readiness else awaiting_children

-- then `run`,
abbrev pub run : ProcessInfo → Pc
run info = if info.is_producer then awaiting_start else awaiting_message

-- then, if that returned true, `finalize`.
abbrev pub finalize : ProcessInfo → Pc
finalize info = if info.is_child then returned true else awaiting_production

module _ {K : Type 0} (kernel : Kernel K) (c : Config) where
  -- setup_child_process.
  unfoldable pub setup_child_step : ProcessInfo → K → Pc × K
  unfolding signal_readiness_to_parent
  setup_child_step info k =
      signal_readiness_to_parent kernel (children_readiness_notifier c) signalling_readiness
        (returned false) (run info) k

  -- The setup of a role; behind a child's it is setup_parent_process.
  unfoldable pub setup_step : ProcessInfo → Pc → K → Pc × K
  unfolding after setup_child_step wait_till_all_children_ready
  setup_step info signalling_readiness k = setup_child_step info k
  setup_step info awaiting_children k =
      after (wait_for_all kernel (children_readiness_notifier c) k) awaiting_children
        (returned false) starting_production k
  setup_step info starting_production k =
      after (notify_all kernel (producers_notifier c) k) starting_production (returned false)
        (run info) k
  setup_step info pc k = (pc, k)

  -- run_producer. A failed wait for the start returns EXIT_FAILURE, which is true.
  unfoldable pub producer_step : ProcessInfo → Pc → K → SharedData → Pc × K × SharedData
  unfolding after
  producer_step info awaiting_start k s =
      let (pc, k') =
        after (wait_for_one kernel (producers_notifier c) k) awaiting_start (finalize info)
          (producing 0) k in
      (pc, k', s)
  producer_step info (producing i) k s =
      if ltb i c.message_count
      then elim (c.format i info.group_id) [
        | none ↦ (returned false, k, s)
        | some message ↦ elim (RingBuffer.push message s.message_queue) [
          | none ↦ (producing i, k, s)
          | some queue ↦ (counting_produced i, k, record s { message_queue = queue })
        ]
      ]
      else (completing, k, s)
  producer_step info (counting_produced i) k s =
      (notifying_written i, k, record s { produced_message_count = s.produced_message_count + 1 })
  producer_step info (notifying_written i) k s =
      let (pc, k') =
        after (notify_one kernel (message_written_notifier c) k) (notifying_written i)
          (returned false) (awaiting_read i) k in
      (pc, k', s)
  producer_step info (awaiting_read i) k s =
      let (pc, k') =
        after (wait_for_one kernel (message_read_notifier c) k) (awaiting_read i) (returned false)
          (producing (suc i)) k in
      (pc, k', s)
  producer_step info completing k s =
      let (pc, k') =
        after (notify_one kernel (producers_notifier c) k) completing (returned false)
          (finalize info) k in
      (pc, k', s)
  producer_step info pc k s = (pc, k, s)

  -- run_consumer.
  unfoldable pub consumer_step : ProcessInfo → Pc → K → SharedData → Pc × K × SharedData
  unfolding after
  consumer_step info awaiting_message k s =
      let (pc, k') =
        after (wait_for_one kernel (message_written_notifier c) k) awaiting_message (checking false)
          (checking true) k in
      (pc, k', s)
  consumer_step info (checking message_written) k s =
      if s.done_flag
      then (finalize info, k, s)
      else if message_written
      then (popping, k, s)
      else (returned false, k, s)
  consumer_step info popping k s = elim (RingBuffer.pop s.message_queue) [
    | none ↦ (popping, k, s)
    | some (message, queue) ↦ (counting_consumed, k, record s { message_queue = queue })
  ]
  consumer_step info counting_consumed k s =
      (notifying_read, k, record s { consumed_message_count = s.consumed_message_count + 1 })
  consumer_step info notifying_read k s =
      let (pc, k') =
        after (notify_one kernel (message_read_notifier c) k) notifying_read (returned false)
          awaiting_message k in
      (pc, k', s)
  consumer_step info pc k s = (pc, k, s)

  -- finalize_parent_process. The assertion on the counters is left out. The first two waits return
  -- EXIT_FAILURE, which is true, where they fail.
  unfoldable pub parent_step : Pc → K → SharedData → Pc × K × SharedData
  unfolding after
  parent_step awaiting_production k s =
      let (pc, k') =
        after (wait_for_all kernel (producers_notifier c) k) awaiting_production (returned true)
          awaiting_consumption k in
      (pc, k', s)
  parent_step awaiting_consumption k s =
      let (pc, k') =
        after (wait_till_none kernel (message_written_notifier c) k) awaiting_consumption
          (returned true) closing k in
      (pc, k', s)
  parent_step closing k s = (stopping, k, record s { done_flag = true })
  parent_step stopping k s =
      let (pc, k') =
        after (notify_all kernel (message_written_notifier c) k) stopping (returned false)
          awaiting_termination k in
      (pc, k', s)
  parent_step pc k s = (pc, k, s)

  -- The next step of a process, but for the end of `wait_till_all_children_termninate`.
  unfoldable pub advance : ProcessInfo → Pc → K → SharedData → Pc × K × SharedData
  unfolding setup_step producer_step consumer_step parent_step
  advance info signalling_readiness k s =
      let (pc, k') = setup_step info signalling_readiness k in (pc, k', s)
  advance info awaiting_children k s =
      let (pc, k') = setup_step info awaiting_children k in (pc, k', s)
  advance info starting_production k s =
      let (pc, k') = setup_step info starting_production k in (pc, k', s)
  advance info awaiting_start k s = producer_step info awaiting_start k s
  advance info (producing i) k s = producer_step info (producing i) k s
  advance info (counting_produced i) k s = producer_step info (counting_produced i) k s
  advance info (notifying_written i) k s = producer_step info (notifying_written i) k s
  advance info (awaiting_read i) k s = producer_step info (awaiting_read i) k s
  advance info completing k s = producer_step info completing k s
  advance info awaiting_message k s = consumer_step info awaiting_message k s
  advance info (checking b) k s = consumer_step info (checking b) k s
  advance info popping k s = consumer_step info popping k s
  advance info counting_consumed k s = consumer_step info counting_consumed k s
  advance info notifying_read k s = consumer_step info notifying_read k s
  advance info awaiting_production k s = parent_step awaiting_production k s
  advance info awaiting_consumption k s = parent_step awaiting_consumption k s
  advance info closing k s = parent_step closing k s
  advance info stopping k s = parent_step stopping k s
  advance info awaiting_termination k s = (awaiting_termination, k, s)
  advance info (returned b) k s = (returned b, k, s)
