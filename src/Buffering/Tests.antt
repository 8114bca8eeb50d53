-- ===== src/Buffering/Tests.antt =====
-- The processes of apps/consumer_producer_problem at concrete inputs: two producers, of which one is the
-- parent, and a consumer, with one message from each producer.
use communicate_between_proc.Prelude.{
  ◌≡◌, ◌≤◌, ◌+◌, ◌++◌, refl, true, false, some, List, [], ◌∷◌, pos, arith, replicate, get_or, map,
  sum_by,
}
use communicate_between_proc.LockFree.RingBuffer
use communicate_between_proc.LockFree.RingBuffer.{RingBuffer}
use communicate_between_proc.Unix.Kernel.{operation_failed}
use communicate_between_proc.Unix.SemaphoreSet
use communicate_between_proc.Unix.GroupNotifier
use communicate_between_proc.Unix.Sample.{Values, sample}
use communicate_between_proc.Buffering.ProcessInfo.{
  ProcessInfo, in_parent, in_child, create_child_processes,
}
use communicate_between_proc.Buffering.Process.{
  Message, Config, awaiting_start, checking, closing, awaiting_termination, returned, setup_step,
  producer_step, consumer_step, parent_step, advance,
}
use communicate_between_proc.Buffering.Roles.{roles_of_children}
use communicate_between_proc.Buffering.System.{Process, Event, step_of, start, step, steps}
use communicate_between_proc.Buffering.System.Weights.{in_pop, in_production}
use communicate_between_proc.Buffering.System.Schedules.{pop_finds_message, production_over}

abbrev sample_config : Config
sample_config = record {
  semaphores = record { handle = pos 0; count = 4 };
  message_count = 1;
  producer_count = 2;
  consumer_count = 1;
  children_count = 2;
  format = λ i group_id. some (i ∷ group_id ∷ []);
}

-- The notifications of messages read stand at the capacity of the buffer.
abbrev values : Values
values = λ i. get_or (0 ∷ 0 ∷ 4 ∷ 0 ∷ []) i 0

abbrev queue : RingBuffer Message
queue = record { slots = replicate 4 []; read_idx = 0; write_idx = 0 }

abbrev consumer : ProcessInfo
consumer = record { created_process_count = 1; is_child = true; is_producer = false; group_id = 0 }

abbrev producer : ProcessInfo
producer = record { created_process_count = 2; is_child = true; is_producer = true; group_id = 0 }

abbrev parent : ProcessInfo
parent = record { created_process_count = 2; is_child = false; is_producer = true; group_id = 1 }

-- The children are ready, the parent starts and produces its message, and ends.
abbrev parent_alone : List Event
parent_alone = map step_of (0 ∷ 1 ∷ 2 ∷ 2 ∷ 2 ∷ 2 ∷ 2 ∷ 2 ∷ 2 ∷ 2 ∷ 2 ∷ 2 ∷ [])

-- The consumer took the notification and has not popped: the parent finds no message waiting, and the
-- two counts differ where it compares them.
abbrev before_pop : List Event
before_pop = map step_of (
    0 ∷ 1 ∷ 2 ∷ 2 ∷ 1 ∷ 1 ∷ 1 ∷ 1 ∷ 1 ∷ 1 ∷ 1 ∷ 2 ∷ 2 ∷ 2 ∷ 2 ∷ 2 ∷ 2 ∷ 2 ∷ 0 ∷ 0 ∷ 0 ∷ 0 ∷ 0 ∷ 0
    ∷ 2 ∷ 2 ∷ [])

counts_differ :
    let s =
      steps sample sample_config before_pop
        (start values queue (consumer ∷ producer ∷ parent ∷ [])) in
    (s.shared.produced_message_count ∷ s.shared.consumed_message_count ∷ [] ≡ 2 ∷ 1 ∷ [])
    × (map (λ (p : Process). p.pc) s.processes ≡ checking true ∷ returned true ∷ closing ∷ [])
unfolding steps step start advance setup_step producer_step consumer_step parent_step
    GroupNotifier.after operation_failed RingBuffer.push RingBuffer.pop GroupNotifier.notify_one
    GroupNotifier.notify_all GroupNotifier.wait_for_one GroupNotifier.wait_for_all
    GroupNotifier.wait_till_none SemaphoreSet.change_value SemaphoreSet.increase_value
    SemaphoreSet.decrease_value SemaphoreSet.checked
counts_differ = (refl, refl)

pop_finds_message_example :
    let s =
      steps sample sample_config before_pop
        (start values queue (consumer ∷ producer ∷ parent ∷ [])) in
    s.shared.consumed_message_count + sum_by (λ p. in_pop p.pc) s.processes
    ≤ s.shared.produced_message_count
pop_finds_message_example =
    pop_finds_message sample sample_config values queue (consumer ∷ producer ∷ parent ∷ [])
      before_pop refl refl

production_over_example :
    let s =
      steps sample sample_config before_pop
        (start values queue (consumer ∷ producer ∷ parent ∷ [])) in
    (sample.value (pos 0) 3 s.kernel_state ≡ 0) × (sum_by (λ q. in_production q.pc) s.processes ≡ 0)
unfolding steps step start advance setup_step producer_step consumer_step parent_step
    GroupNotifier.after operation_failed RingBuffer.push RingBuffer.pop GroupNotifier.notify_one
    GroupNotifier.notify_all GroupNotifier.wait_for_one GroupNotifier.wait_for_all
    GroupNotifier.wait_till_none SemaphoreSet.change_value SemaphoreSet.increase_value
    SemaphoreSet.decrease_value SemaphoreSet.checked
production_over_example =
    production_over sample sample_config values queue (consumer ∷ producer ∷ parent ∷ []) before_pop
      2 (record { info = parent; pc = closing }) refl refl (omega arith) (omega arith) refl
      (omega arith)

roles_of_children_example :
    (create_child_processes 2 10 (in_parent ∷ in_parent ∷ in_child ∷ [])
      ≡ some
          (record { created_process_count = 3; is_child = true; is_producer = true; group_id = 0 }))
    × (create_child_processes 2 10 (replicate 12 in_parent ++ [])
        ≡ some (record {
          created_process_count = 12;
          is_child = false;
          is_producer = true;
          group_id = 10;
        }))
roles_of_children_example = roles_of_children 2 10 2 [] (omega arith)

-- The parent takes the start of the other producer for the end of its own production: the producer waits
-- for ever, and the parent for it.
lost_start :
    map
      (λ (p : Process). p.pc)
      (steps sample sample_config
        (parent_alone ++ map step_of (0 ∷ 0 ∷ 0 ∷ 0 ∷ 0 ∷ 1 ∷ 2 ∷ 2 ∷ 2 ∷ 0 ∷ 0 ∷ 1 ∷ 2 ∷ []))
        (start values queue (consumer ∷ producer ∷ parent ∷ []))).processes
    ≡ returned true ∷ awaiting_start ∷ awaiting_termination ∷ []
unfolding steps step start advance setup_step producer_step consumer_step parent_step
    GroupNotifier.after operation_failed RingBuffer.push RingBuffer.pop GroupNotifier.notify_one
    GroupNotifier.notify_all GroupNotifier.wait_for_one GroupNotifier.wait_for_all
    GroupNotifier.wait_till_none SemaphoreSet.change_value SemaphoreSet.increase_value
    SemaphoreSet.decrease_value SemaphoreSet.checked
lost_start = refl
