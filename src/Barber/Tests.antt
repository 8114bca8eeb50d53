-- ===== src/Barber/Tests.antt =====
-- The processes of apps/sleeping_barber_problem at concrete inputs: one generator of customers, one barber and
-- the parent, with five chairs.
use communicate_between_proc.Prelude.{
  ℕ, ◌≡◌, ◌++◌, refl, true, false, some, List, [], ◌∷◌, pos, replicate, get_or, map,
}
use communicate_between_proc.LockFree.RingBuffer
use communicate_between_proc.LockFree.RingBuffer.{RingBuffer}
use communicate_between_proc.Unix.Kernel.{operation_failed}
use communicate_between_proc.Unix.SemaphoreSet
use communicate_between_proc.Unix.GroupNotifier
use communicate_between_proc.Unix.Sample.{Values, sample}
use communicate_between_proc.Buffering.ProcessInfo.{failed, in_parent, in_child}
use communicate_between_proc.Barber.Roles.{ProcessInfo, create_group, create_child_processes}
use communicate_between_proc.Barber.Shop.{
  Config, advance, barber_step, generator_step, main_step, returned,
}
use communicate_between_proc.Barber.System.{
  Process, Event, step_of, children_ended, start, step, steps, end_wait,
}

abbrev sample_config : Config
sample_config = record {
  semaphores = record { handle = pos 0; count = 3 };
  barber_count = 1;
  customer_generator_count = 1;
  eagain = 11;
}

abbrev values : Values
values = λ i. get_or (0 ∷ 5 ∷ 0 ∷ []) i 0

abbrev queue : RingBuffer ℕ
queue = record { slots = replicate 5 0; read_idx = 0; write_idx = 0 }

abbrev child : ProcessInfo
child = record { is_child = true; is_barber = false; created_process_count = 1; group_id = 0 }

abbrev infos : List ProcessInfo
infos = child ∷ record child { is_barber = true } ∷ record child { is_child = false } ∷ []

-- The children are ready, and the generator fills the chairs.
abbrev full_house : List Event
full_house = map step_of (0 ∷ 1 ∷ 2 ∷ replicate 25 0)

abbrev closing_time : List Event
closing_time =
    map step_of (2 ∷ 2 ∷ 2 ∷ 1 ∷ 1 ∷ 1 ∷ 0 ∷ 0 ∷ []) ++ children_ended 2 true ∷ step_of 2 ∷ []

-- A customer takes a chair while the shop closes, and comes to the queue when the barber has gone.
abbrev late_customer : List Event
late_customer =
    map step_of (0 ∷ 1 ∷ 2 ∷ 0 ∷ 0 ∷ 0 ∷ 2 ∷ 2 ∷ 2 ∷ 1 ∷ 1 ∷ 1 ∷ 0 ∷ 0 ∷ 0 ∷ 0 ∷ [])
    ++ children_ended 2 true ∷ step_of 2 ∷ []

-- The queue with five customers looks empty: the barber goes, nobody is served, and the parent's comparison
-- fails.
full_house_unserved :
    let s = steps sample sample_config (full_house ++ closing_time) (start values queue infos) in
    (map (λ (p : Process). p.pc) s.processes ≡ returned true ∷ returned true ∷ returned false ∷ [])
    × (s.shared.served_customers ∷ s.shared.refused_customers ∷ s.shared.next_customer_id ∷ []
        ≡ 0 ∷ 0 ∷ 5 ∷ [])
unfolding steps step start advance barber_step generator_step main_step end_wait GroupNotifier.after
    operation_failed RingBuffer.push RingBuffer.pop RingBuffer.empty GroupNotifier.notify_one
    GroupNotifier.notify_all GroupNotifier.wait_for_one GroupNotifier.wait_for_all
    GroupNotifier.try_waiting_for_one SemaphoreSet.change_value SemaphoreSet.try_changing_value
    SemaphoreSet.checked
full_house_unserved = (refl, refl)

late_customer_unserved :
    let s = steps sample sample_config late_customer (start values queue infos) in
    (map (λ (p : Process). p.pc) s.processes ≡ returned true ∷ returned true ∷ returned false ∷ [])
    × (s.shared.served_customers ∷ s.shared.refused_customers ∷ s.shared.next_customer_id ∷ []
        ≡ 0 ∷ 0 ∷ 1 ∷ [])
unfolding steps step start advance barber_step generator_step main_step end_wait GroupNotifier.after
    operation_failed RingBuffer.push RingBuffer.pop RingBuffer.empty GroupNotifier.notify_one
    GroupNotifier.notify_all GroupNotifier.wait_for_one GroupNotifier.wait_for_all
    GroupNotifier.try_waiting_for_one SemaphoreSet.change_value SemaphoreSet.try_changing_value
    SemaphoreSet.checked
late_customer_unserved = (refl, refl)

-- Two generators and a barber: the barber is the third child, and a failed fork ends a round.
barber_of_three :
    create_child_processes 1 2 (in_parent ∷ in_parent ∷ in_child ∷ [])
    ≡ some (record { is_child = true; is_barber = true; created_process_count = 3; group_id = 0 })
unfolding create_child_processes create_group
barber_of_three = refl

failed_fork :
    create_child_processes 1 2 (failed ∷ in_parent ∷ [])
    ≡ some (record { is_child = false; is_barber = false; created_process_count = 1; group_id = 0 })
unfolding create_child_processes create_group
failed_fork = refl
