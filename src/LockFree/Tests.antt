-- ===== src/LockFree/Tests.antt =====
-- The results on libs/lock_free at concrete inputs, and runs of the code.
use communicate_between_proc.Prelude.{
  ℕ, zero, suc, ◌+◌, ◌≡◌, ◌%◌, get_elem?, refl, true, false, some, List, [], ◌∷◌, arith,
}
use communicate_between_proc.Core.{ErrorCode, unexpected}
use communicate_between_proc.LockFree.BoundedQueue
use communicate_between_proc.LockFree.BoundedQueue.{Op, put, take}
use communicate_between_proc.LockFree.GroupNotifier.{
  System, start, returned, thread, one, step, steps, wait_for_one, notify_one, return_count,
  steps-balance,
}
use communicate_between_proc.LockFree.SpinLock.{outside, turns, Exclusive, turns-Exclusive}
use communicate_between_proc.LockFree.RingBuffer.{RingBuffer, claim_write, try_pop, push, pop}
use communicate_between_proc.LockFree.RingBuffer.Invariant.{IsValid, count}
use communicate_between_proc.LockFree.RingBuffer.Refine.{
  contents, push_refines, pop_refines, pop_underrun,
}
use communicate_between_proc.LockFree.RingBuffer.Runs.{run, ring_run_refines}
use communicate_between_proc.LockFree.RingBuffer.Race.{pop_before_store}
use communicate_between_proc.LockFree.MessageRingBuffer
use communicate_between_proc.LockFree.MessageRingBuffer.{Platform, MessageRingBuffer}
use communicate_between_proc.LockFree.MessageRingBuffer.Refine
use communicate_between_proc.LockFree.MessageRingBuffer.Refine.{Holds, refused_push}
use communicate_between_proc.LockFree.MessageRingBuffer.Runs
use communicate_between_proc.LockFree.MessageRingBuffer.Runs.{run_messages, message_run_refines}
use communicate_between_proc.LockFree.Sample.{x64}

-- A full buffer of three slots, whose oldest value is in the middle, and one with nothing in it.
abbrev full_buffer : RingBuffer ℕ
full_buffer = record { slots = 7 ∷ 8 ∷ 9 ∷ []; read_idx = 1; write_idx = 0 }

abbrev empty_buffer : RingBuffer ℕ
empty_buffer = record { slots = 7 ∷ 8 ∷ 9 ∷ []; read_idx = 1; write_idx = 1 }

full_buffer-IsValid : IsValid full_buffer
full_buffer-IsValid = record {
  two_slots = omega arith;
  small = omega arith;
  read_in = omega arith;
  write_in = omega arith;
}

empty_buffer-IsValid : IsValid empty_buffer
empty_buffer-IsValid = record {
  two_slots = omega arith;
  small = omega arith;
  read_in = omega arith;
  write_in = omega arith;
}

ring_run_refines_example :
    run full_buffer (put 4 ∷ take ∷ put 5 ∷ take ∷ take ∷ take ∷ [])
    ≡ BoundedQueue.run 2 (8 ∷ 9 ∷ []) (put 4 ∷ take ∷ put 5 ∷ take ∷ take ∷ take ∷ [])
ring_run_refines_example =
    ring_run_refines (put 4 ∷ take ∷ put 5 ∷ take ∷ take ∷ take ∷ []) full_buffer-IsValid

push_refines_example : (r' : RingBuffer ℕ) × (push 4 full_buffer ≡ some r') × (contents r' ≡ [])
push_refines_example = push_refines 4 full_buffer-IsValid

pop_refines_example :
    (x : ℕ) × (r' : RingBuffer ℕ) × (pop full_buffer ≡ some (some x, r'))
    × (8 ∷ 9 ∷ [] ≡ x ∷ contents r')
pop_refines_example = pop_refines full_buffer-IsValid (omega arith)

pop_underrun_example :
    (x : ℕ) × (r' : RingBuffer ℕ) × (pop empty_buffer ≡ some (some x, r')) × (count r' + 1 ≡ 3)
pop_underrun_example = pop_underrun empty_buffer-IsValid refl

pop_before_store_example :
    let (won, _, claimed) = claim_write 1 empty_buffer in
    (won ≡ true)
    × ((try_pop claimed).0 ≡ get_elem? empty_buffer.slots 1)
    × ((try_pop claimed).1.read_idx ≡ (try_pop claimed).1.write_idx)
pop_before_store_example = pop_before_store empty_buffer-IsValid refl

-- Twenty elements, the next of which is the last but one.
abbrev zeros : ℕ → List ℕ
zeros zero = []
zeros (suc n) = 0 ∷ zeros n

abbrev blank : MessageRingBuffer
blank = record { memory = zeros 320; capacity = 20; read_idx = 18; write_idx = 18 }

blank-IsValid : Refine.IsValid x64 blank
blank-IsValid = record {
  two_elements = omega arith;
  small = omega arith;
  allocated = refl;
  read_in = omega arith;
  write_in = omega arith;
}

blank-Holds : Holds x64 blank []
blank-Holds = record { valid = blank-IsValid; used = refl; stored = tt }

message_run_refines_example :
    Runs.run x64 blank (put (4 ∷ 5 ∷ 6 ∷ []) ∷ take ∷ take ∷ [])
    ≡ run_messages 20 [] (put (4 ∷ 5 ∷ 6 ∷ []) ∷ take ∷ take ∷ [])
message_run_refines_example =
    message_run_refines x64 (put (4 ∷ 5 ∷ 6 ∷ []) ∷ take ∷ take ∷ []) (omega arith, tt) blank-Holds

refused_push_example :
    MessageRingBuffer.try_push x64 (zeros 12) blank ≡ (unexpected ErrorCode.not_enough_space, blank)
refused_push_example = refused_push x64 (zeros 12) blank-Holds (omega arith) (omega arith)

-- Two threads that wait, for nothing yet.
abbrev waiting : System
waiting = record { counter = 0; group_size = 2; threads = start ∷ start ∷ []; notified = 0 }

steps-balance_example :
    let s' = steps (thread 0 ∷ one ∷ thread 0 ∷ []) waiting in
    (s'.counter + return_count s'.threads + 0) % 4294967296 ≡ (0 + 0 + s'.notified) % 4294967296
steps-balance_example = steps-balance (thread 0 ∷ one ∷ thread 0 ∷ []) waiting

-- Both return for one notification, and the counter is -1.
two_for_one :
    steps (thread 0 ∷ one ∷ thread 0 ∷ thread 1 ∷ thread 1 ∷ thread 1 ∷ thread 0 ∷ []) waiting
    ≡ record {
      counter = 4294967295;
      group_size = 2;
      threads = returned ∷ returned ∷ [];
      notified = 1;
    }
unfolding steps step wait_for_one notify_one
two_for_one = refl

-- Of two threads that lock, the first holds the lock, and the second once it is free.
turns-Exclusive_example :
    Exclusive
      (turns (0 ∷ 1 ∷ 0 ∷ 1 ∷ 0 ∷ 1 ∷ []) (record { flag = false; users = outside ∷ outside ∷ [] }))
turns-Exclusive_example =
    turns-Exclusive (0 ∷ 1 ∷ 0 ∷ 1 ∷ 0 ∷ 1 ∷ [])
      (record { flag = false; users = outside ∷ outside ∷ [] }) refl
