-- ===== src/LockFree/RingBuffer/Runs.antt =====
-- Whole sequences of calls on the ring buffer against the bounded queue.
use communicate_between_proc.Prelude.{◌-◌, ◌≡◌, refl, arith, List, [], ◌∷◌, length-set}
use communicate_between_proc.LockFree.BoundedQueue
use communicate_between_proc.LockFree.BoundedQueue.{Op, Reply, put, take, pushed, popped}
use communicate_between_proc.LockFree.RingBuffer.{RingBuffer, capacity, try_push, try_pop}
use communicate_between_proc.LockFree.RingBuffer.Invariant.{
  IsValid, try_push_from-IsValid, try_pop_from-IsValid,
}
use communicate_between_proc.LockFree.RingBuffer.Refine.{
  contents, try_push_refines, try_pop_refines,
}

module _ {A : Type 0} where
  unfoldable pub run : RingBuffer A → List (Op A) → List (Reply A)
  run r [] = []
  run r (put x ∷ ops) = let (done, r') = try_push x r in pushed done ∷ run r' ops
  run r (take ∷ ops) = let (value, r') = try_pop r in popped value ∷ run r' ops

  capacity-try_push : (x : A) (r : RingBuffer A) → capacity (try_push x r).1 ≡ capacity r
  unfolding try_push
  capacity-try_push x r = ground (arith, length-set r.slots r.write_idx x)

  capacity-try_pop : (r : RingBuffer A) → capacity (try_pop r).1 ≡ capacity r
  unfolding try_pop
  capacity-try_pop r = ground arith

  try_push-IsValid : (x : A) {r : RingBuffer A} → IsValid r → IsValid (try_push x r).1
  unfolding try_push
  try_push-IsValid x {r} v = try_push_from-IsValid r.write_idx x v.write_in v

  try_pop-IsValid : {r : RingBuffer A} → IsValid r → IsValid (try_pop r).1
  unfolding try_pop
  try_pop-IsValid {r} v = try_pop_from-IsValid r.read_idx v.read_in v

  -- No sequence of `try_push` and `try_pop` calls tells a valid ring buffer from the queue of its
  -- contents that is bounded by the capacity less one.
  pub ring_run_refines :
      (ops : List (Op A)) {r : RingBuffer A}
      → IsValid r
      → run r ops ≡ BoundedQueue.run (capacity r - 1) (contents r) ops
  unfolding run BoundedQueue.run
  ring_run_refines [] v = refl
  ring_run_refines (put x ∷ ops) {r} v =
      rw
        (ring_run_refines ops (try_push-IsValid x v), ← try_push_refines x v, capacity-try_push x r)
  ring_run_refines (take ∷ ops) {r} v =
      rw (ring_run_refines ops (try_pop-IsValid v), ← try_pop_refines v, capacity-try_pop r)
