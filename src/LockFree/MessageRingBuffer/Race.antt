-- ===== src/LockFree/MessageRingBuffer/Race.antt =====
-- What the message ring buffer does when another thread has moved since the indices were loaded.
use communicate_between_proc.Prelude.{ℕ, ◌+◌, ◌≡◌, ◌≢◌, add_size, List, leb, arith}
use communicate_between_proc.Core.{ok}
use communicate_between_proc.LockFree.MessageRingBuffer.{
  Platform, MessageRingBuffer, empty, full, try_push_from, try_pop_from,
}
use communicate_between_proc.LockFree.MessageRingBuffer.Wrapping.{wrap_cases}
use communicate_between_proc.LockFree.MessageRingBuffer.Refine.{IsValid, count}

module _ (p : Platform) where
  -- A push whose loaded write index is stale, and a pop whose loaded read index is, change nothing,
  -- whatever other index was loaded, and do not succeed.
  pub stale_message_refused :
      (idx other : ℕ) (m m' : List ℕ) (s : MessageRingBuffer)
      → idx ≢ s.write_idx
      → idx ≢ s.read_idx
      → ((try_push_from p idx other m s).1 ≡ s)
        × ((try_push_from p idx other m s).0 ≢ ok tt)
        × ((try_pop_from p idx s).1 ≡ s)
        × ((try_pop_from p idx s).0 ≢ ok m')
  unfolding try_push_from try_pop_from
  stale_message_refused idx other m m' s h h' =
      (ground arith, ground arith, ground arith, ground arith)

  -- On a valid buffer, `empty` answers whether nothing is stored, and `full` whether one element is left.
  pub empty-full_lem :
      {s : MessageRingBuffer}
      → IsValid p s
      → (empty s ≡ leb (count s) 0) × (full s ≡ leb s.capacity (count s + 1))
  unfolding empty full
  empty-full_lem {s} v = (
    ground arith,
    let next : add_size s.write_idx 1 ≡ s.write_idx + 1 = omega arith in
        ground (arith, wrap_cases s.capacity s.write_idx 1 v.write_in (omega arith)),
  )
