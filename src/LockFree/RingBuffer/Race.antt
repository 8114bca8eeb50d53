-- ===== src/LockFree/RingBuffer/Race.antt =====
-- What the ring buffer does when another thread moves between two accesses of a call.
use communicate_between_proc.Prelude.{ℕ, suc, ◌≡◌, ◌≢◌, true, false, none, arith, get_elem?}
use communicate_between_proc.LockFree.RingBuffer.{
  RingBuffer, claim_write, try_push_from, try_pop_from, try_pop, push_from, push, pop_from, pop,
}
use communicate_between_proc.LockFree.RingBuffer.Invariant.{IsValid, count, next_idx_lem}

module _ {A : Type 0} where
  -- A `try_push` whose loaded write index is stale, and a `try_pop` whose loaded read index is, are
  -- refused and change nothing.
  pub stale_refused :
      (idx : ℕ) (x : A) (r : RingBuffer A)
      → idx ≢ r.write_idx
      → idx ≢ r.read_idx
      → (try_push_from idx x r ≡ (false, r)) × (try_pop_from idx r ≡ (none, r))
  unfolding try_push_from try_pop_from
  stale_refused idx x r h h' = (ground arith, ground arith)

  -- With whatever stale index the loops start, they end at their second exchange if no other thread
  -- moves in between, and do what a call that starts then does.
  pub retry_succeeds :
      (fuel idx : ℕ) (x : A) (r : RingBuffer A)
      → (push_from (suc (suc fuel)) idx x r ≡ push x r) × (pop_from (suc (suc fuel)) idx r ≡ pop r)
  unfolding push pop
  retry_succeeds fuel idx x r = (ground arith, ground arith)

  -- The slot is published before it is filled: on a valid empty buffer, a consumer that runs between the
  -- producer's exchange and its store pops what the slot held before, and the value is lost.
  pub pop_before_store :
      {r : RingBuffer A}
      → IsValid r
      → count r ≡ 0
      → let (won, _, claimed) = claim_write r.write_idx r in
        (won ≡ true)
        × ((try_pop claimed).0 ≡ get_elem? r.slots r.write_idx)
        × ((try_pop claimed).1.read_idx ≡ (try_pop claimed).1.write_idx)
  unfolding claim_write try_pop
  pop_before_store {r} v e =
      (ground arith, ground (arith, next_idx_lem r r.write_idx v.write_in v.small), ground arith)
