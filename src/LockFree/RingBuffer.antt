-- ===== src/LockFree/RingBuffer.antt =====
-- libs/lock_free/include/lock_free/ring_buffer.hpp. `slots` is `data_`, so that its length is the
-- capacity. A method returns its result and the new buffer; `get_elem?` is `none` and `set` changes
-- nothing out of range, which `Invariant` rules out.
--
-- `try_push_from`, `push_from` and their counterparts take the index that the thread loaded at the
-- start, so that a buffer which other threads have changed since then may be given; `try_push` and
-- the others are the runs in which nobody interferes.
pub mod Invariant
pub mod Refine
pub mod Runs
pub mod Race
pub mod Turns
use communicate_between_proc.Prelude.{
  ℕ, zero, suc, ◌+◌, ◌%◌, Bool, true, false, List, Option, none, some, length, get_elem?, set,
  add_size, ◌==◌, if◌then◌else◌,
}
use communicate_between_proc.LockFree.Atomic.{compare_exchange}

pub record RingBuffer (A : Type 0) : Type 0 where
  pub slots : List A
  pub read_idx : ℕ
  pub write_idx : ℕ

module _ {A : Type 0} where
  abbrev pub capacity : RingBuffer A → ℕ
  capacity r = length r.slots

  -- (index + 1) % data_.size()
  abbrev pub next_idx : RingBuffer A → ℕ → ℕ
  next_idx r idx = add_size idx 1 % capacity r

  unfoldable pub empty : RingBuffer A → Bool
  empty r = r.read_idx == r.write_idx

  unfoldable pub full : RingBuffer A → Bool
  full r = next_idx r r.write_idx == r.read_idx

  -- The exchange on `write_idx_`, and the store into the slot that it won.
  unfoldable pub claim_write : ℕ → RingBuffer A → Bool × ℕ × RingBuffer A
  claim_write idx r =
      let (success, current, seen) = compare_exchange r.write_idx idx (next_idx r idx) in
      (success, seen, record r { write_idx = current })

  unfoldable pub store : ℕ → A → RingBuffer A → RingBuffer A
  store idx value r = record r { slots = set r.slots idx value }

  unfoldable pub claim_read : ℕ → RingBuffer A → Bool × ℕ × RingBuffer A
  claim_read idx r =
      let (success, current, seen) = compare_exchange r.read_idx idx (next_idx r idx) in
      (success, seen, record r { read_idx = current })

  unfoldable pub try_push_from : ℕ → A → RingBuffer A → Bool × RingBuffer A
  unfolding claim_write store
  try_push_from idx value r =
      if next_idx r idx == r.read_idx
      then (false, r)
      else (let (success, _, r') = claim_write idx r in
          if success then (true, store idx value r') else (false, r'))

  unfoldable pub try_push : A → RingBuffer A → Bool × RingBuffer A
  unfolding try_push_from
  try_push value r = try_push_from r.write_idx value r

  unfoldable pub try_pop_from : ℕ → RingBuffer A → Option A × RingBuffer A
  unfolding claim_read
  try_pop_from idx r =
      if idx == r.write_idx
      then (none, r)
      else (let (success, _, r') = claim_read idx r in
          if success then (get_elem? r'.slots idx, r') else (none, r'))

  unfoldable pub try_pop : RingBuffer A → Option A × RingBuffer A
  unfolding try_pop_from
  try_pop r = try_pop_from r.read_idx r

  -- The loop of `push`; `none` means that the fuel ran out. A failed exchange leaves the current
  -- index in the caller's local, with which the next round starts.
  unfoldable pub push_from : ℕ → ℕ → A → RingBuffer A → Option (RingBuffer A)
  unfolding claim_write store
  push_from zero idx value r = none
  push_from (suc fuel) idx value r =
      let (success, seen, r') = claim_write idx r in
      let again = push_from fuel seen value r' in
      if success then some (store idx value r') else again

  unfoldable pub push : A → RingBuffer A → Option (RingBuffer A)
  unfolding push_from
  push value r = push_from 2 r.write_idx value r

  -- The loop of `pop`: the value read, and the buffer.
  unfoldable pub pop_from : ℕ → ℕ → RingBuffer A → Option (Option A × RingBuffer A)
  unfolding claim_read
  pop_from zero idx r = none
  pop_from (suc fuel) idx r =
      let (success, seen, r') = claim_read idx r in
      let again = pop_from fuel seen r' in
      if success then some (get_elem? r'.slots idx, r') else again

  unfoldable pub pop : RingBuffer A → Option (Option A × RingBuffer A)
  unfolding pop_from
  pop r = pop_from 2 r.read_idx r
