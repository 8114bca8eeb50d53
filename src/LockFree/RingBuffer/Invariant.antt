-- ===== src/LockFree/RingBuffer/Invariant.antt =====
-- The representation invariant of the ring buffer: no index out of range, no sum that wraps.
use native.Mathlib.Nat.{mod-eq_of_lt, mod_self}
use communicate_between_proc.Prelude.{
  ℕ, ◌+◌, ◌-◌, ◌^◌, ◌≤◌, ◌<◌, ◌≡◌, arith, length-set, leb, ltb, dec_lt, if◌then◌else◌,
}
use communicate_between_proc.LockFree.RingBuffer.{
  RingBuffer, capacity, next_idx, empty, full, try_push_from, try_pop_from,
}

module _ {A : Type 0} where
  -- `data_` holds at least two values (the static assertion) and fits the address space.
  pub record IsValid (r : RingBuffer A) : Type 0 where
    pub two_slots : 1 < capacity r
    pub small : capacity r ≤ 2 ^ 63
    pub read_in : r.read_idx < capacity r
    pub write_in : r.write_idx < capacity r

  -- How many values are stored.
  abbrev pub count : RingBuffer A → ℕ
  count r =
      if leb r.read_idx r.write_idx
      then r.write_idx - r.read_idx
      else capacity r - r.read_idx + r.write_idx

  pub next_idx_lem :
      (r : RingBuffer A) (idx : ℕ)
      → idx < capacity r
      → capacity r ≤ 2 ^ 63
      → next_idx r idx ≡ (if ltb (idx + 1) (capacity r) then idx + 1 else 0)
  next_idx_lem r idx h small = elim (dec_lt (idx + 1) (capacity r)) [
    | yes p ↦ ground (arith, mod-eq_of_lt p)
    | no p ↦ ground (arith, mod_self (capacity r))
  ]

  -- With whatever stale index `idx` in range a thread starts, `try_push` keeps a valid buffer valid.
  pub try_push_from-IsValid :
      (idx : ℕ) (x : A) {r : RingBuffer A}
      → idx < capacity r
      → IsValid r
      → IsValid (try_push_from idx x r).1
  unfolding try_push_from
  try_push_from-IsValid idx x {r} h v = ground (arith, length-set r.slots idx x)

  pub try_pop_from-IsValid :
      (idx : ℕ) {r : RingBuffer A} → idx < capacity r → IsValid r → IsValid (try_pop_from idx r).1
  unfolding try_pop_from
  try_pop_from-IsValid idx {r} h v = ground arith

  -- On a valid buffer `full` answers whether all slots but one are taken.
  pub full_iff : {r : RingBuffer A} → IsValid r → full r ≡ leb (capacity r) (count r + 1)
  unfolding full
  full_iff {r} v = ground (arith, next_idx_lem r r.write_idx v.write_in v.small)

  pub empty_iff : {r : RingBuffer A} → IsValid r → empty r ≡ leb (count r) 0
  unfolding empty
  empty_iff v = ground arith
