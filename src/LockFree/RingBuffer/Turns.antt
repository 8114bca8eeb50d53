-- ===== src/LockFree/RingBuffer/Turns.antt =====
-- The indices of the ring buffer as the numbers of pushes and pops so far, which may go round: push and
-- pop of libs/lock_free/include/lock_free/ring_buffer.hpp do not look whether there is room, or a value.
use native.Mathlib.Nat.{mod-eq_of_lt, mod-add-mod, mod-lt}
use communicate_between_proc.Prelude.{
  ℕ, suc, ◌+◌, ◌%◌, ◌^◌, ◌≤◌, ◌<◌, ◌≡◌, ap, ap₂, ◌∙◌, Option, none, some, length, length-set, set,
  get_elem?, ◌≢◌, ◌⊎◌, inl, inr, ℕ_discrete, arith,
}
use communicate_between_proc.LockFree.Circular.{exists_cell}
use communicate_between_proc.LockFree.RingBuffer.{
  RingBuffer, capacity, next_idx, push, pop, try_pop, claim_read, claim_write, store,
}

module _ {A : Type 0} where
  -- After so many pushes and pops on `slot_count` slots.
  pub record At (slot_count pushes pops : ℕ) (q : RingBuffer A) : Type 0 where
    pub slots : capacity q ≡ slot_count
    pub some_slot : 0 < slot_count
    pub small : slot_count ≤ 2 ^ 63
    pub write : q.write_idx ≡ pushes % slot_count
    pub read : q.read_idx ≡ pops % slot_count

  next_turn :
      (slot_count n : ℕ) (q : RingBuffer A)
      → capacity q ≡ slot_count
      → 0 < slot_count
      → slot_count ≤ 2 ^ 63
      → next_idx q (n % slot_count) ≡ suc n % slot_count
  next_turn slot_count n q e h small =
      let lt : n % slot_count < slot_count = mod-lt n h in
      ap₂ (λ i m. i % m) (mod-eq_of_lt {n = n % slot_count + 1} {m = 2 ^ 64} (omega arith)) e
      ∙ mod-add-mod n slot_count 1
      ∙ ap (λ i. i % slot_count) (omega arith)

  -- The buffer after a push that nobody interferes with, and after a pop.
  abbrev pushed : A → RingBuffer A → RingBuffer A
  pushed x q = record q { slots = set q.slots q.write_idx x; write_idx = next_idx q q.write_idx }

  abbrev popped : RingBuffer A → RingBuffer A
  popped q = record q { read_idx = next_idx q q.read_idx }

  push_lem : (x : A) (q : RingBuffer A) → push x q ≡ some (pushed x q)
  unfolding push claim_write store
  push_lem x q = ground arith

  pop_lem : (q : RingBuffer A) → pop q ≡ some (get_elem? q.slots q.read_idx, popped q)
  unfolding pop claim_read
  pop_lem q = ground arith

  pushed-At :
      (slot_count pushes pops : ℕ) (x : A) (q : RingBuffer A)
      → At slot_count pushes pops q
      → At slot_count (suc pushes) pops (pushed x q)
  pushed-At slot_count pushes pops x q a = record {
    slots = length-set q.slots q.write_idx x ∙ a.slots;
    some_slot = a.some_slot;
    small = a.small;
    write = ap (next_idx q) a.write ∙ next_turn slot_count pushes q a.slots a.some_slot a.small;
    read = a.read;
  }

  popped-At :
      (slot_count pushes pops : ℕ) (q : RingBuffer A)
      → At slot_count pushes pops q
      → At slot_count pushes (suc pops) (popped q)
  popped-At slot_count pushes pops q a = record {
    slots = a.slots;
    some_slot = a.some_slot;
    small = a.small;
    write = a.write;
    read = ap (next_idx q) a.read ∙ next_turn slot_count pops q a.slots a.some_slot a.small;
  }

  pub push-At :
      (slot_count pushes pops : ℕ) (x : A) (q : RingBuffer A)
      → At slot_count pushes pops q
      → (q' : RingBuffer A) × (push x q ≡ some q') × At slot_count (suc pushes) pops q'
  push-At slot_count pushes pops x q a =
      (pushed x q, push_lem x q, pushed-At slot_count pushes pops x q a)

  pub pop-At :
      (slot_count pushes pops : ℕ) (q : RingBuffer A)
      → At slot_count pushes pops q
      → (x : Option A) × (q' : RingBuffer A) × (pop q ≡ some (x, q'))
        × At slot_count pushes (suc pops) q'
  pop-At slot_count pushes pops q a =
      (get_elem? q.slots q.read_idx, popped q, pop_lem q, popped-At slot_count pushes pops q a)

  try_pop_lem :
      (q : RingBuffer A)
      → q.read_idx ≢ q.write_idx
      → try_pop q ≡ (get_elem? q.slots q.read_idx, popped q)
  unfolding try_pop claim_read
  try_pop_lem q h = ground arith

  try_pop_none : (q : RingBuffer A) → q.read_idx ≡ q.write_idx → try_pop q ≡ (none, q)
  unfolding try_pop claim_read
  try_pop_none q h = ground arith

  -- A try pops a value, or nothing where the indices are the same.
  pub try_pop-At :
      (slot_count pushes pops : ℕ) (q : RingBuffer A)
      → At slot_count pushes pops q
      → (try_pop q ≡ (none, q))
        ⊎ ((x : A) × (q' : RingBuffer A) × (try_pop q ≡ (some x, q'))
            × At slot_count pushes (suc pops) q')
  try_pop-At slot_count pushes pops q a = elim (ℕ_discrete q.read_idx q.write_idx) [
    | yes e ↦ inl (try_pop_none q e)
    | no n ↦
        let in_range : q.read_idx < length q.slots =
          omega (arith, a.slots, a.read, mod-lt pops a.some_slot) in
        let (x, e) = exists_cell q.slots q.read_idx in_range in
        inr (
          x,
          popped q,
          try_pop_lem q n ∙ ap (λ o. (o, popped q)) e,
          popped-At slot_count pushes pops q a,
        )
  ]
