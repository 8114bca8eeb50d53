-- ===== src/LockFree/RingBuffer/Refine.antt =====
-- A valid ring buffer behaves as the bounded queue of the values in it.
use native.Mathlib.Nat.{mod-eq_of_lt, mod-eq-sub-mod}
use communicate_between_proc.Prelude.{
  suc, ◌+◌, ◌-◌, ◌%◌, ◌<◌, ◌≡◌, ◌∙◌, ap, ap₂, List, [], ◌∷◌, ◌++◌, none, some, arith, length,
  length-set, get_elem?, set, leb, dec_lt, ℕ_discrete, if◌then◌else◌,
}
use communicate_between_proc.LockFree.BoundedQueue
use communicate_between_proc.LockFree.Circular.{
  cell, window, window-extends, length-window, exists_cell,
}
use communicate_between_proc.LockFree.RingBuffer.{
  RingBuffer, capacity, next_idx, try_push, try_pop, push, pop,
}
use communicate_between_proc.LockFree.RingBuffer.Invariant.{IsValid, count, next_idx_lem}

module _ {A : Type 0} where
  abbrev pub contents : RingBuffer A → List A
  contents r = window r.slots (capacity r) r.read_idx (count r)

  pub length-contents : {r : RingBuffer A} → IsValid r → length (contents r) ≡ count r
  length-contents {r} v =
      length-window r.slots (capacity r) r.read_idx (count r) (omega arith) v.read_in

  count-lt-capacity : {r : RingBuffer A} → IsValid r → count r < capacity r
  count-lt-capacity v = ground arith

  -- The slot that is written next lies just past the stored values.
  write_idx_lem : {r : RingBuffer A} → IsValid r → r.write_idx ≡ (r.read_idx + count r) % capacity r
  write_idx_lem {r} v = elim (dec_lt (r.read_idx + count r) (capacity r)) [
    | yes p ↦ ground (arith, mod-eq_of_lt p)
    | no p ↦ ground (
      arith,
      mod-eq-sub-mod {n = r.read_idx + count r} {m = capacity r} (omega arith),
      mod-eq_of_lt {n = r.read_idx + count r - capacity r} {m = capacity r} (ground arith),
    )
  ]

  -- The buffer after a push that won its slot, and after a pop.
  abbrev pushed : A → RingBuffer A → RingBuffer A
  pushed x r = record r { slots = set r.slots r.write_idx x; write_idx = next_idx r r.write_idx }

  abbrev popped : RingBuffer A → RingBuffer A
  popped r = record r { read_idx = next_idx r r.read_idx }

  count-pushed :
      (x : A) {r : RingBuffer A}
      → IsValid r
      → count r + 1 < capacity r
      → count (pushed x r) ≡ suc (count r)
  count-pushed x {r} v room =
      ground
        (arith, next_idx_lem r r.write_idx v.write_in v.small, length-set r.slots r.write_idx x)

  contents-pushed :
      (x : A) {r : RingBuffer A}
      → IsValid r
      → count r + 1 < capacity r
      → contents (pushed x r) ≡ contents r ++ (x ∷ [])
  contents-pushed x {r} v room =
      ap₂ (λ c n. window (set r.slots r.write_idx x) c r.read_idx n)
        (length-set r.slots r.write_idx x) (count-pushed x v room)
      ∙ ap (λ i. window (set r.slots i x) (capacity r) r.read_idx (suc (count r))) (write_idx_lem v)
      ∙ window-extends (count r) x r.slots (omega arith) v.read_in (omega arith)

  contents-overrun :
      (x : A) {r : RingBuffer A} → IsValid r → capacity r ≡ count r + 1 → contents (pushed x r) ≡ []
  contents-overrun x {r} v e = rw zero_count
    where
      zero_count : count (pushed x r) ≡ 0
      zero_count =
          ground
            (arith, next_idx_lem r r.write_idx v.write_in v.small, length-set r.slots r.write_idx x)

  count-popped : {r : RingBuffer A} → IsValid r → 0 < count r → count r ≡ suc (count (popped r))
  count-popped {r} v h = ground (arith, next_idx_lem r r.read_idx v.read_in v.small)

  step_idx : {r : RingBuffer A} → IsValid r → next_idx r r.read_idx ≡ (r.read_idx + 1) % capacity r
  step_idx {r} v = ap (λ k. k % capacity r) (omega arith)

  contents-popped :
      {r : RingBuffer A}
      → IsValid r
      → 0 < count r
      → contents r ≡ cell r.slots r.read_idx ++ contents (popped r)
  contents-popped {r} v h = rw (count-popped v h, step_idx v)

  exists_front :
      {r : RingBuffer A}
      → IsValid r
      → 0 < count r
      → (x : A) × (get_elem? r.slots r.read_idx ≡ some x) × (contents r ≡ x ∷ contents (popped r))
  exists_front {r} v h =
      let (x, e) = exists_cell r.slots r.read_idx v.read_in in
      (x, e, contents-popped v h ∙ front x e)
    where
      front :
          (x : A)
          → get_elem? r.slots r.read_idx ≡ some x
          → cell r.slots r.read_idx ++ contents (popped r) ≡ x ∷ contents (popped r)
      front x e = rw (e, cell)

  -- On a valid buffer `try_push` and `try_pop` do what a bounded queue of `capacity - 1` values does.
  pub try_push_refines :
      (x : A) {r : RingBuffer A}
      → IsValid r
      → let (done, r') = try_push x r in
        (done, contents r') ≡ BoundedQueue.push (capacity r - 1) x (contents r)
  unfolding try_push BoundedQueue.push
  try_push_refines x {r} v =
      ground (
        arith,
        next_idx_lem r r.write_idx v.write_in v.small,
        contents-pushed x v,
        length-contents v,
      )

  try_pop_of_empty : {r : RingBuffer A} → IsValid r → count r ≡ 0 → try_pop r ≡ (none, r)
  unfolding try_pop
  try_pop_of_empty {r} v e = ground arith

  try_pop_of_pos :
      {r : RingBuffer A}
      → IsValid r
      → 0 < count r
      → try_pop r ≡ (get_elem? r.slots r.read_idx, popped r)
  unfolding try_pop
  try_pop_of_pos {r} v h = ground arith

  contents_of_empty : (r : RingBuffer A) → count r ≡ 0 → contents r ≡ []
  contents_of_empty r e = ap (λ n. window r.slots (capacity r) r.read_idx n) e

  pub try_pop_refines :
      {r : RingBuffer A}
      → IsValid r
      → let (value, r') = try_pop r in (value, contents r') ≡ BoundedQueue.pop (contents r)
  unfolding BoundedQueue.pop
  try_pop_refines {r} v = elim (ℕ_discrete (count r) 0) [
    | yes e ↦ cc (try_pop_of_empty v e, contents_of_empty r e)
    | no p ↦
        let (x, here, rest) = exists_front v (omega arith) in
        cc (try_pop_of_pos v (omega arith), here, rest)
  ]

  -- On a valid buffer `push` returns, and puts the value behind what was stored; it makes no test: where
  -- all slots but one were taken it overruns the reader, and the buffer looks empty.
  pub push_refines :
      (x : A) {r : RingBuffer A}
      → IsValid r
      → (r' : RingBuffer A) × (push x r ≡ some r')
        × (contents r' ≡ (if leb (capacity r) (count r + 1) then [] else contents r ++ (x ∷ [])))
  unfolding push
  push_refines x {r} v = (
    pushed x r,
    ground arith,
    ground (arith, contents-overrun x v, contents-pushed x v, count-lt-capacity v),
  )

  -- On a valid buffer that holds something, `pop` returns the oldest value and leaves the others.
  pub pop_refines :
      {r : RingBuffer A}
      → IsValid r
      → 0 < count r
      → (x : A) × (r' : RingBuffer A) × (pop r ≡ some (some x, r')) × (contents r ≡ x ∷ contents r')
  unfolding pop
  pop_refines {r} v h = let (x, here, rest) = exists_front v h in (x, popped r, ground arith, rest)

  -- On a valid empty buffer `pop` makes no test either: it returns some value, and the buffer then
  -- looks full.
  pub pop_underrun :
      {r : RingBuffer A}
      → IsValid r
      → count r ≡ 0
      → (x : A) × (r' : RingBuffer A) × (pop r ≡ some (some x, r')) × (count r' + 1 ≡ capacity r)
  unfolding pop
  pop_underrun {r} v e =
      let (x, here) = exists_cell r.slots r.read_idx v.read_in in
      (x, popped r, ground arith, ground (arith, next_idx_lem r r.read_idx v.read_in v.small))
