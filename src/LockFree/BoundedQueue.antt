-- ===== src/LockFree/BoundedQueue.antt =====
-- What a bounded buffer promises: a queue, oldest first, of at most `cap` values. It models no code;
-- the ring buffers are proved against it.
use communicate_between_proc.Prelude.{
  ℕ, Bool, true, false, Option, none, some, List, [], ◌∷◌, ◌++◌, leb, length, if◌then◌else◌,
}

pub data Op (A : Type 0) : Type 0 where
  put : A → Op A
  take : Op A

pub data Reply (A : Type 0) : Type 0 where
  pushed : Bool → Reply A
  popped : Option A → Reply A

module _ {A : Type 0} where
  unfoldable pub push : ℕ → A → List A → Bool × List A
  push cap x q = if leb cap (length q) then (false, q) else (true, q ++ (x ∷ []))

  unfoldable pub pop : List A → Option A × List A
  pop [] = (none, [])
  pop (x ∷ q) = (some x, q)

  -- The calls of a client one after another, with what each returns.
  unfoldable pub run : ℕ → List A → List (Op A) → List (Reply A)
  run cap q [] = []
  run cap q (put x ∷ ops) = let (done, q') = push cap x q in pushed done ∷ run cap q' ops
  run cap q (take ∷ ops) = let (value, q') = pop q in popped value ∷ run cap q' ops
