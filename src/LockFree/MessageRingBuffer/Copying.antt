-- ===== src/LockFree/MessageRingBuffer/Copying.antt =====
-- What the copies of the message ring buffer read back.

use communicate_between_proc.Prelude.{
  ℕ, zero, suc, ◌+◌, ◌≤◌, ◌<◌, ◌≡◌, ◌⊎◌, inl, inr, ◌∙◌, refl, sym, ap, ap₂, List, [], ◌∷◌, ◌++◌,
  length, length-set, take, drop, set, arith,
}
use communicate_between_proc.LockFree.MessageRingBuffer.{copy_in, copy_out}

drop-set_lt : (mem : List ℕ) (off i v : ℕ) → i < off → drop off (set mem i v) ≡ drop off mem
drop-set_lt mem zero i v h = elim h [ ]
drop-set_lt [] (suc off) i v h = refl
drop-set_lt (x ∷ mem) (suc off) zero v h = refl
drop-set_lt (x ∷ mem) (suc off) (suc i) v h = drop-set_lt mem off i v (omega arith)

take-set_ge : (mem : List ℕ) (n i v : ℕ) → n ≤ i → take n (set mem i v) ≡ take n mem
take-set_ge mem zero i v h = refl
take-set_ge [] (suc n) i v h = refl
take-set_ge (x ∷ mem) (suc n) zero v h = absurd (omega arith)
take-set_ge (x ∷ mem) (suc n) (suc i) v h = ap (λ t. x ∷ t) (take-set_ge mem n i v (omega arith))

take-drop-set_ge :
    (mem : List ℕ) (off n i v : ℕ)
    → off + n ≤ i
    → take n (drop off (set mem i v)) ≡ take n (drop off mem)
take-drop-set_ge mem zero n i v h = take-set_ge mem n i v (omega arith)
take-drop-set_ge [] (suc off) n i v h = refl
take-drop-set_ge (x ∷ mem) (suc off) n zero v h = absurd (omega arith)
take-drop-set_ge (x ∷ mem) (suc off) n (suc i) v h = take-drop-set_ge mem off n i v (omega arith)

-- Two ranges of bytes that do not meet.
abbrev pub Apart : ℕ → ℕ → ℕ → ℕ → Type 0
Apart off n off' n' = (off + n ≤ off') ⊎ (off' + n' ≤ off)

copy_out-set :
    (mem : List ℕ) (off n i v : ℕ)
    → (off + n ≤ i) ⊎ (i < off)
    → copy_out (set mem i v) off n ≡ copy_out mem off n
unfolding copy_out
copy_out-set mem off n i v (inl h) = take-drop-set_ge mem off n i v h
copy_out-set mem off n i v (inr h) = ap (take n) (drop-set_lt mem off i v h)

pub length-copy_in : (bytes mem : List ℕ) (off : ℕ) → length (copy_in mem off bytes) ≡ length mem
unfolding copy_in
length-copy_in [] mem off = refl
length-copy_in (b ∷ bytes) mem off =
    length-copy_in bytes (set mem off b) (off + 1) ∙ length-set mem off b

-- A copy changes nothing outside its range.
pub copy_out-copy_in-Apart :
    (bytes mem : List ℕ) (off off' n : ℕ)
    → Apart off n off' (length bytes)
    → copy_out (copy_in mem off' bytes) off n ≡ copy_out mem off n
unfolding copy_in
copy_out-copy_in-Apart [] mem off off' n h = refl
copy_out-copy_in-Apart (b ∷ bytes) mem off off' n (inl h) =
    copy_out-copy_in-Apart bytes (set mem off' b) off (off' + 1) n (inl (omega arith))
    ∙ copy_out-set mem off n off' b (inl (omega arith))
copy_out-copy_in-Apart (b ∷ bytes) mem off off' n (inr h) =
    copy_out-copy_in-Apart bytes (set mem off' b) off (off' + 1) n (inr (omega arith))
    ∙ copy_out-set mem off n off' b (inr (omega arith))

copy_out-cons :
    (mem : List ℕ) (off n v : ℕ)
    → off < length mem
    → copy_out (set mem off v) off (suc n) ≡ v ∷ copy_out mem (suc off) n
unfolding copy_out
copy_out-cons [] off n v h = absurd (omega arith)
copy_out-cons (x ∷ mem) zero n v h = refl
copy_out-cons (x ∷ mem) (suc off) n v h = copy_out-cons mem off n v (omega arith)

copy_out-first :
    (mem : List ℕ) (off n : ℕ)
    → copy_out mem off (suc n) ≡ copy_out mem off 1 ++ copy_out mem (suc off) n
unfolding copy_out
copy_out-first [] zero zero = refl
copy_out-first [] zero (suc n) = refl
copy_out-first [] (suc off) zero = refl
copy_out-first [] (suc off) (suc n) = refl
copy_out-first (x ∷ mem) zero n = refl
copy_out-first (x ∷ mem) (suc off) n = copy_out-first mem off n

copy_out_none : (mem : List ℕ) (off : ℕ) → copy_out mem off 0 ≡ []
unfolding copy_out
copy_out_none mem off = refl

-- What is copied in is read back.
pub copy_out-copy_in_self :
    (bytes mem : List ℕ) (off : ℕ)
    → off + length bytes ≤ length mem
    → copy_out (copy_in mem off bytes) off (length bytes) ≡ bytes
unfolding copy_in
copy_out-copy_in_self [] mem off h = copy_out_none mem off
copy_out-copy_in_self (b ∷ bytes) mem off h =
    let mem' : List ℕ = copy_in (set mem off b) (off + 1) bytes in
    let here : copy_out mem' off 1 ≡ b ∷ [] =
      copy_out-copy_in-Apart bytes (set mem off b) off (off + 1) 1 (inl (omega arith))
      ∙ copy_out-cons mem off 0 b (omega arith)
      ∙ ap (λ t. b ∷ t) (copy_out_none mem (suc off)) in
    let next : off + 1 ≡ suc off = omega arith in
    let there : copy_out mem' (suc off) (length bytes) ≡ bytes =
      ap (λ k. copy_out mem' k (length bytes)) (sym next)
      ∙ copy_out-copy_in_self bytes (set mem off b) (off + 1)
          (omega (arith, length-set mem off b)) in
    copy_out-first mem' off (length bytes) ∙ ap₂ ◌++◌ here there
