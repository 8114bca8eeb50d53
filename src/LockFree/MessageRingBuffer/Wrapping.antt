-- ===== src/LockFree/MessageRingBuffer/Wrapping.antt =====
-- `read` and `write` of the message ring buffer, with the wrap at the end of the array.
use native.Mathlib.Nat.{mod-eq_of_lt, mod-eq-sub-mod}
use communicate_between_proc.Prelude.{
  ℕ, min, ◌+◌, ◌-◌, ◌*◌, ◌%◌, ◌^◌, ◌≤◌, ◌<◌, ◌≡◌, ◌⊎◌, inl, inr, ◌∙◌, refl, sym, ap, List, [], ◌∷◌,
  ◌++◌, true, false, length, length-drop, take, drop, ltb, arith, dec_lt, add_size, sub_size,
}
use communicate_between_proc.LockFree.MessageRingBuffer.{
  copy_in, copy_out, copy_data, write_bytes, write, read_bytes, read,
}

-- The index `k` elements after `h`.
pub wrap_cases :
    (cap h k : ℕ)
    → h < cap
    → k ≤ cap
    → ((h + k < cap) × ((h + k) % cap ≡ h + k)) ⊎ ((cap ≤ h + k) × ((h + k) % cap ≡ h + k - cap))
wrap_cases cap h k hh hk = elim (dec_lt (h + k) cap) [
  | yes p ↦ inl (p, mod-eq_of_lt p)
  | no p ↦ inr (
    omega arith,
    mod-eq-sub-mod {n = h + k} {m = cap} (omega arith)
        ∙ mod-eq_of_lt {n = h + k - cap} {m = cap} (omega arith),
  )
]

take_all : (xs : List ℕ) → take (length xs) xs ≡ xs
take_all [] = refl
take_all (x ∷ xs) = ap (λ t. x ∷ t) (take_all xs)

-- A range of bytes lies within the elements that are set aside for it.
mul-le_mono : (u a b : ℕ) → a ≤ b → u * a ≤ u * b
mul-le_mono u a b h = grind arith

mul-le_mono_left : (k a b : ℕ) → a ≤ b → a * k ≤ b * k
mul-le_mono_left k a b h = grind arith

pub scale-le : (unit i k j : ℕ) → 0 < unit → i + k ≤ j → unit * i + k ≤ unit * j
scale-le unit i k j h p = omega (arith, mul-le_mono unit (i + k) j p, k-le-mul)
  where
    k-le-mul : k ≤ unit * k
    k-le-mul = omega (arith, mul-le_mono_left k 1 unit h)

module _ {S : Type 0} (cap idx n : ℕ) (copy : ℕ → ℕ → S → S) (s : S) where
  pub copy_data_within :
      cap ≤ 2 ^ 63
      → idx < cap
      → idx + n ≤ cap
      → copy_data cap idx n copy s ≡ ((idx + n) % cap, copy idx n s)
  unfolding copy_data
  copy_data_within small h k =
      let tail : min n (sub_size cap idx) ≡ n = omega arith in
      let sum : add_size idx n ≡ idx + n = omega arith in
      let test : ltb n n ≡ false = ground arith in rw (tail, test, sum)

  pub copy_data_across :
      cap ≤ 2 ^ 63
      → idx < cap
      → n ≤ cap
      → cap < idx + n
      → copy_data cap idx n copy s
        ≡ ((idx + n) % cap, copy 0 (n - (cap - idx)) (copy idx (cap - idx) s))
  unfolding copy_data
  copy_data_across small h m k =
      let tail : min n (sub_size cap idx) ≡ cap - idx = omega arith in
      let head : sub_size n (cap - idx) ≡ n - (cap - idx) = omega arith in
      let test : ltb (cap - idx) n ≡ true = ground arith in
      let last : n - (cap - idx) ≡ (idx + n) % cap = ground (arith, wrap_cases cap idx n h m) in
      rw (tail, head, test) (ap (λ i. (i, copy 0 (n - (cap - idx)) (copy idx (cap - idx) s))) last)

module _ (unit cap : ℕ) (small : cap ≤ 2 ^ 63) where
  pub read_within :
      (mem : List ℕ) (idx n : ℕ)
      → idx < cap
      → idx + n ≤ cap
      → read unit cap mem idx n ≡ ((idx + n) % cap, copy_out mem (unit * idx) n)
  unfolding read read_bytes
  read_within mem idx n h k = copy_data_within cap idx n (read_bytes unit mem) [] small h k

  pub read_across :
      (mem : List ℕ) (idx n : ℕ)
      → idx < cap
      → n ≤ cap
      → cap < idx + n
      → read unit cap mem idx n ≡ (
        (idx + n) % cap,
        copy_out mem (unit * idx) (cap - idx) ++ copy_out mem (unit * 0) (n - (cap - idx)),
      )
  unfolding read read_bytes
  read_across mem idx n h m k = copy_data_across cap idx n (read_bytes unit mem) [] small h m k

  pub write_within :
      (mem : List ℕ) (idx : ℕ) (bytes : List ℕ)
      → idx < cap
      → idx + length bytes ≤ cap
      → write unit cap mem idx bytes ≡ ((idx + length bytes) % cap, copy_in mem (unit * idx) bytes)
  unfolding write write_bytes
  write_within mem idx bytes h k =
      rw (
        copy_data_within cap idx (length bytes) (write_bytes unit) (mem, bytes) small h k,
        take_all,
      )

  pub write_across :
      (mem : List ℕ) (idx : ℕ) (bytes : List ℕ)
      → idx < cap
      → length bytes ≤ cap
      → cap < idx + length bytes
      → write unit cap mem idx bytes ≡ (
        (idx + length bytes) % cap,
        copy_in
            (copy_in mem (unit * idx) (take (cap - idx) bytes))
            (unit * 0)
            (drop (cap - idx) bytes),
      )
  unfolding write write_bytes
  write_across mem idx bytes h m k =
      let rest : take (length bytes - (cap - idx)) (drop (cap - idx) bytes)
          ≡ drop (cap - idx) bytes =
        ap (λ i. take i (drop (cap - idx) bytes)) (sym (length-drop (cap - idx) bytes))
        ∙ take_all (drop (cap - idx) bytes) in
      rw (copy_data_across cap idx (length bytes) (write_bytes unit) (mem, bytes) small h m k, rest)
