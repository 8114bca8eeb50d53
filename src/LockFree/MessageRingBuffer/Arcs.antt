-- ===== src/LockFree/MessageRingBuffer/Arcs.antt =====
-- Ranges of elements round the array that do not meet.
use communicate_between_proc.Prelude.{
  ℕ, ◌+◌, ◌-◌, ◌*◌, ◌%◌, ◌^◌, ◌≤◌, ◌<◌, ◌≡◌, ◌⊎◌, inl, inr, ◌∙◌, sym, ap, ap₂, List, ◌++◌, length,
  length-take, length-drop, take, drop, arith, dec_le, take-append-drop,
}
use communicate_between_proc.LockFree.MessageRingBuffer.{copy_in, copy_out, write, read}
use communicate_between_proc.LockFree.MessageRingBuffer.Copying.{
  length-copy_in, copy_out-copy_in-Apart, copy_out-copy_in_self,
}
use communicate_between_proc.LockFree.MessageRingBuffer.Wrapping.{
  wrap_cases, scale-le, read_within, read_across, write_within, write_across,
}

-- The `k` elements from `i` on, which do not wrap, lie off the `n` elements from `j` on, which may.
abbrev Clear : ℕ → ℕ → ℕ → ℕ → ℕ → Type 0
Clear cap i k j n =
    ((j + n ≤ cap) × ((i + k ≤ j) ⊎ (j + n ≤ i)))
    ⊎ ((cap < j + n) × (i + k ≤ j) × (j + n - cap ≤ i))

module _ (cap h a m b n : ℕ) (hh : h < cap) (p : a + m ≤ b) (r : b < cap) (q : b + n ≤ cap) where
  Clear-whole : (h + a) % cap + m ≤ cap → Clear cap ((h + a) % cap) m ((h + b) % cap) n
  Clear-whole fits = elim (wrap_cases cap h a hh (omega arith)) [
    | inl (la, ea) ↦ elim (wrap_cases cap h b hh (omega arith)) [
      | inl (lb, eb) ↦ elim (dec_le (h + b + n) cap) [
        | yes f ↦ inl (omega arith, inl (omega arith))
        | no f ↦ inr (omega arith, omega arith, omega arith)
      ]
      | inr (lb, eb) ↦ inl (omega arith, inr (omega arith))
    ]
    | inr (la, ea) ↦ elim (wrap_cases cap h b hh (omega arith)) [
      | inl (lb, eb) ↦ absurd (omega arith)
      | inr (lb, eb) ↦ inl (omega arith, inl (omega arith))
    ]
  ]

  Clear-split :
      cap < (h + a) % cap + m
      → Clear cap ((h + a) % cap) (cap - (h + a) % cap) ((h + b) % cap) n
        × Clear cap 0 (m - (cap - (h + a) % cap)) ((h + b) % cap) n
  Clear-split wraps = elim (wrap_cases cap h a hh (omega arith)) [
    | inl (la, ea) ↦ elim (wrap_cases cap h b hh (omega arith)) [
      | inl (lb, eb) ↦ absurd (omega arith)
      | inr (lb, eb) ↦ (inl (omega arith, inr (omega arith)), inl (omega arith, inl (omega arith)))
    ]
    | inr (la, ea) ↦ elim (wrap_cases cap h b hh (omega arith)) [
      | inl (lb, eb) ↦ absurd (omega arith)
      | inr (lb, eb) ↦ absurd (omega arith)
    ]
  ]

module _ (unit cap : ℕ) (pos : 0 < unit) (small : cap ≤ 2 ^ 63) where
  copy_out-write-Clear :
      (mem : List ℕ) (i k j : ℕ) (bytes : List ℕ)
      → j < cap
      → length bytes ≤ cap
      → Clear cap i k j (length bytes)
      → copy_out (write unit cap mem j bytes).1 (unit * i) k ≡ copy_out mem (unit * i) k
  copy_out-write-Clear mem i k j bytes hj hn (inl (fits, inl before)) =
      rw (write_within unit cap small mem j bytes hj fits) (
        copy_out-copy_in-Apart bytes mem (unit * i) (unit * j) k
          (inl (scale-le unit i k j pos before)))
  copy_out-write-Clear mem i k j bytes hj hn (inl (fits, inr after)) =
      rw (write_within unit cap small mem j bytes hj fits) (
        copy_out-copy_in-Apart bytes mem (unit * i) (unit * j) k
          (inr (scale-le unit j (length bytes) i pos after)))
  copy_out-write-Clear mem i k j bytes hj hn (inr (wraps, before, after)) =
      let top : ℕ = cap - j in
      rw (write_across unit cap small mem j bytes hj hn wraps) (
        copy_out-copy_in-Apart (drop top bytes) (copy_in mem (unit * j) (take top bytes)) (unit * i)
          (unit * 0) k
          (inr (
            scale-le unit 0 (length (drop top bytes)) i pos (omega (arith, length-drop top bytes))))
        ∙ copy_out-copy_in-Apart (take top bytes) mem (unit * i) (unit * j) k
            (inl (scale-le unit i k j pos before)))

module _ (unit cap h : ℕ) (pos : 0 < unit) (small : cap ≤ 2 ^ 63) (hh : h < cap) where
  -- Where the `m` elements `a` after `h` and the bytes `b` after `h` do not meet, writing the latter
  -- leaves the former as they are.
  pub read-write_apart :
      (mem : List ℕ) (a m b : ℕ) (bytes : List ℕ)
      → a + m ≤ b
      → b < cap
      → b + length bytes ≤ cap
      → read unit cap (write unit cap mem ((h + b) % cap) bytes).1 ((h + a) % cap) m
        ≡ read unit cap mem ((h + a) % cap) m
  read-write_apart mem a m b bytes p r q = elim (dec_le ((h + a) % cap + m) cap) [
    | yes fits ↦
        read_within unit cap small (write unit cap mem j bytes).1 i m hi fits
        ∙ ap (λ t. ((i + m) % cap, t))
            (copy_out-write-Clear unit cap pos small mem i m j bytes hj (omega arith)
              (Clear-whole cap h a m b (length bytes) hh p r q fits))
        ∙ sym (read_within unit cap small mem i m hi fits)
    | no wraps ↦
        let (first, second) = Clear-split cap h a m b (length bytes) hh p r q (omega arith) in
        read_across unit cap small (write unit cap mem j bytes).1 i m hi (omega arith) (omega arith)
        ∙ ap₂ (λ t u. ((i + m) % cap, t ++ u))
            (copy_out-write-Clear unit cap pos small mem i (cap - i) j bytes hj (omega arith) first)
            (copy_out-write-Clear unit cap pos small mem 0 (m - (cap - i)) j bytes hj (omega arith)
              second)
        ∙ sym (read_across unit cap small mem i m hi (omega arith) (omega arith))
  ]
    where
      i : ℕ
      i = (h + a) % cap

      j : ℕ
      j = (h + b) % cap

      hi : (h + a) % cap < cap
      hi = omega arith

      hj : (h + b) % cap < cap
      hj = omega arith

module _ (unit cap : ℕ) (pos : 0 < unit) (small : cap ≤ 2 ^ 63) where
  pub length-write :
      (mem : List ℕ) (j : ℕ) (bytes : List ℕ)
      → j < cap
      → length bytes ≤ cap
      → length (write unit cap mem j bytes).1 ≡ length mem
  length-write mem j bytes hj hn = elim (dec_le (j + length bytes) cap) [
    | yes fits ↦
        rw (write_within unit cap small mem j bytes hj fits) (length-copy_in bytes mem (unit * j))
    | no wraps ↦ rw (write_across unit cap small mem j bytes hj hn (omega arith)) (
        length-copy_in (drop (cap - j) bytes) (copy_in mem (unit * j) (take (cap - j) bytes))
          (unit * 0)
        ∙ length-copy_in (take (cap - j) bytes) mem (unit * j))
  ]

  -- What is written is read back.
  pub read-write_self :
      (mem : List ℕ) (j : ℕ) (bytes : List ℕ)
      → length mem ≡ unit * cap
      → j < cap
      → length bytes ≤ cap
      → (read unit cap (write unit cap mem j bytes).1 j (length bytes)).1 ≡ bytes
  read-write_self mem j bytes e hj hn = elim (dec_le (j + length bytes) cap) [
    | yes fits ↦
        ap (λ t. t.1)
          (read_within unit cap small (write unit cap mem j bytes).1 j (length bytes) hj fits)
        ∙ rw (write_within unit cap small mem j bytes hj fits) (
            copy_out-copy_in_self bytes mem (unit * j)
              (omega (arith, scale-le unit j (length bytes) cap pos fits)))
    | no wraps ↦
        ap (λ t. t.1)
          (read_across unit cap small (write unit cap mem j bytes).1 j (length bytes) hj hn
            (omega arith))
        ∙ rw (write_across unit cap small mem j bytes hj hn (omega arith)) (
            ap₂ ◌++◌ (top_lem (omega arith)) (bottom_lem (omega arith))
            ∙ take-append-drop (cap - j) bytes)
  ]
    where
      top : List ℕ
      top = take (cap - j) bytes

      bottom : List ℕ
      bottom = drop (cap - j) bytes

      mid : List ℕ
      mid = copy_in mem (unit * j) top

      top_lem :
          cap < j + length bytes
          → copy_out (copy_in mid (unit * 0) bottom) (unit * j) (cap - j) ≡ top
      top_lem w =
          copy_out-copy_in-Apart bottom mid (unit * j) (unit * 0) (cap - j) (
            inr
              (scale-le unit 0 (length bottom) j pos (omega (arith, length-drop (cap - j) bytes))))
          ∙ ap (copy_out mid (unit * j)) (omega (arith, length-take (cap - j) bytes))
          ∙ copy_out-copy_in_self top mem (unit * j) (
              omega (
                arith,
                scale-le unit j (length top) cap pos (omega (arith, length-take (cap - j) bytes)),
              ))

      bottom_lem :
          cap < j + length bytes
          → copy_out (copy_in mid (unit * 0) bottom) (unit * 0) (length bytes - (cap - j)) ≡ bottom
      bottom_lem w =
          ap (copy_out (copy_in mid (unit * 0) bottom) (unit * 0))
            (sym (length-drop (cap - j) bytes))
          ∙ copy_out-copy_in_self bottom mid (unit * 0) (
              omega (
                arith,
                length-copy_in top mem (unit * j),
                scale-le unit 0 (length bottom) cap pos
                    (omega (arith, length-drop (cap - j) bytes)),
              ))
