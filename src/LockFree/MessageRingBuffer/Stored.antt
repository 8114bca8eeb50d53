-- ===== src/LockFree/MessageRingBuffer/Stored.antt =====
-- Messages in the memory of the message ring buffer, each behind its size.
use native.Mathlib.Nat.{mod-add-mod}
use communicate_between_proc.Prelude.{
  ℕ, ◌+◌, ◌*◌, ◌%◌, ◌^◌, ◌≤◌, ◌<◌, ◌≡◌, ◌∙◌, sym, ap, subst, List, [], ◌∷◌, ◌++◌, length, arith,
  dec_le,
}
use communicate_between_proc.LockFree.MessageRingBuffer.{
  Platform, size_bytes, write, read, write_message,
}
use communicate_between_proc.LockFree.MessageRingBuffer.Wrapping.{
  read_within, read_across, write_within, write_across,
}
use communicate_between_proc.LockFree.MessageRingBuffer.Arcs.{
  read-write_apart, read-write_self, length-write,
}

-- The elements that a message takes with its size, and those of a list of messages.
abbrev pub frame : List ℕ → ℕ
frame m = size_bytes + length m

abbrev pub total : List (List ℕ) → ℕ
total [] = 0
total (m ∷ ms) = frame m + total ms

pub total-append : (ms : List (List ℕ)) (m : List ℕ) → total (ms ++ (m ∷ [])) ≡ total ms + frame m
total-append [] m = omega arith
total-append (x ∷ ms) m = omega (arith, total-append ms m)

module _ (p : Platform) (cap : ℕ) (small : cap ≤ 2 ^ 63) where
  open p use {sizeof_message, encode, length-encode, sizeof_message_pos}

  pub idx-read :
      (mem : List ℕ) (i n : ℕ)
      → i < cap
      → n ≤ cap
      → (read sizeof_message cap mem i n).0 ≡ (i + n) % cap
  idx-read mem i n hi hn = elim (dec_le (i + n) cap) [
    | yes fits ↦ ap (λ t. t.0) (read_within sizeof_message cap small mem i n hi fits)
    | no wraps ↦ ap (λ t. t.0) (read_across sizeof_message cap small mem i n hi hn (omega arith))
  ]

  pub idx-write :
      (mem : List ℕ) (j : ℕ) (bytes : List ℕ)
      → j < cap
      → length bytes ≤ cap
      → (write sizeof_message cap mem j bytes).0 ≡ (j + length bytes) % cap
  idx-write mem j bytes hj hn = elim (dec_le (j + length bytes) cap) [
    | yes fits ↦ ap (λ t. t.0) (write_within sizeof_message cap small mem j bytes hj fits)
    | no wraps ↦
        ap (λ t. t.0) (write_across sizeof_message cap small mem j bytes hj hn (omega arith))
  ]

  -- From `a` elements after `h` on lie the messages.
  abbrev pub Stored : List ℕ → ℕ → ℕ → List (List ℕ) → Type 0
  Stored mem h a [] = Unit
  Stored mem h a (m ∷ ms) =
      ((read sizeof_message cap mem ((h + a) % cap) size_bytes).1 ≡ encode (length m))
      × ((read sizeof_message cap mem ((h + (a + size_bytes)) % cap) (length m)).1 ≡ m)
      × Stored mem h (a + frame m) ms

  pub Stored-append :
      (mem : List ℕ) (h a : ℕ) (ms : List (List ℕ)) (m : List ℕ)
      → Stored mem h a ms
      → Stored mem h (a + total ms) (m ∷ [])
      → Stored mem h a (ms ++ (m ∷ []))
  Stored-append mem h a [] m s t = subst (λ k. Stored mem h k (m ∷ [])) (omega arith) t
  Stored-append mem h a (x ∷ ms) m s t = (
    s.0,
    s.1,
    Stored-append mem h (a + frame x) ms m s.2
        (subst (λ k. Stored mem h k (m ∷ [])) (omega arith) t),
  )

  -- The same messages seen from `k` elements further on.
  pub Stored-shift :
      (mem : List ℕ) (h k a : ℕ) (ms : List (List ℕ))
      → Stored mem h (k + a) ms
      → Stored mem ((h + k) % cap) a ms
  Stored-shift mem h k a [] s = tt
  Stored-shift mem h k a (m ∷ ms) s = (
    subst (λ i. (read sizeof_message cap mem i size_bytes).1 ≡ encode (length m)) (shift a) s.0,
    subst (λ i. (read sizeof_message cap mem i (length m)).1 ≡ m)
        (ap (λ i. (h + i) % cap) (omega arith) ∙ shift (a + size_bytes)) s.1,
    Stored-shift mem h k (a + frame m) ms (subst (λ i. Stored mem h i ms) (omega arith) s.2),
  )
    where
      shift : (b : ℕ) → (h + (k + b)) % cap ≡ ((h + k) % cap + b) % cap
      shift b = rw mod-add-mod (ap (λ i. i % cap) (omega arith))

  module _ (h : ℕ) (hh : h < cap) where
    -- Writing at least `b` elements after `h` keeps the messages before.
    pub Stored-write :
        (mem : List ℕ) (a : ℕ) (ms : List (List ℕ)) (b : ℕ) (bytes : List ℕ)
        → a + total ms ≤ b
        → b < cap
        → b + length bytes ≤ cap
        → Stored mem h a ms
        → Stored (write sizeof_message cap mem ((h + b) % cap) bytes).1 h a ms
    Stored-write mem a [] b bytes q r t s = tt
    Stored-write mem a (m ∷ ms) b bytes q r t s = (
      ap (λ u. u.1)
            (read-write_apart sizeof_message cap h sizeof_message_pos small hh mem a size_bytes b
              bytes (omega arith) r t)
          ∙ s.0,
      ap (λ u. u.1)
            (read-write_apart sizeof_message cap h sizeof_message_pos small hh mem (a + size_bytes)
              (length m) b bytes (omega arith) r t)
          ∙ s.1,
      Stored-write mem (a + frame m) ms b bytes (omega arith) r t s.2,
    )

    -- The memory after the size of a message, and after the message.
    abbrev sized : List ℕ → ℕ → List ℕ → List ℕ
    sized mem b m = (write sizeof_message cap mem ((h + b) % cap) (encode (length m))).1

    abbrev pub filled : List ℕ → ℕ → List ℕ → List ℕ
    filled mem b m = (write sizeof_message cap (sized mem b m) ((h + (b + size_bytes)) % cap) m).1

    pub write_message_lem :
        (mem : List ℕ) (b : ℕ) (m : List ℕ)
        → b + frame m < cap
        → write_message p cap mem ((h + b) % cap) m ≡ ((h + (b + frame m)) % cap, filled mem b m)
    unfolding write_message
    write_message_lem mem b m r =
        ap (λ i. write sizeof_message cap (sized mem b m) i m) header
        ∙ ap (λ i. (i, filled mem b m)) body
      where
        header :
            (write sizeof_message cap mem ((h + b) % cap) (encode (length m))).0
            ≡ (h + (b + size_bytes)) % cap
        header =
            idx-write mem ((h + b) % cap) (encode (length m)) (omega arith)
              (omega (arith, length-encode (length m)))
            ∙ ap (λ n. ((h + b) % cap + n) % cap) (length-encode (length m))
            ∙ rw mod-add-mod (ap (λ i. i % cap) (omega arith))

        body :
            (write sizeof_message cap (sized mem b m) ((h + (b + size_bytes)) % cap) m).0
            ≡ (h + (b + frame m)) % cap
        body =
            idx-write (sized mem b m) ((h + (b + size_bytes)) % cap) m (omega arith) (omega arith)
            ∙ rw mod-add-mod (ap (λ i. i % cap) (omega arith))

    pub length-filled :
        (mem : List ℕ) (b : ℕ) (m : List ℕ)
        → b + frame m < cap
        → length (filled mem b m) ≡ length mem
    length-filled mem b m r =
        length-write sizeof_message cap sizeof_message_pos small (sized mem b m)
          ((h + (b + size_bytes)) % cap) m (omega arith) (omega arith)
        ∙ length-write sizeof_message cap sizeof_message_pos small mem ((h + b) % cap)
            (encode (length m)) (omega arith) (omega (arith, length-encode (length m)))

    pub Stored-filled :
        (mem : List ℕ) (ms : List (List ℕ)) (m : List ℕ)
        → length mem ≡ sizeof_message * cap
        → total ms + frame m < cap
        → Stored mem h 0 ms
        → Stored (filled mem (total ms) m) h 0 (ms ++ (m ∷ []))
    Stored-filled mem ms m e r s =
        Stored-append (filled mem b m) h 0 ms m before
          (subst (λ k. Stored (filled mem b m) h k (m ∷ [])) (omega arith) (size, body, tt))
      where
        b : ℕ
        b = total ms

        before : Stored (filled mem b m) h 0 ms
        before =
            Stored-write (sized mem b m) 0 ms (b + size_bytes) m (omega arith) (omega arith)
              (omega arith)
              (Stored-write mem 0 ms b (encode (length m)) (omega arith) (omega arith)
                (omega (arith, length-encode (length m))) s)

        size :
            (read sizeof_message cap (filled mem b m) ((h + b) % cap) size_bytes).1
            ≡ encode (length m)
        size =
            ap (λ u. u.1)
              (read-write_apart sizeof_message cap h sizeof_message_pos small hh (sized mem b m) b
                size_bytes (b + size_bytes) m (omega arith) (omega arith) (omega arith))
            ∙ ap (λ n. (read sizeof_message cap (sized mem b m) ((h + b) % cap) n).1)
                (sym (length-encode (length m)))
            ∙ read-write_self sizeof_message cap sizeof_message_pos small mem ((h + b) % cap)
                (encode (length m)) e (omega arith) (omega (arith, length-encode (length m)))

        body :
            (read sizeof_message cap (filled mem b m) ((h + (b + size_bytes)) % cap) (length m)).1
            ≡ m
        body =
            read-write_self sizeof_message cap sizeof_message_pos small (sized mem b m)
              ((h + (b + size_bytes)) % cap) m
              (length-write sizeof_message cap sizeof_message_pos small mem ((h + b) % cap)
                  (encode (length m)) (omega arith) (omega (arith, length-encode (length m)))
                ∙ e)
              (omega arith) (omega arith)
