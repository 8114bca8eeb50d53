-- ===== src/AsyncLogger/Filling.antt =====
-- The message that a log call of apps/asynchronous_logger fills.
use communicate_between_proc.Prelude.{
  ℕ, ◌+◌, ◌-◌, ◌*◌, ◌≤◌, ◌<◌, ◌≡◌, refl, sym, ap, ap₂, ◌∙◌, true, some, List, [], ◌∷◌, ◌++◌,
  append_assoc, length, length-append, length-take, length-drop, length-replicate, take, drop,
  replicate, set, take-append, take-append-drop, take-length, arith, leb, ◌==◌, min,
}
use communicate_between_proc.LockFree.MessageRingBuffer.{copy_in}
use communicate_between_proc.AsyncLogger.Buffers.{
  Bytes, InputMessageBuffer, word_bytes, write, full, fill_buffer, size_of, make_message,
}

-- The bytes of values one behind the other.
abbrev pub joined : List Bytes → Bytes
joined [] = []
joined (value ∷ values) = value ++ joined values

-- Values of integers and pointers.
abbrev pub AllWords : List Bytes → Type 0
AllWords [] = Unit
AllWords (value ∷ values) = (length value ≤ word_bytes) × AllWords values

pub length-joined : (values : List Bytes) → length (joined values) ≡ size_of values
unfolding size_of
length-joined [] = refl
length-joined (v ∷ vs) = length-append v (joined vs) ∙ ap (λ n. length v + n) (length-joined vs)

set-append : (a r : Bytes) (y v : ℕ) → set (a ++ y ∷ r) (length a) v ≡ a ++ v ∷ r
set-append [] r y v = refl
set-append (x ∷ a) r y v = ap (λ l. x ∷ l) (set-append a r y v)

-- A copy into the middle.
pub copy_in-append :
    (bytes a b c : Bytes)
    → length b ≡ length bytes
    → copy_in (a ++ (b ++ c)) (length a) bytes ≡ a ++ (bytes ++ c)
unfolding copy_in
copy_in-append [] a [] c h = refl
copy_in-append [] a (y ∷ b) c h = absurd (omega (arith, h))
copy_in-append (v ∷ bytes) a [] c h = absurd (omega (arith, h))
copy_in-append (v ∷ bytes) a (y ∷ b) c h =
    ap₂ (λ m o. copy_in m o bytes)
      (set-append a (b ++ c) y v ∙ sym (append_assoc a (v ∷ []) (b ++ c)))
      (sym (length-append a (v ∷ [])))
    ∙ copy_in-append bytes (a ++ v ∷ []) b c (omega (arith, h))
    ∙ append_assoc a (v ∷ []) (bytes ++ c)

-- A copy over the start of what lies behind `a`.
pub copy_in_over :
    (bytes a c : Bytes)
    → length bytes ≤ length c
    → copy_in (a ++ c) (length a) bytes ≡ a ++ (bytes ++ drop (length bytes) c)
copy_in_over bytes a c h =
    ap (λ l. copy_in (a ++ l) (length a) bytes) (sym (take-append-drop (length bytes) c))
    ∙ copy_in-append bytes a (take (length bytes) c) (drop (length bytes) c)
        (omega (arith, length-take (length bytes) c))

abbrev filled : ℕ → Bytes → Bytes → InputMessageBuffer
filled capacity a c = record { capacity = capacity; size = length a; memory = a ++ c }

write_lem :
    (values a c : Bytes) (capacity : ℕ)
    → length a + length values ≤ capacity
    → length values ≤ length c
    → write values (filled capacity a c)
      ≡ some (filled capacity (a ++ values) (drop (length values) c))
unfolding write
write_lem values a c capacity fits h =
    let room : leb (length a + length values) capacity ≡ true = ground arith in
    let all : min (length values) (capacity - length a) ≡ length values = omega arith in
    rw
      (
        write,
        room,
        all,
        take-length values,
        copy_in_over values a c h,
        sym (append_assoc a values (drop (length values) c)),
        length-append a values,
      )
      refl

fill_buffer_lem :
    (args : List Bytes) (last a c : Bytes) (capacity : ℕ)
    → length a + size_of args + length last ≡ capacity
    → size_of args + length last ≤ length c
    → (c' : Bytes) × (fill_buffer args last (filled capacity a c)
        ≡ some (filled capacity (a ++ (joined args ++ last)) c'))
unfolding fill_buffer size_of
fill_buffer_lem [] last a c capacity e h =
    let all : full (filled capacity (a ++ last) (drop (length last) c)) ≡ true =
      ground (arith, length-append a last) in
    (
      drop (length last) c,
      rw (fill_buffer, write_lem last a c capacity (omega arith) (omega arith), all) refl,
    )
fill_buffer_lem (first ∷ rest) last a c capacity e h =
    let (c', rec) =
      fill_buffer_lem rest last (a ++ first) (drop (length first) c) capacity
        (omega (arith, length-append a first)) (omega (arith, length-drop (length first) c)) in
    (
      c',
      rw (fill_buffer, write_lem first a c capacity (omega arith) (omega arith))
          (rec
            ∙ ap (λ l. some (filled capacity l c'))
                (append_assoc a first (joined rest ++ last)
                  ∙ ap (λ l. a ++ l) (sym (append_assoc first (joined rest) last)))),
    )

abbrev pub message_of : Bytes → List Bytes → Bytes → Bytes
message_of address args format = joined (address ∷ args) ++ format

pub length-message_of :
    (address : Bytes) (args : List Bytes) (format : Bytes)
    → length address ≡ word_bytes
    → length (message_of address args format) ≡ word_bytes + size_of args + length format
length-message_of address args format e = omega (
  arith,
  e,
  length-append (joined (address ∷ args)) format,
  length-append address (joined args),
  length-joined args,
)

pub make_message_lem :
    (unit : ℕ) (address : Bytes) (args : List Bytes) (format : Bytes)
    → 0 < unit
    → length address ≡ word_bytes
    → make_message unit address args format ≡ some (message_of address args format)
unfolding make_message size_of
make_message_lem unit address args format u e =
    let size = word_bytes + size_of args + length format in
    let message = message_of address args format in
    let room : size ≤ unit * size = grind arith in
    let (spare, filled_lem) =
      fill_buffer_lem (address ∷ args) format [] (replicate (unit * size) 0) size (omega (arith, e))
        (omega (arith, e, length-replicate {A = ℕ} (unit * size) 0)) in
    let whole : (length message == size) ≡ true =
      ground (arith, length-message_of address args format e) in
    rw (make_message, filled_lem, whole, take-append message spare) refl
