-- ===== src/LockFree/MessageRingBuffer/Refine.antt =====
-- The message ring buffer behaves as a queue of messages that is bounded by the elements they take.
use native.Mathlib.Nat.{mod-eq_of_lt}
use communicate_between_proc.Prelude.{
  ℕ, ◌+◌, ◌-◌, ◌*◌, ◌%◌, ◌^◌, ◌≤◌, ◌<◌, ◌≡◌, ◌∙◌, refl, sym, ap, ap₂, subst, List, [], ◌∷◌, ◌++◌,
  length, arith, leb, ◌==◌, add_size, if◌then◌else◌,
}
use communicate_between_proc.Core.{ErrorCode, ok, unexpected}
use communicate_between_proc.LockFree.MessageRingBuffer.{
  Platform, size_bytes, MessageRingBuffer, read, available, write_message, try_push, try_pop,
}
use communicate_between_proc.LockFree.MessageRingBuffer.Wrapping.{wrap_cases}
use communicate_between_proc.LockFree.MessageRingBuffer.Stored.{
  frame, total, total-append, idx-read, Stored, Stored-shift, filled, write_message_lem,
  length-filled, Stored-filled,
}

-- How many elements hold messages.
abbrev pub count : MessageRingBuffer → ℕ
count s =
    if leb s.read_idx s.write_idx
    then s.write_idx - s.read_idx
    else s.capacity - s.read_idx + s.write_idx

module _ (p : Platform) where
  -- The array fits the address space, and the indices are in range.
  pub record IsValid (s : MessageRingBuffer) : Type 0 where
    pub two_elements : 1 < s.capacity
    pub small : s.capacity ≤ 2 ^ 63
    pub allocated : length s.memory ≡ p.sizeof_message * s.capacity
    pub read_in : s.read_idx < s.capacity
    pub write_in : s.write_idx < s.capacity

  -- The buffer holds exactly these messages, oldest first.
  pub record Holds (s : MessageRingBuffer) (ms : List (List ℕ)) : Type 0 where
    pub valid : IsValid s
    pub used : count s ≡ total ms
    pub stored : Stored p s.capacity valid.small s.memory s.read_idx 0 ms

  -- `available_mem` is the number of elements not in use, less the one that stays empty.
  available_lem :
      {s : MessageRingBuffer}
      → IsValid s
      → available s.capacity s.write_idx s.read_idx + count s + 1 ≡ s.capacity
  unfolding available
  available_lem v = ground arith

  write_idx_lem :
      {s : MessageRingBuffer} → IsValid s → (s.read_idx + count s) % s.capacity ≡ s.write_idx
  write_idx_lem {s} v =
      ground (arith, wrap_cases s.capacity s.read_idx (count s) v.read_in (ground arith))

  -- The buffer after a push that had room.
  abbrev pushed : (s : MessageRingBuffer) → List ℕ → MessageRingBuffer
  pushed s m = record s {
    memory = (write_message p s.capacity s.memory s.write_idx m).1;
    write_idx = (s.write_idx + frame m) % s.capacity;
  }

  try_push_of_room :
      {s : MessageRingBuffer} (m : List ℕ)
      → IsValid s
      → count s + frame m < s.capacity
      → try_push p m s ≡ (ok tt, pushed s m)
  unfolding try_push
  try_push_of_room {s} m v h =
      let required : add_size (length m) size_bytes ≡ frame m = omega arith in
      let next : add_size s.write_idx (frame m) ≡ s.write_idx + frame m = omega arith in
      ground (arith, available_lem v)

  try_push_of_no_room :
      {s : MessageRingBuffer} (m : List ℕ)
      → IsValid s
      → length m < 2 ^ 63
      → s.capacity ≤ count s + frame m
      → try_push p m s ≡ (
        unexpected
            (if s.write_idx + 1 == s.read_idx then ErrorCode.full else ErrorCode.not_enough_space),
        s,
      )
  unfolding try_push
  try_push_of_no_room {s} m v short h =
      let required : add_size (length m) size_bytes ≡ frame m = omega arith in
      let next : add_size s.write_idx 1 ≡ s.write_idx + 1 = omega arith in
      ground (arith, available_lem v)

  Holds-pushed :
      {s : MessageRingBuffer} {ms : List (List ℕ)} (m : List ℕ)
      → Holds s ms
      → total ms + frame m < s.capacity
      → Holds (pushed s m) (ms ++ (m ∷ []))
  Holds-pushed {s} {ms} m hs h = record {
    valid = record {
      two_elements = hs.valid.two_elements;
      small = hs.valid.small;
      allocated =
          ap length mem_lem
          ∙ length-filled p s.capacity hs.valid.small s.read_idx hs.valid.read_in s.memory
              (total ms) m h
          ∙ hs.valid.allocated;
      read_in = hs.valid.read_in;
      write_in = omega arith;
    };
    used = ground (
      arith,
      total-append ms m,
      wrap_cases s.capacity s.write_idx (frame m) hs.valid.write_in (omega arith),
    );
    stored =
        subst (λ mem. Stored p s.capacity hs.valid.small mem s.read_idx 0 (ms ++ (m ∷ [])))
          (sym mem_lem)
          (Stored-filled p s.capacity hs.valid.small s.read_idx hs.valid.read_in s.memory ms m
            hs.valid.allocated h hs.stored);
  }
    where
      mem_lem :
          (pushed s m).memory
          ≡ filled p s.capacity hs.valid.small s.read_idx hs.valid.read_in s.memory (total ms) m
      mem_lem =
          ap (λ i. (write_message p s.capacity s.memory i m).1)
            (sym (write_idx_lem hs.valid) ∙ ap (λ k. (s.read_idx + k) % s.capacity) hs.used)
          ∙ ap (λ t. t.1)
              (write_message_lem p s.capacity hs.valid.small s.read_idx hs.valid.read_in s.memory
                (total ms) m h)

  -- The two reads of a pop.
  read_header :
      {s : MessageRingBuffer} {ms : List (List ℕ)} {m : List ℕ}
      → Holds s (m ∷ ms)
      → read p.sizeof_message s.capacity s.memory s.read_idx size_bytes
        ≡ ((s.read_idx + size_bytes) % s.capacity, p.encode (length m))
  read_header {s} {ms} {m} hs =
      ap₂ (λ i b. (i, b))
        (idx-read p s.capacity hs.valid.small s.memory s.read_idx size_bytes hs.valid.read_in
          (ground (arith, hs.used)))
        (subst
          (λ i. (read p.sizeof_message s.capacity s.memory i size_bytes).1 ≡ p.encode (length m))
          (ap (λ k. k % s.capacity) (omega arith) ∙ mod-eq_of_lt hs.valid.read_in) hs.stored.0)

  -- The buffer after a pop of a message.
  abbrev popped : (s : MessageRingBuffer) → List ℕ → MessageRingBuffer
  popped s m = record s { read_idx = (s.read_idx + frame m) % s.capacity }

  count_bound : {s : MessageRingBuffer} → IsValid s → count s < s.capacity
  count_bound v = ground arith

  try_pop_of_message :
      {s : MessageRingBuffer} {ms : List (List ℕ)} {m : List ℕ}
      → Holds s (m ∷ ms)
      → try_pop p s ≡ (ok m, popped s m)
  unfolding try_pop
  try_pop_of_message {s} {ms} {m} hs =
      let bound : count s < s.capacity = count_bound hs.valid in
      let size : p.decode (p.encode (length m)) ≡ length m =
        p.decode-encode (length m) (omega (arith, hs.used)) in
      let next : add_size s.read_idx (add_size size_bytes (length m)) ≡ s.read_idx + frame m =
        omega (arith, hs.used) in
      rw (read_header hs, size, next, hs.stored.1) (ground arith)

  Holds-popped :
      {s : MessageRingBuffer} {ms : List (List ℕ)} {m : List ℕ}
      → Holds s (m ∷ ms)
      → Holds (popped s m) ms
  Holds-popped {s} {ms} {m} hs = record {
    valid = record {
      two_elements = hs.valid.two_elements;
      small = hs.valid.small;
      allocated = hs.valid.allocated;
      read_in = omega arith;
      write_in = hs.valid.write_in;
    };
    used = ground (
      arith,
      hs.used,
      count_bound hs.valid,
      wrap_cases s.capacity s.read_idx (frame m) hs.valid.read_in
          (omega (arith, hs.used, count_bound hs.valid)),
    );
    stored = Stored-shift p s.capacity hs.valid.small s.memory s.read_idx (frame m) 0 ms (
        subst (λ k. Stored p s.capacity hs.valid.small s.memory s.read_idx k ms) (omega arith)
          hs.stored.2);
  }

  try_pop_of_empty :
      {s : MessageRingBuffer} → Holds s [] → try_pop p s ≡ (unexpected ErrorCode.empty, s)
  unfolding try_pop
  try_pop_of_empty {s} hs =
      let meet : s.read_idx ≡ s.write_idx = ground (arith, hs.used, hs.valid.read_in) in
      ground arith

  -- A message is pushed exactly if, with its size and one element left empty, it fits beside what is
  -- stored; a refused push changes nothing, and says `full` only where the writer stands one
  -- element before the reader.
  pub message_try_push_refines :
      {s : MessageRingBuffer} {ms : List (List ℕ)} (m : List ℕ)
      → Holds s ms
      → length m < 2 ^ 63
      → (total ms + frame m < s.capacity
          → (s' : MessageRingBuffer) × (try_push p m s ≡ (ok tt, s'))
            × Holds s' (ms ++ (m ∷ []))
            × (s'.capacity ≡ s.capacity))
        × (s.capacity ≤ total ms + frame m
            → try_push p m s ≡ (
              unexpected (
                  if s.write_idx + 1 == s.read_idx
                  then ErrorCode.full
                  else ErrorCode.not_enough_space),
              s,
            ))
  message_try_push_refines {s} {ms} m hs short = (
    λ room. (
      pushed s m,
      try_push_of_room m hs.valid (omega (arith, hs.used)),
      Holds-pushed m hs room,
      refl,
    ),
    λ none_left. try_push_of_no_room m hs.valid short (omega (arith, hs.used)),
  )

  -- A message shorter than half the address space that does not fit beside what a buffer holds, with
  -- its size and one element left empty, is refused and changes nothing; the error is `full` only
  -- where the writer stands one element before the reader.
  pub refused_push :
      {s : MessageRingBuffer} {ms : List (List ℕ)} (m : List ℕ)
      → Holds s ms
      → length m < 2 ^ 63
      → s.capacity ≤ total ms + frame m
      → try_push p m s ≡ (
        unexpected
            (if s.write_idx + 1 == s.read_idx then ErrorCode.full else ErrorCode.not_enough_space),
        s,
      )
  refused_push m hs short none_left = (message_try_push_refines m hs short).1 none_left

  -- The oldest message is popped, byte for byte; an empty buffer says so and stays as it is.
  pub message_try_pop_refines :
      {s : MessageRingBuffer} {ms : List (List ℕ)}
      → (Holds s [] → try_pop p s ≡ (unexpected ErrorCode.empty, s))
        × ((m : List ℕ)
            → Holds s (m ∷ ms)
            → (s' : MessageRingBuffer) × (try_pop p s ≡ (ok m, s'))
              × Holds s' ms
              × (s'.capacity ≡ s.capacity))
  message_try_pop_refines {s} {ms} = (
    λ hs. try_pop_of_empty hs,
    λ m hs. (popped s m, try_pop_of_message hs, Holds-popped hs, refl),
  )
