-- ===== src/LockFree/MessageRingBuffer.antt =====
-- libs/lock_free/include/lock_free/message_ring_buffer.hpp. `memory` is the bytes of `buffer_`, an array
-- of `capacity` elements of type `message_t`; a byte is a number that is only moved. `message_t` is an
-- aligned storage, so that an element may take more than one byte: indices count elements, and each
-- copy moves consecutive bytes from the start of an element. The size of an element and how a
-- `std::size_t` lies in its eight bytes are the platform's, a parameter. A message is the
-- bytes that are copied out of the caller's span, as many as the span has elements.
--
-- `try_push_from` and `try_pop_from` take the indices that the thread loaded at the start, so that a
-- buffer which other threads have changed since then may be given; `try_push` and `try_pop` are the
-- runs in which nobody interferes.
pub mod Copying
pub mod Wrapping
pub mod Arcs
pub mod Stored
pub mod Refine
pub mod Runs
pub mod Race
use communicate_between_proc.Prelude.{
  ℕ, zero, suc, min, ◌+◌, ◌*◌, ◌%◌, ◌^◌, ◌<◌, ◌≡◌, Bool, true, false, List, [], ◌∷◌, ◌++◌, length,
  take, drop, set, add_size, sub_size, ltb, leb, ◌==◌, if◌then◌else◌,
}
use communicate_between_proc.Core.{ErrorCode, Expected, ok, unexpected}
use communicate_between_proc.LockFree.Atomic.{compare_exchange}

-- sizeof(std::size_t)
abbrev pub size_bytes : ℕ
size_bytes = 8

-- sizeof(message_t), and the object representation of a `std::size_t`.
pub record Platform : Type 0 where
  pub sizeof_message : ℕ
  pub encode : ℕ → List ℕ
  pub decode : List ℕ → ℕ
  pub sizeof_message_pos : 0 < sizeof_message
  pub length-encode : (n : ℕ) → length (encode n) ≡ size_bytes
  pub decode-encode : (n : ℕ) → n < 2 ^ 64 → decode (encode n) ≡ n

pub record MessageRingBuffer : Type 0 where
  pub memory : List ℕ
  pub capacity : ℕ
  pub read_idx : ℕ
  pub write_idx : ℕ

unfoldable pub required_message_storage : ℕ → ℕ
required_message_storage message_size = add_size size_bytes message_size

-- memcpy into the array, and out of it, at an offset in bytes.
unfoldable pub copy_in : List ℕ → ℕ → List ℕ → List ℕ
copy_in memory offset [] = memory
copy_in memory offset (b ∷ bytes) = copy_in (set memory offset b) (offset + 1) bytes

unfoldable pub copy_out : List ℕ → ℕ → ℕ → List ℕ
copy_out memory offset size = take size (drop offset memory)

-- `copy` is the callback, over the state that it changes; the result has the final index.
unfoldable pub copy_data : {S : Type 0} → ℕ → ℕ → ℕ → (ℕ → ℕ → S → S) → S → ℕ × S
copy_data capacity buffer_idx count copy s =
    let tail_size = min count (sub_size capacity buffer_idx) in
    let s' = copy buffer_idx tail_size s in
    let head_size = sub_size count tail_size in
    if ltb tail_size count
    then (head_size, copy 0 head_size s')
    else (add_size buffer_idx tail_size % capacity, s')

module _ (unit : ℕ) where
  -- The callback of `write` also advances the pointer `output`, here the bytes not yet written.
  unfoldable pub write_bytes : ℕ → ℕ → List ℕ × List ℕ → List ℕ × List ℕ
  unfolding copy_in
  write_bytes idx size (memory, output) =
      (copy_in memory (unit * idx) (take size output), drop size output)

  -- The index after the bytes, and the memory.
  unfoldable pub write : ℕ → List ℕ → ℕ → List ℕ → ℕ × List ℕ
  unfolding copy_data write_bytes
  write capacity memory write_idx bytes =
      let (idx, (memory', _)) =
        copy_data capacity write_idx (length bytes) write_bytes (memory, bytes) in
      (idx, memory')

  -- The bytes read so far are those before the pointer `input`.
  unfoldable pub read_bytes : List ℕ → ℕ → ℕ → List ℕ → List ℕ
  unfolding copy_out
  read_bytes memory idx size bytes = bytes ++ copy_out memory (unit * idx) size

  unfoldable pub read : ℕ → List ℕ → ℕ → ℕ → ℕ × List ℕ
  unfolding copy_data read_bytes
  read capacity memory read_idx count = copy_data capacity read_idx count (read_bytes memory) []

unfoldable pub empty : MessageRingBuffer → Bool
empty s = s.read_idx == s.write_idx

unfoldable pub full : MessageRingBuffer → Bool
full s = add_size s.write_idx 1 % s.capacity == s.read_idx

-- `available_mem`, for the loaded indices.
unfoldable pub available : ℕ → ℕ → ℕ → ℕ
available size write_idx read_idx =
    if leb read_idx write_idx
    then sub_size (add_size (sub_size size write_idx) read_idx) 1
    else sub_size (sub_size read_idx write_idx) 1

module _ (platform : Platform) where
  open platform use {sizeof_message, encode, decode}

  -- The size and then the message, from index `idx` on: the index after them, and the memory.
  unfoldable pub write_message : ℕ → List ℕ → ℕ → List ℕ → ℕ × List ℕ
  write_message capacity memory idx message =
      let (idx', memory') = write sizeof_message capacity memory idx (encode (length message)) in
      write sizeof_message capacity memory' idx' message

  unfoldable pub try_push_from :
      ℕ → ℕ → List ℕ → MessageRingBuffer → Expected (Unit {0}) × MessageRingBuffer
  unfolding available
  try_push_from write_idx read_idx message s =
      let required_mem = add_size (length message) size_bytes in
      let next_write_idx = add_size write_idx required_mem % s.capacity in
      let (success, current, _) = compare_exchange s.write_idx write_idx next_write_idx in
      let (_, memory) = write_message s.capacity s.memory write_idx message in
      if add_size write_idx 1 == read_idx
      then (unexpected ErrorCode.full, s)
      else if ltb (available s.capacity write_idx read_idx) required_mem
      then (unexpected ErrorCode.not_enough_space, s)
      else if success
      then (ok tt, record s { memory = memory; write_idx = current })
      else (unexpected ErrorCode.again, record s { write_idx = current })

  unfoldable pub try_push : List ℕ → MessageRingBuffer → Expected (Unit {0}) × MessageRingBuffer
  unfolding try_push_from
  try_push message s = try_push_from s.write_idx s.read_idx message s

  unfoldable pub try_pop_from : ℕ → MessageRingBuffer → Expected (List ℕ) × MessageRingBuffer
  try_pop_from read_idx s =
      let (msg_read_idx, header) = read sizeof_message s.capacity s.memory read_idx size_bytes in
      let msg_size = decode header in
      let next_read_idx = add_size read_idx (add_size size_bytes msg_size) % s.capacity in
      let (success, current, _) = compare_exchange s.read_idx read_idx next_read_idx in
      let (_, message) = read sizeof_message s.capacity s.memory msg_read_idx msg_size in
      if read_idx == s.write_idx
      then (unexpected ErrorCode.empty, s)
      else if ltb s.capacity msg_size
      then (unexpected ErrorCode.again, s)
      else if success
      then (ok message, record s { read_idx = current })
      else (unexpected ErrorCode.again, record s { read_idx = current })

  unfoldable pub try_pop : MessageRingBuffer → Expected (List ℕ) × MessageRingBuffer
  unfolding try_pop_from
  try_pop s = try_pop_from s.read_idx s
