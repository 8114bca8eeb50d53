-- ===== src/AsyncLogger/Buffers.antt =====
-- The message buffers of apps/asynchronous_logger/src/main.cpp. A value is the bytes of its object
-- representation. The machine is little-endian: of a std::size_t, the conversion to an integer of `width`
-- bytes keeps the first `width` bytes, and so does the one of an address; the conversion to a floating
-- point number of `width` bytes, `to_floating`, is a parameter. `unit` is the size of a message_t in
-- bytes; `none` is an assertion that fails.
use communicate_between_proc.Prelude.{
  ℕ, min, ◌+◌, ◌-◌, ◌*◌, Bool, false, not, ◌||◌, Option, none, some, List, [], ◌∷◌, ◌++◌, length,
  take, drop, replicate, leb, ltb, ◌==◌, if◌then◌else◌,
}
use communicate_between_proc.LockFree.MessageRingBuffer.{copy_in}

abbrev pub Bytes : Type 0
Bytes = List ℕ

-- `memory` is the bytes of the vector's elements, of which there are `size`.
pub record OutputMessageBuffer : Type 0 where
  pub memory : Bytes
  pub size : ℕ
  pub read_count : ℕ

-- sizeof(std::size_t)
abbrev pub word_bytes : ℕ
word_bytes = 8

-- The types of the values, by what a std::size_t is converted to; an address counts as an integer.
pub data ValueType : Type 0 where
  integer floating : ℕ → ValueType
  boolean : ValueType

abbrev pub width_of : ValueType → ℕ
width_of (integer width) = width
width_of (floating width) = width
width_of boolean = 1

abbrev any_set : Bytes → Bool
any_set [] = false
any_set (byte ∷ bytes) = not (byte == 0) || any_set bytes

unfoldable pub converted : (ℕ → Bytes → Bytes) → ValueType → Bytes → Bytes
converted to_floating (integer width) word = take width word
converted to_floating (floating width) word = to_floating width word
converted to_floating boolean word = (if any_set word then 1 else 0) ∷ []

-- read<Value>(): a std::size_t is loaded, and converted to the Value.
unfoldable pub read_value :
    (ℕ → Bytes → Bytes) → ValueType → OutputMessageBuffer → Option (Bytes × OutputMessageBuffer)
unfolding converted
read_value to_floating type b =
    let word = take word_bytes (drop b.read_count b.memory) in
    if leb (width_of type) (b.size - b.read_count)
    then some
        (converted to_floating type word, record b { read_count = b.read_count + width_of type })
    else none

-- read<char>(size): the bytes from where the span starts to the end of the memory, and its size.
unfoldable pub read_span : ℕ → OutputMessageBuffer → Option (Bytes × ℕ × OutputMessageBuffer)
read_span count b =
    if leb count (b.size - b.read_count)
    then some (drop b.read_count b.memory, count, record b { read_count = b.read_count + count })
    else none

unfoldable pub all_read : OutputMessageBuffer → Bool
all_read b = b.read_count == b.size

unfoldable pub remaining : OutputMessageBuffer → Option ℕ
remaining b = if ltb b.read_count b.size then some (b.size - b.read_count) else none

unfoldable pub reset : OutputMessageBuffer → OutputMessageBuffer
reset b = record b { read_count = 0 }

-- message.resize(msg_size): new elements are zero.
unfoldable pub resize : ℕ → ℕ → Bytes → Bytes
resize unit count memory = take (unit * count) (memory ++ replicate (unit * count) 0)

-- What try_pop leaves in the buffer whose vector it is given: the message lies in its first bytes.
unfoldable pub receive : ℕ → Bytes → OutputMessageBuffer → OutputMessageBuffer
unfolding resize
receive unit message b = record b {
  memory = copy_in (resize unit (length message) b.memory) 0 message;
  size = length message;
}

-- input_message_buffer<Capacity>; `memory` is the bytes of its array.
pub record InputMessageBuffer : Type 0 where
  pub capacity : ℕ
  pub size : ℕ
  pub memory : Bytes

-- write and write_impl, for the bytes of the values.
unfoldable pub write : Bytes → InputMessageBuffer → Option InputMessageBuffer
write values b =
    let min_size = min (length values) (b.capacity - b.size) in
    if leb (b.size + length values) b.capacity
    then some (record b {
      memory = copy_in b.memory b.size (take min_size values);
      size = b.size + min_size;
    })
    else none

unfoldable pub full : InputMessageBuffer → Bool
full b = b.size == b.capacity

-- span(): the message that is pushed, as many bytes as it has elements.
unfoldable pub span : InputMessageBuffer → Bytes
span b = take b.size b.memory

-- fill_buffer(buffer, first, rest...), for `last` behind the others.
unfoldable pub fill_buffer : List Bytes → Bytes → InputMessageBuffer → Option InputMessageBuffer
unfolding write full
fill_buffer [] last b = elim (write last b) [
  | none ↦ none
  | some b' ↦ if full b' then some b' else none
]
fill_buffer (first ∷ rest) last b = elim (write first b) [
  | none ↦ none
  | some b' ↦ fill_buffer rest last b'
]

-- size_of<Values...>()
unfoldable pub size_of : List Bytes → ℕ
size_of [] = 0
size_of (value ∷ values) = length value + size_of values

-- The message of log(format, args...), for the address of format_message<Args...>.
unfoldable pub make_message : ℕ → Bytes → List Bytes → Bytes → Option Bytes
unfolding fill_buffer size_of span
make_message unit address args format =
    let message_size = word_bytes + size_of args + length format in
    let empty : InputMessageBuffer = record {
      capacity = message_size;
      size = 0;
      memory = replicate (unit * message_size) 0;
    } in
    elim (fill_buffer (address ∷ args) format empty) [
      | none ↦ none
      | some b ↦ if b.size == message_size then some (span b) else none
    ]

-- read_values, for values of these types.
unfoldable pub read_values :
    (ℕ → Bytes → Bytes)
    → List ValueType
    → OutputMessageBuffer
    → Option (List Bytes × OutputMessageBuffer)
unfolding read_value
read_values to_floating [] b = some ([], b)
read_values to_floating (type ∷ types) b = elim (read_value to_floating type b) [
  | none ↦ none
  | some (value, b') ↦ elim (read_values to_floating types b') [
    | none ↦ none
    | some (values, b'') ↦ some (value ∷ values, b'')
  ]
]

-- The string that printf finds at an address: the bytes up to a zero. `none` is a string that does not end in
-- the memory.
unfoldable pub c_string : Bytes → Option Bytes
c_string [] = none
c_string (byte ∷ bytes) = elim (c_string bytes) [
  | none ↦ if byte == 0 then some [] else none
  | some text ↦ some (if byte == 0 then [] else byte ∷ text)
]

-- format_message<Values...>: the values and the format that it hands to printf.
unfoldable pub format_message :
    (ℕ → Bytes → Bytes) → List ValueType → OutputMessageBuffer → Option (List Bytes × Option Bytes)
unfolding read_values remaining read_span c_string
format_message to_floating types message = elim (read_values to_floating types message) [
  | none ↦ none
  | some (values, b) ↦ elim (remaining b) [
    | none ↦ none
    | some count ↦ elim (read_span count b) [
      | none ↦ none
      | some (format, size, b') ↦ some (values, c_string format)
    ]
  ]
]

-- What a writer does with a popped message: the address of the function, and what that function does with the
-- types of its values.
unfoldable pub consume :
    (ℕ → Bytes → Bytes)
    → ℕ
    → List ValueType
    → Bytes
    → OutputMessageBuffer
    → Option (Bytes × List Bytes × Option Bytes)
consume to_floating unit types message b =
    elim (read_value to_floating (integer word_bytes) (receive unit message (reset b))) [
      | none ↦ none
      | some (address, b') ↦ elim (format_message to_floating types b') [
        | none ↦ none
        | some (values, format) ↦ some (address, values, format)
      ]
    ]
