-- ===== src/Kaleidoscope/BufferReader.antt =====
-- apps/create_language/include/kaleidoscope/buffer_reader.hpp. `read` returns whether it read, the
-- variable afterwards, and the reader.
use communicate_between_proc.Prelude.{
  ℕ, ◌+◌, ◌-◌, ◌≤◌, ◌≡◌, Bool, true, false, List, arith, length, get_or, ◌==◌, if◌then◌else◌,
}

pub record BufferReader : Type 0 where
  pub buffer : List ℕ
  pub index : ℕ

unfoldable pub read : ℕ → BufferReader → Bool × ℕ × BufferReader
read value r =
    if r.index == length r.buffer
    then (false, value, r)
    else (true, get_or r.buffer r.index value, record r { index = r.index + 1 })

unfoldable pub empty : BufferReader → Bool
empty r = r.index == length r.buffer

unfoldable pub reset : BufferReader → BufferReader
reset r = record r { index = 0 }

-- How many characters are left.
abbrev pub remaining : BufferReader → ℕ
remaining r = length r.buffer - r.index

-- A reader made by the constructor, or moved on by `read`.
abbrev pub IsValid : BufferReader → Type 0
IsValid r = r.index ≤ length r.buffer

-- `read` gives the next character and moves on by one, and at the end changes nothing.
pub read_lem :
    (value : ℕ) {r : BufferReader}
    → IsValid r
    → let (done, value', r') = read value r in
      IsValid r'
      × (r'.buffer ≡ r.buffer)
      × (done ≡ true → remaining r ≡ remaining r' + 1)
      × (done ≡ false → (value' ≡ value) × (r' ≡ r) × (remaining r ≡ 0))
unfolding read
read_lem value v = ground arith
