-- ===== src/LockFree/Sample.antt =====
-- A platform like the one the programs run on: elements of 16 bytes, little-endian sizes.
use communicate_between_proc.Prelude.{
  ℕ, zero, suc, ◌+◌, ◌*◌, ◌/◌, ◌%◌, ◌<◌, ◌≡◌, refl, List, [], ◌∷◌, arith,
}
use communicate_between_proc.LockFree.MessageRingBuffer.{Platform}

abbrev pub little_endian : ℕ → ℕ → List ℕ
little_endian zero n = []
little_endian (suc k) n = n % 256 ∷ little_endian k (n / 256)

abbrev pub from_little_endian : List ℕ → ℕ
from_little_endian [] = 0
from_little_endian (b ∷ bs) = b + 256 * from_little_endian bs

abbrev pub bound : ℕ → ℕ
bound zero = 1
bound (suc k) = 256 * bound k

pub from_little_endian-lem : (k n : ℕ) → n < bound k → from_little_endian (little_endian k n) ≡ n
from_little_endian-lem zero n h = omega arith
from_little_endian-lem (suc k) n h = omega (arith, from_little_endian-lem k (n / 256) (omega arith))

abbrev pub x64 : Platform
x64 = record {
  sizeof_message = 16;
  encode = little_endian 8;
  decode = from_little_endian;
  sizeof_message_pos = omega arith;
  length-encode = λ n. refl;
  decode-encode = λ n h. from_little_endian-lem 8 n (omega (arith, h));
}
