-- ===== src/Unix/Permissions.antt =====
-- libs/unix/include/unix/permissions_builder.hpp. The builder is its member `mode_`, a mode_t: its bits
-- from the lowest on, so that `|=` with one of the constants of <sys/stat.h> sets one bit.
use communicate_between_proc.Prelude.{
  ℕ, ◌+◌, ◌*◌, ◌<◌, ◌≡◌, ◌∙◌, refl, sym, ap, subst, Bool, true, false, ◌||◌, some, List, [], ◌∷◌,
  length, get_elem?, set, ◌==◌, arith, get_elem?-set_self, get_elem?-set_ne, length-set, ℕ_discrete,
  replicate,
}

abbrev pub Mode : Type 0
Mode = List Bool

-- S_IRUSR is 0400, which is bit 8, and so on down to S_IXOTH, which is bit 0.
abbrev pub or_bit : ℕ → Mode → Mode
or_bit bit mode = set mode bit true

-- The constructor; a mode_t has 32 bits.
unfoldable pub no_permissions : Mode
no_permissions = replicate 32 false

unfoldable pub owner_can_read : Mode → Mode
owner_can_read mode = or_bit 8 mode

unfoldable pub owner_can_write : Mode → Mode
owner_can_write mode = or_bit 7 mode

unfoldable pub owner_can_execute : Mode → Mode
owner_can_execute mode = or_bit 6 mode

unfoldable pub group_can_read : Mode → Mode
group_can_read mode = or_bit 5 mode

unfoldable pub group_can_write : Mode → Mode
group_can_write mode = or_bit 4 mode

unfoldable pub group_can_execute : Mode → Mode
group_can_execute mode = or_bit 3 mode

unfoldable pub others_can_read : Mode → Mode
others_can_read mode = or_bit 2 mode

unfoldable pub others_can_write : Mode → Mode
others_can_write mode = or_bit 1 mode

unfoldable pub others_can_execute : Mode → Mode
others_can_execute mode = or_bit 0 mode

-- The number that `get` returns.
unfoldable pub get : Mode → ℕ
get [] = 0
get (true ∷ bits) = 1 + 2 * get bits
get (false ∷ bits) = 2 * get bits

-- The methods, by what they are named for.
pub data Who : Type 0 where
  owner group others : Who

pub data What : Type 0 where
  read_it write_it execute_it : What

unfoldable pub call : Who → What → Mode → Mode
unfolding owner_can_read owner_can_write owner_can_execute group_can_read group_can_write
    group_can_execute others_can_read others_can_write others_can_execute
call owner read_it = owner_can_read
call owner write_it = owner_can_write
call owner execute_it = owner_can_execute
call group read_it = group_can_read
call group write_it = group_can_write
call group execute_it = group_can_execute
call others read_it = others_can_read
call others write_it = others_can_write
call others execute_it = others_can_execute

-- A chain of calls on a builder.
unfoldable pub build : List (Who × What) → Mode → Mode
build [] mode = mode
build ((who, what) ∷ calls) mode = build calls (call who what mode)

-- The octal digits of a mode: three bits for each, the owner's first.
abbrev digit : Who → ℕ
digit owner = 2
digit group = 1
digit others = 0

abbrev place : What → ℕ
place read_it = 2
place write_it = 1
place execute_it = 0

abbrev pub bit_of : Who → What → ℕ
bit_of who what = 3 * digit who + place what

-- Whether a chain of calls names the permission of a bit.
abbrev pub names_bit : ℕ → List (Who × What) → Bool
names_bit j [] = false
names_bit j ((who, what) ∷ calls) = j == bit_of who what || names_bit j calls

call_lem :
    (who : Who) (what : What) (mode : Mode) → call who what mode ≡ set mode (bit_of who what) true
unfolding owner_can_read owner_can_write owner_can_execute group_can_read group_can_write
    group_can_execute others_can_read others_can_write others_can_execute call
call_lem owner read_it mode = refl
call_lem owner write_it mode = refl
call_lem owner execute_it mode = refl
call_lem group read_it mode = refl
call_lem group write_it mode = refl
call_lem group execute_it mode = refl
call_lem others read_it mode = refl
call_lem others write_it mode = refl
call_lem others execute_it mode = refl

bit_of-lt : (who : Who) (what : What) → bit_of who what < 9
bit_of-lt owner read_it = omega arith
bit_of-lt owner write_it = omega arith
bit_of-lt owner execute_it = omega arith
bit_of-lt group read_it = omega arith
bit_of-lt group write_it = omega arith
bit_of-lt group execute_it = omega arith
bit_of-lt others read_it = omega arith
bit_of-lt others write_it = omega arith
bit_of-lt others execute_it = omega arith

bit_set :
    (mode : Mode) (j k : ℕ) (b : Bool)
    → k < length mode
    → get_elem? mode j ≡ some b
    → get_elem? (set mode k true) j ≡ some (j == k || b)
bit_set mode j k b h e = elim (ℕ_discrete j k) [
  | yes same ↦
      ap (get_elem? (set mode k true)) same ∙ get_elem?-set_self mode k true h ∙ ground arith
  | no other ↦ get_elem?-set_ne mode true (λ (p : k ≡ j). other (sym p)) ∙ ground arith
]

either : (a x b : Bool) → (x || (a || b)) ≡ ((a || x) || b)
either a x b = ground arith

-- A chain of calls sets the bits of the permissions that it names, wherever and however often, and
-- keeps each other bit of a mode, which has nine bits at least.
pub grants-build :
    (calls : List (Who × What)) (j : ℕ) (mode : Mode) {b : Bool}
    → 8 < length mode
    → get_elem? mode j ≡ some b
    → get_elem? (build calls mode) j ≡ some (names_bit j calls || b)
unfolding build
grants-build [] j mode h e = e
grants-build ((who, what) ∷ calls) j mode {b} h e =
    let k : ℕ = bit_of who what in
    let called = call_lem who what mode in
    let k_in : k < length mode = omega (arith, h, bit_of-lt who what) in
    let longer : 8 < length (call who what mode) =
      subst (λ m. 8 < length m) (sym called) (omega (arith, h, length-set mode k true)) in
    let here : get_elem? (call who what mode) j ≡ some (j == k || b) =
      ap (λ m. get_elem? m j) called ∙ bit_set mode j k b k_in e in
    grants-build calls j (call who what mode) longer here
    ∙ ap some (either (j == k) (names_bit j calls) b)
