-- ===== src/Kaleidoscope/Lexer.antt =====
-- apps/create_language/include/kaleidoscope/lexer.hpp. The arithmetic of `double` and the lookup in
-- the table `symbols`, a map of a container library, are parameters. A failed assertion sets the flag
-- `aborted`: the program stops there, and what the model does behind it does not count. Each loop spends
-- a unit of fuel on a round, and `none` means that the fuel ran out.
pub mod Scanning
pub mod Progress
pub mod Source
use communicate_between_proc.Prelude.{
  ℕ, zero, suc, ◌+◌, ◌-◌, ◌≡◌, Bool, true, false, not, ◌&&◌, ◌||◌, Option, none, some, List, [],
  ◌∷◌, ◌++◌, codes, ◌==◌, if◌then◌else◌,
}
use communicate_between_proc.Kaleidoscope.Characters.{
  is_space, is_digit, is_alpha, is_alnum, eof_char,
}
use communicate_between_proc.Kaleidoscope.Token.{
  Token, eof, left_parenthesis, right_parenthesis, comma, def, extern, identifier, number, unknown,
  less, plus, minus, star,
}
use communicate_between_proc.Kaleidoscope.BufferReader.{BufferReader, read, empty, remaining}

-- `double`, and `find` on the flat map of the symbols.
pub record Environment (D : Type 0) : Type 0 where
  pub literal : ℕ → D
  pub add : D → D → D
  pub multiply : D → D → D
  pub divide : D → D → D
  pub find : List (ℕ × Token D) → ℕ → Option (Token D)

unfoldable pub symbols : {D : Type 0} → List (ℕ × Token D)
symbols =
    (b'(', left_parenthesis)
    ∷ (b')', right_parenthesis)
    ∷ (b',', comma)
    ∷ (b'<', less)
    ∷ (b'+', plus)
    ∷ (b'-', minus)
    ∷ (b'*', star)
    ∷ []

-- The last character read, and the reader: what the loops of the lexer change; and whether the
-- assertion on the first digit of a number has failed.
pub record Cursor : Type 0 where
  pub last : ℕ
  pub reader : BufferReader
  pub aborted : Bool

-- reader.read(last)
abbrev pub advance : Cursor → Bool × Cursor
advance c =
    let (done, value, r) = read c.last c.reader in (done, record c { last = value; reader = r })

unfoldable pub skip_spaces : ℕ → Cursor → Option (Bool × Cursor)
skip_spaces zero c = none
skip_spaces (suc fuel) c =
    let (done, c') = advance c in
    elim (is_space c.last) [
      | true ↦ elim done [ true ↦ skip_spaces fuel c' | false ↦ some (false, c') ]
      | false ↦ some (true, c)
    ]

unfoldable pub read_identifier : ℕ → List ℕ → Cursor → Option (List ℕ × Cursor)
read_identifier zero name c = none
read_identifier (suc fuel) name c =
    let (done, c') = advance c in
    elim (done && is_alnum c'.last) [
      | true ↦ read_identifier fuel (name ++ (c'.last ∷ [])) c'
      | false ↦ some (name, c')
    ]

unfoldable pub skip_comment : ℕ → Cursor → Option Cursor
skip_comment zero c = none
skip_comment (suc fuel) c =
    let (done, c') = advance c in
    elim (done && not (c'.last == eof_char) && not (c'.last == 10) && not (c'.last == 13)) [
      | true ↦ skip_comment fuel c'
      | false ↦ some c'
    ]

-- Equality of two strings.
unfoldable pub same_text : List ℕ → List ℕ → Bool
same_text [] [] = true
same_text (x ∷ xs) (y ∷ ys) = x == y && same_text xs ys
same_text _ _ = false

-- The tests on a name that was read.
unfoldable pub keyword_or_identifier : {D : Type 0} → List ℕ → Token D
unfolding same_text
keyword_or_identifier name =
    if same_text name (codes "def")
    then def
    else if same_text name (codes "extern")
    then extern
    else identifier name

module _ {D : Type 0} (env : Environment D) where
  open env use {literal, add, multiply, divide, find}

  unfoldable pub to_digit : ℕ → D
  to_digit digit = literal (digit - b'0')

  -- The digits before the point.
  unfoldable pub read_whole : ℕ → D → Cursor → Option (D × Cursor)
  unfolding to_digit
  read_whole zero num c = none
  read_whole (suc fuel) num c =
      let (_, c') = advance c in
      elim (not (empty c.reader) && is_digit c.last) [
        | true ↦ read_whole fuel (add (multiply num (literal 10)) (to_digit c.last)) c'
        | false ↦ some (num, c)
      ]

  -- The digits behind the point.
  unfoldable pub read_fraction : ℕ → D → D → Cursor → Option (D × Cursor)
  unfolding to_digit
  read_fraction zero factor num c = none
  read_fraction (suc fuel) factor num c =
      let (_, c') = advance c in
      let factor' = divide factor (literal 10) in
      elim (not (empty c.reader) && is_digit c.last) [
        | true ↦ read_fraction fuel factor' (add num (multiply factor' (to_digit c.last))) c'
        | false ↦ some (num, c)
      ]

  -- The first digit, which is read even if it is the last character, and which must not be 0.
  unfoldable pub read_first : Cursor → D × Cursor
  unfolding to_digit
  read_first c =
      if is_digit c.last
      then (
        add (multiply (literal 0) (literal 10)) (to_digit c.last),
        record (advance c).1 { aborted = c.aborted || c.last == b'0' },
      )
      else (literal 0, c)

  unfoldable pub lex_number : ℕ → Cursor → Option (D × Cursor)
  unfolding read_first
  lex_number fuel c =
      let (first, c₁) = read_first c in
      elim (read_whole fuel first c₁) [
        | none ↦ none
        | some (num, c₂) ↦ elim (c₂.last == b'.') [
          | false ↦ some (num, c₂)
          | true ↦ read_fraction fuel (literal 1) num (advance c₂).1
        ]
      ]

  -- The end of `get_token`, for a character that starts no other token; `again` is its call of itself.
  unfoldable pub lex_other :
      ℕ
      → (Cursor → Option (Option (Token D) × Cursor))
      → Cursor
      → Option (Option (Token D) × Cursor)
  lex_other fuel again c = elim (c.last == b'#') [
    | true ↦ elim (skip_comment fuel c) [
      | none ↦ none
      | some c' ↦ elim (c'.last == eof_char) [ true ↦ some (some eof, c') | false ↦ again c' ]
    ]
    | false ↦ elim (c.last == eof_char) [
      | true ↦ some (some eof, c)
      | false ↦ some (some (unknown c.last), (advance c).1)
    ]
  ]

  -- `get_token` behind the whitespace.
  unfoldable pub lex_token :
      ℕ
      → (Cursor → Option (Option (Token D) × Cursor))
      → Cursor
      → Option (Option (Token D) × Cursor)
  unfolding lex_other
  lex_token fuel again c = elim (find symbols c.last) [
    | some token ↦ some (some token, (advance c).1)
    | none ↦ elim (is_alpha c.last) [
      | true ↦ elim (read_identifier fuel (c.last ∷ []) c) [
        | none ↦ none
        | some (name, c') ↦ some (some (keyword_or_identifier name), c')
      ]
      | false ↦ elim (is_digit c.last || c.last == b'.') [
        | true ↦ elim (lex_number fuel c) [
          | none ↦ none
          | some (value, c') ↦ some (some (number value), c')
        ]
        | false ↦ lex_other fuel again c
      ]
    ]
  ]

  -- `get_token`, on what it changes but the result: `none` inside is the result false.
  unfoldable pub get_token : ℕ → Cursor → Option (Option (Token D) × Cursor)
  get_token zero c = none
  get_token (suc fuel) c = elim (empty c.reader) [
    | true ↦ some (none, c)
    | false ↦ elim (skip_spaces (suc fuel) c) [
      | none ↦ none
      | some (found, c') ↦ elim found [
        | false ↦ some (none, c')
        | true ↦ lex_token (suc fuel) (get_token fuel) c'
      ]
    ]
  ]

pub record Lexer (D : Type 0) : Type 0 where
  pub cursor : Cursor
  pub curr_token : Token D

-- The constructor: a blank was read last, and the current token is the first alternative, `eof`.
unfoldable pub create : {D : Type 0} → BufferReader → Lexer D
create r = record { cursor = record { last = 32; reader = r; aborted = false }; curr_token = eof }

abbrev pub current_token : {D : Type 0} → Lexer D → Token D
current_token l = l.curr_token

-- The fuel is one more than the characters left; `none` leaves the lexer as it was.
unfoldable pub get_next_token : {D : Type 0} → Environment D → Lexer D → Lexer D
get_next_token env l = elim (get_token env (suc (remaining l.cursor.reader)) l.cursor) [
  | none ↦ l
  | some (found, c) ↦ elim found [
    | none ↦ record { cursor = c; curr_token = eof }
    | some token ↦ record { cursor = c; curr_token = token }
  ]
]
