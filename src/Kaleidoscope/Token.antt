-- ===== src/Kaleidoscope/Token.antt =====
-- apps/create_language/include/kaleidoscope/token.hpp and token_formatter.hpp. A character is its
-- code; EOF, which the program stores in a `char`, is 255 there (`char` is signed). `D` is `double`.
use communicate_between_proc.Prelude.{ℕ, Bool, true, false, List, [], ◌∷◌, ◌++◌, codes}

pub data Token (D : Type 0) : Type 0 where
  eof left_parenthesis right_parenthesis comma : Token D
  def extern : Token D
  identifier : List ℕ → Token D
  number : D → Token D
  unknown : ℕ → Token D
  less plus minus star : Token D

-- std::formatter<token_t>; how a number is formatted is the library's, a parameter.
unfoldable pub format : {D : Type 0} → (D → List ℕ) → Token D → List ℕ
format number_text eof = codes "[eof]"
format number_text left_parenthesis = codes "[left parenthesis]: " ++ codes "("
format number_text right_parenthesis = codes "[right parenthesis]: " ++ codes ")"
format number_text comma = codes "[comma]: " ++ codes ","
format number_text def = codes "[def]"
format number_text extern = codes "[extern]"
format number_text (identifier name) = codes "[identifier]: " ++ name
format number_text (number d) = codes "[number]: " ++ number_text d
format number_text (unknown c) = codes "[unknown]: " ++ (c ∷ [])
format number_text less = codes "[less]: " ++ codes "<"
format number_text plus = codes "[plus]: " ++ codes "+"
format number_text minus = codes "[minus]: " ++ codes "-"
format number_text star = codes "[star]: " ++ codes "*"

abbrev pub is_eof : {D : Type 0} → Token D → Bool
is_eof eof = true
is_eof _ = false

abbrev pub is_left_parenthesis : {D : Type 0} → Token D → Bool
is_left_parenthesis left_parenthesis = true
is_left_parenthesis _ = false

abbrev pub is_right_parenthesis : {D : Type 0} → Token D → Bool
is_right_parenthesis right_parenthesis = true
is_right_parenthesis _ = false

abbrev pub is_comma : {D : Type 0} → Token D → Bool
is_comma comma = true
is_comma _ = false
