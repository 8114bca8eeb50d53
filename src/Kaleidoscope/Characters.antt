-- ===== src/Kaleidoscope/Characters.antt =====
-- The character classes of <ctype.h> in the C locale, which the lexer asks for.
use communicate_between_proc.Prelude.{ℕ, Bool, ◌&&◌, ◌||◌, leb, ◌==◌}

unfoldable pub is_space : ℕ → Bool
is_space c = c == 32 || leb 9 c && leb c 13

unfoldable pub is_digit : ℕ → Bool
is_digit c = leb b'0' c && leb c b'9'

unfoldable pub is_alpha : ℕ → Bool
is_alpha c = leb b'a' c && leb c b'z' || leb b'A' c && leb c b'Z'

unfoldable pub is_alnum : ℕ → Bool
unfolding is_alpha is_digit
is_alnum c = is_alpha c || is_digit c

-- EOF as the signed `char` of code -1.
abbrev pub eof_char : ℕ
eof_char = 255
