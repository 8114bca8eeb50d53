-- ===== src/Kaleidoscope/Lexer/Source.antt =====
-- The lexer as what the parser reads from, with the characters that are left as its measure.
use communicate_between_proc.Prelude.{
  ℕ, suc, ◌+◌, ◌≤◌, ◌<◌, ◌≡◌, refl, sym, subst, ◌∙◌, false, List, Option, none, some, arith, dec_lt,
  Bool-cases, inl, inr, if◌then◌else◌,
}
use communicate_between_proc.Kaleidoscope.Token.{Token, eof, is_eof}
use communicate_between_proc.Kaleidoscope.BufferReader.{empty, IsValid}
use communicate_between_proc.Kaleidoscope.Lexer.{
  Environment, Cursor, Lexer, create, get_token, get_next_token,
}
use communicate_between_proc.Kaleidoscope.Lexer.Progress.{Lexed, get_token_total}
use communicate_between_proc.Kaleidoscope.Lexer.Scanning.{left, Clean, Calm}
use communicate_between_proc.Kaleidoscope.Parser.{TokenSource}
use communicate_between_proc.Kaleidoscope.Parser.Termination.{Measure}

-- A lexer that was made over a text, and moved on by its methods: it aborts on a 0 of the text only.
pub record ValidLexer (D : Type 0) (text : List ℕ) : Type 0 where
  pub lexer : Lexer D
  pub valid : IsValid lexer.cursor.reader
  pub over : lexer.cursor.reader.buffer ≡ text
  pub calm : Clean text → Calm lexer.cursor

abbrev pub start : {D : Type 0} (text : List ℕ) → ValidLexer D text
unfolding create
start text = record {
  lexer = create (record { buffer = text; index = 0 });
  valid = omega arith;
  over = refl;
  calm = λ clean. (refl, refl);
}

-- The characters left, and the current token unless it is the end.
abbrev pub size : {D : Type 0} → Lexer D → ℕ
size l = (if is_eof l.curr_token then 0 else 1) + left l.cursor

module _ {D : Type 0} (env : Environment D) where
  get_token_of_empty :
      (c : Cursor) → left c ≡ 0 → IsValid c.reader → get_token env (suc (left c)) c ≡ some (none, c)
  unfolding get_token empty
  get_token_of_empty c e v = ground arith

  -- What a call leaves, from a lexer to the next one.
  abbrev pub Moved : Lexer D → Lexer D → Type 0
  Moved l l' =
      IsValid l'.cursor.reader
      × (size l' ≤ size l)
      × (is_eof l.curr_token ≡ false → size l' < size l)
      × (l'.cursor.reader.buffer ≡ l.cursor.reader.buffer)
      × (Clean l.cursor.reader.buffer → Calm l.cursor → Calm l'.cursor)

  found :
      (l : Lexer D) (o : Option (Token D)) (c : Cursor)
      → Lexed {D = D} env l.cursor (o, c)
      → 0 < left l.cursor
      → Moved l (elim o as (λ _. Lexer D) [
        | none ↦ record { cursor = c; curr_token = eof }
        | some token ↦ record { cursor = c; curr_token = token }
      ])
  found l none c (later, less) y = (
    later.valid,
    omega (arith, later.fewer),
    (λ h. ground (arith, later.fewer)),
    later.buffer,
    later.calm,
  )
  found l (some t) c (later, less) y = elim (Bool-cases (is_eof t)) [
    | inl e ↦ (
      later.valid,
      ground (arith, later.fewer),
      (λ h. ground (arith, later.fewer)),
      later.buffer,
      later.calm,
    )
    | inr n ↦
        let smaller = less t refl n y in
        (
          later.valid,
          ground (arith, smaller),
          (λ h. ground (arith, smaller)),
          later.buffer,
          later.calm,
        )
  ]

  pub next_lem : (l : Lexer D) → IsValid l.cursor.reader → Moved l (get_next_token env l)
  unfolding get_next_token
  next_lem l v = elim (dec_lt 0 (left l.cursor)) [
    | yes y ↦
        let (o, c, e, p) = get_token_total env l.cursor v in
        rw (e, get_next_token) (found l o c p y)
    | no n ↦
        rw (get_token_of_empty l.cursor (omega arith) v, get_next_token)
          (v, ground arith, (λ h. ground arith), refl, λ clean k. k)
  ]

  abbrev pub lexer_source : {text : List ℕ} → TokenSource (ValidLexer D text) D
  lexer_source = record {
    current_token = λ s. s.lexer.curr_token;
    get_next_token = λ s. record {
      lexer = get_next_token env s.lexer;
      valid = (next_lem s.lexer s.valid).0;
      over = (next_lem s.lexer s.valid).3 ∙ s.over;
      calm = λ clean. (next_lem s.lexer s.valid).4 (subst Clean (sym s.over) clean) (s.calm clean);
    };
  }

  abbrev pub lexer_measure : {text : List ℕ} → Measure (lexer_source {text = text})
  lexer_measure = record {
    size = λ s. size s.lexer;
    never_grows = λ s. (next_lem s.lexer s.valid).1;
    shrinks = λ s. (next_lem s.lexer s.valid).2;
  }
