-- ===== src/Kaleidoscope/Lexer/Scanning.antt =====
-- The loops of the lexer that only move on: what is left of the text behind each.
use communicate_between_proc.Prelude.{
  ℕ, zero, suc, ◌+◌, ◌≤◌, ◌<◌, ◌≡◌, ◌∙◌, refl, Bool, true, false, some, get_elem?, get_or, sym,
  subst, not, ◌&&◌, List, [], ◌∷◌, ◌++◌, arith, ◌⊎◌, ◌==◌, inl, inr,
}
use communicate_between_proc.Kaleidoscope.Characters.{is_space, is_alnum, eof_char}
use communicate_between_proc.Kaleidoscope.BufferReader.{read, remaining, IsValid}
use communicate_between_proc.Kaleidoscope.Returns.{Returns, returns, Returns-map, Returns-test}
use communicate_between_proc.Kaleidoscope.Lexer.{
  Cursor, advance, skip_spaces, read_identifier, skip_comment,
}

abbrev pub left : Cursor → ℕ
left c = remaining c.reader

-- No character of a text is a 0.
abbrev pub Clean : List ℕ → Type 0
Clean text = (i q : ℕ) → get_elem? text i ≡ some q → q == b'0' ≡ false

-- No assertion has failed, and the last character is no 0.
abbrev pub Calm : Cursor → Type 0
Calm c = (c.aborted ≡ false) × (c.last == b'0' ≡ false)

-- Moved on, over the same buffer.
pub record Later (c c' : Cursor) : Type 0 where
  pub valid : IsValid c'.reader
  pub buffer : c'.reader.buffer ≡ c.reader.buffer
  pub fewer : left c' ≤ left c
  pub calm : Clean c.reader.buffer → Calm c → Calm c'

-- Moved on, by a character at least if there is one left.
abbrev pub Onward : {A : Type 0} → Cursor → A × Cursor → Type 0
Onward c (a, c') = Later c c' × (0 < left c → left c' < left c)

pub Later-refl : (c : Cursor) → IsValid c.reader → Later c c
Later-refl c v = record { valid = v; buffer = refl; fewer = omega arith; calm = λ clean k. k }

pub Later-trans : {c d e : Cursor} → Later c d → Later d e → Later c e
Later-trans p q = record {
  valid = q.valid;
  buffer = q.buffer ∙ p.buffer;
  fewer = omega (arith, p.fewer, q.fewer);
  calm = λ clean k. q.calm (subst Clean (sym p.buffer) clean) (p.calm clean k);
}

get_or-not_zero :
    (text : List ℕ) (i value : ℕ)
    → Clean text
    → value == b'0' ≡ false
    → get_or text i value == b'0' ≡ false
get_or-not_zero [] i value clean h = h
get_or-not_zero (x ∷ xs) zero value clean h = clean 0 x refl
get_or-not_zero (x ∷ xs) (suc i) value clean h =
    get_or-not_zero xs i value (λ j q e. clean (suc j) q e) h

pub advance_lem :
    (c : Cursor)
    → IsValid c.reader
    → Later c (advance c).1
      × ((advance c).0 ≡ true → left c ≡ left (advance c).1 + 1)
      × (0 < left c → left (advance c).1 < left c)
unfolding read
advance_lem c v = (
  record {
    valid = ground arith;
    buffer = ground arith;
    fewer = ground arith;
    calm = λ clean k.
        (k.0, ground (arith, k.1, get_or-not_zero c.reader.buffer c.reader.index c.last clean k.1));
  },
  ground arith,
  ground arith,
)

pub skip_spaces-Returns :
    (fuel : ℕ) (c : Cursor)
    → IsValid c.reader
    → left c < fuel
    → Returns
        (λ (r : Bool × Cursor). Later c r.1 × (r.0 ≡ true → (r.1 ≡ c) ⊎ (left r.1 < left c)))
        (skip_spaces fuel c)
unfolding skip_spaces
skip_spaces-Returns zero c v h = elim h [ ]
skip_spaces-Returns (suc fuel) c v h =
    let (later, moved, onward) = advance_lem c v in
    Returns-test (is_space c.last) _ _
      (λ e.
        Returns-test (advance c).0 _ _
          (λ d.
            Returns-map
              (skip_spaces-Returns fuel (advance c).1 later.valid (omega (arith, moved d)))
              (λ r p. (Later-trans later p.0, λ q. inr (omega (arith, moved d, p.0.fewer)))))
          (λ d. returns (later, λ q. absurd cc)))
      (λ e. returns (Later-refl c v, λ q. inl refl))

pub read_identifier-Returns :
    (fuel : ℕ) (name : List ℕ) (c : Cursor)
    → IsValid c.reader
    → left c < fuel
    → Returns (Onward {A = List ℕ} c) (read_identifier fuel name c)
unfolding read_identifier
read_identifier-Returns zero name c v h = elim h [ ]
read_identifier-Returns (suc fuel) name c v h =
    let (later, moved, onward) = advance_lem c v in
    Returns-test ((advance c).0 && is_alnum (advance c).1.last) _ _
      (λ e.
        let done : (advance c).0 ≡ true = ground arith in
        Returns-map
          (read_identifier-Returns fuel (name ++ ((advance c).1.last ∷ [])) (advance c).1
            later.valid (omega (arith, moved done)))
          (λ r p. (Later-trans later p.0, λ q. omega (arith, moved done, p.0.fewer))))
      (λ e. returns (later, onward))

pub skip_comment-Returns :
    (fuel : ℕ) (c : Cursor)
    → IsValid c.reader
    → left c < fuel
    → Returns (λ c'. Later c c' × (0 < left c → left c' < left c)) (skip_comment fuel c)
unfolding skip_comment
skip_comment-Returns zero c v h = elim h [ ]
skip_comment-Returns (suc fuel) c v h =
    let (later, moved, onward) = advance_lem c v in
    let c' : Cursor = (advance c).1 in
    Returns-test
      ((advance c).0 && not (c'.last == eof_char) && not (c'.last == 10) && not (c'.last == 13)) _ _
      (λ e.
        let done : (advance c).0 ≡ true = ground arith in
        Returns-map (skip_comment-Returns fuel c' later.valid (omega (arith, moved done)))
          (λ r p. (Later-trans later p.0, λ q. omega (arith, moved done, p.0.fewer))))
      (λ e. returns (later, onward))
