-- ===== src/Kaleidoscope/Lexer/Progress.antt =====
-- How much fuel the lexer needs, and what it leaves of the text behind a token.
use communicate_between_proc.Prelude.{
  ℕ, zero, suc, ◌≤◌, ◌<◌, ◌≡◌, ◌∙◌, refl, Bool, true, false, not, ◌&&◌, ◌||◌, ◌⊎◌, Option, none,
  some, [], ◌∷◌, arith, dec_lt, sym, ap, subst, ◌==◌, Bool-cases, inl, inr,
}
use communicate_between_proc.Kaleidoscope.Characters.{is_digit, is_alpha, eof_char}
use communicate_between_proc.Kaleidoscope.Token.{Token, eof, is_eof}
use communicate_between_proc.Kaleidoscope.BufferReader.{empty, IsValid}
use communicate_between_proc.Kaleidoscope.Returns.{
  Returns, returns, Returns-some, Returns-map, Returns-test, Returns-found, Returns-step,
}
use communicate_between_proc.Kaleidoscope.Lexer.{
  Environment, symbols, Cursor, advance, read_whole, read_fraction, read_first, lex_number,
  lex_other, lex_token, get_token,
}
use communicate_between_proc.Kaleidoscope.Lexer.Scanning.{
  left, Clean, Calm, Later, Onward, Later-refl, Later-trans, advance_lem, skip_spaces-Returns,
  read_identifier-Returns, skip_comment-Returns,
}

not-empty_lem : (c : Cursor) → IsValid c.reader → empty c.reader ≡ false → 0 < left c
unfolding empty
not-empty_lem c v h = ground arith

neither : (a b : Bool) → a ≡ false → b ≡ false → (a || b) ≡ true → ⊥
neither a b p q h = ground arith

ends : {D : Type 0} (t : Token D) → some eof ≡ some t → is_eof t ≡ false → ⊥
ends t same other =
    let end : true ≡ is_eof t =
      ap (λ o. elim o as (λ _. Bool) [ none ↦ true | some u ↦ is_eof u ]) same in
    cc

nothing : {D : Type 0} (t : Token D) → none ≡ some t → ⊥
nothing {D} t same =
    let end : true ≡ false =
      ap (λ (o : Option (Token D)). elim o as (λ _. Bool) [ none ↦ true | some u ↦ false ]) same in
    cc

module _ {D : Type 0} (env : Environment D) where
  read_whole-Returns :
      (fuel : ℕ) (num : D) (c : Cursor)
      → IsValid c.reader
      → left c < fuel
      → Returns
          (λ (r : D × Cursor). Later c r.1 × (is_digit c.last ≡ false → r.1 ≡ c))
          (read_whole env fuel num c)
  unfolding read_whole
  read_whole-Returns zero num c v h = elim h [ ]
  read_whole-Returns (suc fuel) num c v h =
      let (later, moved, onward) = advance_lem c v in
      Returns-test (not (empty c.reader) && is_digit c.last) _ _
        (λ e.
          let more : empty c.reader ≡ false = ground arith in
          Returns-map
            (read_whole-Returns fuel _ (advance c).1 later.valid
              (omega (arith, onward (not-empty_lem c v more))))
            (λ r p. (Later-trans later p.0, λ f. absurd (ground arith))))
        (λ e. returns (Later-refl c v, λ _. refl))

  read_fraction-Returns :
      (fuel : ℕ) (factor num : D) (c : Cursor)
      → IsValid c.reader
      → left c < fuel
      → Returns (λ (r : D × Cursor). Later c r.1) (read_fraction env fuel factor num c)
  unfolding read_fraction
  read_fraction-Returns zero factor num c v h = elim h [ ]
  read_fraction-Returns (suc fuel) factor num c v h =
      let (later, moved, onward) = advance_lem c v in
      Returns-test (not (empty c.reader) && is_digit c.last) _ _
        (λ e.
          let more : empty c.reader ≡ false = ground arith in
          Returns-map
            (read_fraction-Returns fuel _ _ (advance c).1 later.valid
              (omega (arith, onward (not-empty_lem c v more))))
            (λ r p. Later-trans later p))
        (λ e. returns (Later-refl c v))

  -- The first digit is taken; a number that starts with the point takes it below.
  read_first_lem :
      (c : Cursor)
      → IsValid c.reader
      → Later c (read_first env c).1
        × (is_digit c.last ≡ true → 0 < left c → left (read_first env c).1 < left c)
        × (is_digit c.last ≡ false → (read_first env c).1 ≡ c)
  unfolding read_first
  read_first_lem c v =
      let (later, moved, onward) = advance_lem c v in
      elim (Bool-cases (is_digit c.last)) [
        | inl e ↦ rw e (
          record {
            valid = later.valid;
            buffer = later.buffer;
            fewer = later.fewer;
            calm = λ clean k. (ground (arith, k.0, k.1), (later.calm clean k).1);
          },
          λ _ q. onward q,
          λ f. absurd cc,
        )
        | inr e ↦ rw e (Later-refl c v, λ f. absurd cc, λ _. refl)
      ]

  -- A number takes the character it starts with at least.
  lex_number-Returns :
      (fuel : ℕ) (c : Cursor)
      → IsValid c.reader
      → left c < fuel
      → (is_digit c.last || c.last == b'.') ≡ true
      → Returns (Onward {A = D} c) (lex_number env fuel c)
  unfolding lex_number
  lex_number-Returns fuel c v h starts =
      let (first, taken, same) = read_first_lem c v in
      Returns-step _
        (read_whole-Returns fuel (read_first env c).0 (read_first env c).1 first.valid
          (omega (arith, first.fewer)))
        λ r p. after_whole first taken same r p
    where
      after_whole :
          Later c (read_first env c).1
          → (is_digit c.last ≡ true → 0 < left c → left (read_first env c).1 < left c)
          → (is_digit c.last ≡ false → (read_first env c).1 ≡ c)
          → (r : D × Cursor)
          → Later (read_first env c).1 r.1
            × (is_digit (read_first env c).1.last ≡ false → r.1 ≡ (read_first env c).1)
          → Returns (Onward {A = D} c) (elim (r.1.last == b'.') as (λ _. Option (D × Cursor)) [
            | false ↦ some r
            | true ↦ read_fraction env fuel (env.literal 1) r.0 (advance r.1).1
          ])
      after_whole first taken same (num, d) (p, stays) =
          let (later, moved, onward) = advance_lem d p.valid in
          Returns-test (d.last == b'.') _ _
            (λ e.
              Returns-map
                (read_fraction-Returns fuel _ num (advance d).1 later.valid
                  (omega (arith, first.fewer, p.fewer, later.fewer)))
                (λ r q. (
                  Later-trans (Later-trans (Later-trans first p) later) q,
                  λ pos. elim (dec_lt 0 (left d)) [
                    | yes y ↦ omega (arith, first.fewer, p.fewer, onward y, q.fewer)
                    | no n ↦ omega (arith, first.fewer, p.fewer, later.fewer, q.fewer)
                  ],
                )))
            (λ e. returns (
              Later-trans first p,
              λ pos. elim (Bool-cases (is_digit c.last)) [
                | inl y ↦ omega (arith, taken y pos, p.fewer)
                | inr n ↦
                    let first_same : (read_first env c).1 ≡ c = same n in
                    let still : d ≡ c =
                      stays (ap (λ x. is_digit x.last) first_same ∙ n) ∙ first_same in
                    let no_point : c.last == b'.' ≡ false =
                      ap (λ x. x.last == b'.') (sym still) ∙ e in
                    absurd (neither _ _ n no_point starts)
              ],
            ))

  -- A token that is not the end took a character.
  abbrev pub Lexed : Cursor → Option (Token D) × Cursor → Type 0
  Lexed c (o, c') =
      Later c c' × ((t : Token D) → o ≡ some t → is_eof t ≡ false → 0 < left c → left c' < left c)

  module _ (fuel : ℕ) (again : Cursor → Option (Option (Token D) × Cursor))
      (enough : (c : Cursor) → IsValid c.reader → left c < fuel → Returns (Lexed c) (again c)) where
    lex_other-Returns :
        (c : Cursor)
        → IsValid c.reader
        → 0 < fuel
        → left c ≤ fuel
        → Returns (Lexed c) (lex_other env (suc fuel) again c)
    unfolding lex_other
    lex_other-Returns c v pos h =
        let (later, moved, onward) = advance_lem c v in
        Returns-test (c.last == b'#') _ _
          (λ e. Returns-step _ (skip_comment-Returns (suc fuel) c v (omega (arith, h))) λ d p.
            Returns-test (d.last == eof_char) _ _ (λ f. returns (p.0, λ t same. at_end c d t same))
              (λ f. Returns-map (enough d p.0.valid (again_enough c d h pos p.0.fewer p.1)) (λ r q.
                (Later-trans p.0 q.0, λ t same other more. omega (arith, p.1 more, q.0.fewer)))))
          (λ e.
            Returns-test (c.last == eof_char) _ _
              (λ f. returns (Later-refl c v, λ t same. at_end c c t same))
              (λ f. returns (later, λ t same other. onward)))
      where
        again_enough :
            (c d : Cursor)
            → left c ≤ fuel
            → 0 < fuel
            → left d ≤ left c
            → (0 < left c → left d < left c)
            → left d < fuel
        again_enough c d h pos fewer less = elim (dec_lt 0 (left c)) [
          | yes y ↦ omega (arith, less y)
          | no n ↦ omega arith
        ]

        at_end :
            (c d : Cursor) (t : Token D)
            → some eof ≡ some t
            → is_eof t ≡ false
            → 0 < left c
            → left d < left c
        at_end c d t same other pos = absurd (ends t same other)

    lex_token-Returns :
        (c : Cursor)
        → IsValid c.reader
        → 0 < fuel
        → left c ≤ fuel
        → Returns (Lexed c) (lex_token env (suc fuel) again c)
    unfolding lex_token
    lex_token-Returns c v pos h =
        let (later, moved, onward) = advance_lem c v in
        Returns-found (env.find symbols c.last) _ _
          (Returns-test (is_alpha c.last) _ _
            (λ e.
              Returns-step _
                (read_identifier-Returns (suc fuel) (c.last ∷ []) c v (omega (arith, h)))
                λ r p. returns (p.0, λ t same other. p.1))
            (λ e.
              Returns-test (is_digit c.last || c.last == b'.') _ _
                (λ f.
                  Returns-step _ (lex_number-Returns (suc fuel) c v (omega (arith, h)) f)
                    λ r p. returns (p.0, λ t same other. p.1))
                (λ f. lex_other-Returns c v pos h)))
          (λ token. returns (later, λ t same other. onward))

  get_token-Returns :
      (fuel : ℕ) (c : Cursor)
      → IsValid c.reader
      → left c < fuel
      → Returns (Lexed c) (get_token env fuel c)
  unfolding get_token
  get_token-Returns zero c v h = elim h [ ]
  get_token-Returns (suc fuel) c v h = after_spaces (get_token-Returns fuel)
    where
      stayed :
          (d a : Cursor) → d ≡ c → 0 < left c → (0 < left d → left a < left d) → left a < left c
      stayed d a e more less =
          subst (λ x. (0 < left x → left a < left x) → left a < left c) (sym e) (λ f. f more) less

      after_spaces :
          ((c : Cursor)
            → IsValid c.reader
            → left c < fuel
            → Returns (Lexed c) (get_token env fuel c))
          → Returns (Lexed c) (get_token env (suc fuel) c)
      after_spaces enough =
          Returns-test (empty c.reader) _ _
            (λ e. returns (Later-refl c v, λ t same. absurd (nothing t same)))
            (λ e.
              let more = not-empty_lem c v e in
              Returns-step _ (skip_spaces-Returns (suc fuel) c v h) λ r p.
                Returns-test r.0 _ _
                  (λ f.
                    Returns-map
                      (lex_token-Returns fuel (get_token env fuel) enough r.1 p.0.valid
                        (omega (arith, h, more)) (omega (arith, h, p.0.fewer)))
                      (λ a q. (
                        Later-trans p.0 q.0,
                        λ t same other _. elim (p.1 f) [
                          | inl unmoved ↦ stayed r.1 a.1 unmoved more (q.1 t same other)
                          | inr moved ↦ omega (arith, q.0.fewer)
                        ],
                      )))
                  (λ f. returns (p.0, λ t same. absurd (nothing t same))))

  pub get_token_total :
      (c : Cursor)
      → IsValid c.reader
      → (o : Option (Token D)) × (c' : Cursor) × (get_token env (suc (left c)) c ≡ some (o, c'))
        × Lexed c (o, c')
  get_token_total c v =
      let (r, e, p) = Returns-some (get_token-Returns (suc (left c)) c v (omega arith)) in
      (r.0, r.1, e, p)

  -- On a valid reader `get_token` comes to its end with as much fuel as there are characters left and
  -- one more: either it returns, and leaves a valid reader over the same buffer with no more characters
  -- than before, or the assertion on the first digit of a number failed, now or before, and aborted it.
  -- It returns where neither the buffer nor the last character has a 0 and no assertion failed before.
  pub get_token_returns :
      (c : Cursor)
      → IsValid c.reader
      → (o : Option (Token D)) × (c' : Cursor) × (get_token env (suc (left c)) c ≡ some (o, c'))
        × ((c'.aborted ≡ true) ⊎ ((c'.aborted ≡ false) × Later c c'))
        × (Clean c.reader.buffer → Calm c → c'.aborted ≡ false)
  get_token_returns c v =
      let (o, c', e, p) = get_token_total c v in
      (
        o,
        c',
        e,
        elim (Bool-cases c'.aborted) [ inl b ↦ inl b | inr b ↦ inr (b, p.0) ],
        λ clean calm. (p.0.calm clean calm).0,
      )
