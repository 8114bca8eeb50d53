-- ===== src/Kaleidoscope/Driver/Termination.antt =====
-- How much fuel `main_loop` needs: every round of it takes a token.
use communicate_between_proc.Prelude.{
  ℕ, zero, suc, ◌+◌, ◌≤◌, ◌<◌, ◌≡◌, ◌⊎◌, inl, inr, refl, ap, subst, ◌∙◌, true, false, Option, none,
  some, List, [], ◌∷◌, ◌++◌, arith, ◌==◌, Bool-cases, codes, length,
}
use communicate_between_proc.Kaleidoscope.Token.{
  Token, eof, def, extern, identifier, unknown, is_eof, is_left_parenthesis, is_right_parenthesis,
}
use communicate_between_proc.Kaleidoscope.Syntax.{is_empty, Function}
use communicate_between_proc.Kaleidoscope.Lexer.{Environment, create}
use communicate_between_proc.Kaleidoscope.Lexer.Scanning.{Clean}
use communicate_between_proc.Kaleidoscope.Lexer.Source.{
  ValidLexer, start, lexer_source, lexer_measure, next_lem,
}
use communicate_between_proc.Kaleidoscope.Parser.{
  TokenSource, State, Parsing, output_line, ◌>>◌, pure, log_error_prototype, parse_argument_names,
  parse_prototype_of, parse_prototype, parse_definition, parse_extern, parse_top_level_expression,
  parse_expression,
}
use communicate_between_proc.Kaleidoscope.Parser.Returns.{
  Returns, returns, Returns-some, Returns-bind, Returns-map, Returns-if, Returns-option,
}
use communicate_between_proc.Kaleidoscope.Parser.Termination.{
  Measure, left, Kept, parse_expression-Returns,
}
use communicate_between_proc.Kaleidoscope.Driver.{
  write_args, handle_definition, handle_extern, handle_top_level_expression, handle_token, rounds,
  main_loop,
}

module _ {S D : Type 0} (source : TokenSource S D) (m : Measure source) where
  -- At least one token was taken.
  abbrev Taken : {A : Type 0} → State S → A × State S → Type 0
  Taken s (a, s') = left source m s' < left source m s

  parse_argument_names-Returns :
      (fuel : ℕ) (names : List (List ℕ)) (s : State S)
      → is_eof (source.current_token s.lexer) ≡ false
      → left source m s < fuel
      → Returns (Taken s) (parse_argument_names source fuel names s)
  unfolding parse_argument_names
  parse_argument_names-Returns zero names s t h = elim h [ ]
  parse_argument_names-Returns (suc fuel) names s t h =
      by_token (parse_argument_names-Returns fuel) (source.current_token s₁.lexer) refl
    where
      s₁ : State S
      s₁ = record s { lexer = source.get_next_token s.lexer }

      by_token :
          ((names : List (List ℕ)) (s : State S)
            → is_eof (source.current_token s.lexer) ≡ false
            → left source m s < fuel
            → Returns (Taken s) (parse_argument_names source fuel names s))
          → (u : Token D) → source.current_token s₁.lexer ≡ u
          → Returns (Taken s) (
              elim u as (λ _. Parsing S (List (List ℕ))) [
                | identifier name ↦ parse_argument_names source fuel (names ++ (name ∷ []))
                | _ ↦ pure names
              ]
                s₁)
      by_token again (identifier name) e =
          let shorter = m.shrinks s.lexer t in
          Returns-map (again (names ++ (name ∷ [])) s₁ (ap is_eof e) (omega arith))
            (λ r q. omega arith)
      by_token again u e = returns (m.shrinks s.lexer t)

  log_prototype-Returns :
      (message : List ℕ) (s : State S) → Returns (Kept source m s) (log_error_prototype message s)
  unfolding log_error_prototype
  log_prototype-Returns message s = returns (omega arith)

  left_parenthesis_not_eof : (t : Token D) → is_left_parenthesis t ≡ true → is_eof t ≡ false
  left_parenthesis_not_eof eof h = cc
  left_parenthesis_not_eof t h = refl

  parse_prototype-Returns :
      (fuel : ℕ) (s : State S)
      → left source m s < fuel
      → Returns (Kept source m s) (parse_prototype source fuel s)
  unfolding parse_prototype parse_prototype_of
  parse_prototype-Returns fuel s h = by_token (source.current_token s.lexer) refl
    where
      by_token :
          (u : Token D)
          → source.current_token s.lexer ≡ u
          → Returns (Kept source m s) (parse_prototype_of source fuel u s)
      by_token (identifier name) e =
          let s₁ : State S = record s { lexer = source.get_next_token s.lexer } in
          let fewer = m.never_grows s.lexer in
          Returns-if (is_left_parenthesis (source.current_token s₁.lexer)) _ _ s₁
            (λ c.
              Returns-bind (parse_argument_names source fuel []) _ _
                (parse_argument_names-Returns fuel [] s₁ (left_parenthesis_not_eof _ c)
                  (omega arith))
                λ names s' p.
                  Returns-if (is_right_parenthesis (source.current_token s'.lexer)) _ _ s'
                    (λ d. returns (omega (arith, m.never_grows s'.lexer)))
                    (λ d. Returns-map (log_prototype-Returns _ s') (λ r q. omega arith)))
            (λ c. Returns-map (log_prototype-Returns _ s₁) (λ r q. omega arith))
      by_token u e = log_prototype-Returns _ s

  handle_definition-Returns :
      (fuel : ℕ) (s : State S)
      → is_eof (source.current_token s.lexer) ≡ false
      → left source m s ≤ fuel
      → Returns (Taken s) (handle_definition source fuel s)
  unfolding handle_definition parse_definition
  handle_definition-Returns fuel s t h =
      let shorter = m.shrinks s.lexer t in
      Returns-bind {P = Taken s} (parse_definition source fuel) _ s
        (Returns-bind (parse_prototype source fuel) _ _
          (parse_prototype-Returns fuel (record s { lexer = source.get_next_token s.lexer })
            (omega arith))
          λ proto s' p.
            Returns-option proto _ _ s' (λ e. returns (omega arith))
              (λ f e.
                Returns-bind (parse_expression source fuel) _ _
                  (parse_expression-Returns source m fuel s' (omega arith))
                  λ expr s'' q.
                    Returns-if (is_empty expr) _ _ s'' (λ g. returns (omega arith))
                      (λ g. returns (omega arith))))
        λ parsed s' p.
          Returns-option parsed _ _ s' (λ e. returns (omega (arith, m.never_grows s'.lexer)))
            (λ f e. returns (omega arith))

  write_args-Returns :
      (args : List (List ℕ)) (s : State S)
      → Returns (λ (r : Unit {0} × State S). r.1.lexer ≡ s.lexer) (write_args args s)
  unfolding write_args
  write_args-Returns [] s = returns refl
  write_args-Returns (arg ∷ args) s =
      write_args-Returns args
        (record s { output = s.output ++ (output_line (codes "    arg: " ++ arg) ∷ []) })

  handle_extern-Returns :
      (fuel : ℕ) (s : State S)
      → is_eof (source.current_token s.lexer) ≡ false
      → left source m s ≤ fuel
      → Returns (Taken s) (handle_extern source fuel s)
  unfolding handle_extern parse_extern
  handle_extern-Returns fuel s t h =
      let shorter = m.shrinks s.lexer t in
      Returns-bind {P = Taken s} (parse_extern source fuel) _ s
        (Returns-map
          (parse_prototype-Returns fuel (record s { lexer = source.get_next_token s.lexer })
            (omega arith))
          (λ r q. omega arith))
        λ parsed s' p.
          Returns-option parsed _ _ s' (λ e. returns (omega (arith, m.never_grows s'.lexer)))
            (λ f e. Returns-map (write_args-Returns f.args _) (λ r q. omega (arith, ap m.size q)))

  handle_top_level_expression-Returns :
      (fuel : ℕ) (s : State S)
      → is_eof (source.current_token s.lexer) ≡ false
      → left source m s < fuel
      → Returns (Taken s) (handle_top_level_expression source fuel s)
  unfolding handle_top_level_expression parse_top_level_expression
  handle_top_level_expression-Returns fuel s t h =
      Returns-bind {P = Parsed} (parse_top_level_expression source fuel) _ s
        (Returns-bind (parse_expression source fuel) _ s
          (parse_expression-Returns source m fuel s h)
          λ expr s' q.
            Returns-if (is_empty expr) _ _ s' (λ e. returns (λ n. q.2, λ f n. cc))
              (λ e. returns (λ n. cc, λ f n. q.1 e)))
        λ parsed s' p.
          Returns-option parsed _ _ s' (λ e. returns (past s' (p.0 e))) (λ f e. returns (p.1 f e))
    where
      Parsed : Option (Function D) × State S → Type 0
      Parsed (o, s') =
          (o ≡ none → (left source m s' < left source m s) ⊎ (s'.lexer ≡ s.lexer))
          × ((f : Function D) → o ≡ some f → left source m s' < left source m s)

      past :
          (s' : State S)
          → (left source m s' < left source m s) ⊎ (s'.lexer ≡ s.lexer)
          → m.size (source.get_next_token s'.lexer) < left source m s
      past s' (inl less_left) = omega (arith, m.never_grows s'.lexer)
      past s' (inr same) =
          omega (arith, m.shrinks s.lexer t, ap (λ l. m.size (source.get_next_token l)) same)

  handle_token-Returns :
      (fuel : ℕ) (s : State S)
      → is_eof (source.current_token s.lexer) ≡ false
      → left source m s < fuel
      → Returns (Taken s) (handle_token source fuel (source.current_token s.lexer) s)
  unfolding handle_token
  handle_token-Returns fuel s t h = by_token (source.current_token s.lexer)
    where
      otherwise : Returns (Taken s) (handle_top_level_expression source fuel s)
      otherwise = handle_top_level_expression-Returns fuel s t h

      by_token : (u : Token D) → Returns (Taken s) (handle_token source fuel u s)
      by_token (unknown c) = elim (Bool-cases (c == b';')) [
        | inl e ↦ rw e (returns (m.shrinks s.lexer t))
        | inr e ↦ rw e otherwise
      ]
      by_token def = handle_definition-Returns fuel s t (omega arith)
      by_token extern = handle_extern-Returns fuel s t (omega arith)
      by_token u = otherwise

  -- A loop with as many rounds and as much fuel as tokens are left ends at the end of the input.
  pub rounds-Returns :
      (n fuel : ℕ) (s : State S)
      → left source m s < n
      → left source m s < fuel
      → Returns
          (λ (r : Unit {0} × State S). is_eof (source.current_token r.1.lexer) ≡ true)
          (rounds source n fuel s)
  unfolding rounds
  rounds-Returns zero fuel s h k = elim h [ ]
  rounds-Returns (suc n) fuel s h k =
      by_token (rounds-Returns n fuel) (source.current_token s.lexer) refl
    where
      AtEnd : Unit {0} × State S → Type 0
      AtEnd r = is_eof (source.current_token r.1.lexer) ≡ true

      go_on :
          ((s : State S)
            → left source m s < n
            → left source m s < fuel
            → Returns AtEnd (rounds source n fuel s))
          → (u : Token D) → source.current_token s.lexer ≡ u
          → is_eof u ≡ false
          → Returns AtEnd ((handle_token source fuel u >> rounds source n fuel) s)
      go_on again u e t =
          Returns-bind {P = Taken s} (handle_token source fuel u) _ s
            (subst (λ w. Returns (Taken s) (handle_token source fuel w s)) e
              (handle_token-Returns fuel s (ap is_eof e ∙ t) k))
            λ r s' p. again s' (omega arith) (omega arith)

      by_token :
          ((s : State S)
            → left source m s < n
            → left source m s < fuel
            → Returns AtEnd (rounds source n fuel s))
          → (u : Token D) → source.current_token s.lexer ≡ u
          → Returns AtEnd (
              elim u as (λ _. Parsing S (Unit {0})) [
                | eof ↦ pure tt
                | other ↦ handle_token source fuel other >> rounds source n fuel
              ]
                s)
      by_token again eof e = returns (ap is_eof e)
      by_token again u e = go_on again u e refl

  -- Over any source of tokens with a measure, and with fuel above the measure behind the first token,
  -- `main_loop` returns, and has then come to the end of the input.
  pub main_loop_terminates :
      (fuel : ℕ) (s : State S)
      → m.size (source.get_next_token s.lexer) < fuel
      → (s' : State S) × (main_loop source fuel s ≡ some (tt, s'))
        × (is_eof (source.current_token s'.lexer) ≡ true)
  unfolding main_loop
  main_loop_terminates fuel s h =
      let (r, e, at_end) =
        Returns-some
          (rounds-Returns fuel fuel (record s { lexer = source.get_next_token s.lexer }) h h) in
      (r.1, e, at_end)

-- The loop over the lexer of a text, with fuel above the length of the text, comes to its end: either
-- the assertion on the first digit of a number failed on the way, where the program stops, or the loop
-- returns, and has then come to the end of the input. It returns on every text with no character 0.
pub main_loop_of_text :
    {D : Type 0} (env : Environment D) (text : List ℕ)
    → (s' : State (ValidLexer D text)) × (main_loop
          (lexer_source env)
          (length text + 1)
          (record { lexer = start text; output = [] })
        ≡ some (tt, s'))
      × ((s'.lexer.lexer.cursor.aborted ≡ true)
          ⊎ ((s'.lexer.lexer.cursor.aborted ≡ false) × (is_eof s'.lexer.lexer.curr_token ≡ true)))
      × (Clean text → s'.lexer.lexer.cursor.aborted ≡ false)
unfolding create
main_loop_of_text {D} env text =
    let (s', e, at_end) =
      main_loop_terminates (lexer_source env) (lexer_measure env) (length text + 1) _ (
        let l : ValidLexer D text = start text in
        omega (arith, (next_lem env l.lexer l.valid).1)) in
    (
      s',
      e,
      elim (Bool-cases s'.lexer.lexer.cursor.aborted) [ inl b ↦ inl b | inr b ↦ inr (b, at_end) ],
      λ clean. (s'.lexer.calm clean).0,
    )
