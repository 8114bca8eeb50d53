-- ===== src/Kaleidoscope/Parser/Termination.antt =====
-- How much fuel the parser needs: every recursive call and every further round of a loop comes after a
-- token was taken.
use communicate_between_proc.Prelude.{
  ℕ, zero, suc, ◌≤◌, ◌<◌, ◌≡◌, ◌⊎◌, inl, inr, refl, ap, false, some, List, arith, ltb_ℤ, ℤ, pos,
  ◌+ℤ◌,
}
use communicate_between_proc.Kaleidoscope.Token.{
  Token, eof, left_parenthesis, identifier, number, is_eof, is_left_parenthesis,
  is_right_parenthesis, is_comma,
}
use communicate_between_proc.Kaleidoscope.Syntax.{
  BinaryOperator, Expression, Expressions, nil, push_back, is_empty,
}
use communicate_between_proc.Kaleidoscope.Parser.{
  TokenSource, State, Parsing, log_error, token_precedence, get_binary_operator,
  parse_parenthesis_expression, parse_arguments, parse_call, parse_identifier_expression,
  parse_number_expression, parse_primary_of, parse_primary, parse_binary_operation_rhs,
  parse_expression,
}
use communicate_between_proc.Kaleidoscope.Parser.Returns.{
  Returns, returns, Returns-bind, Returns-map, Returns-if, Returns-option,
}

-- A bound on the tokens that are left: taking one never raises it, and lowers it before the end.
pub record Measure {S D : Type 0} (source : TokenSource S D) : Type 0 where
  pub size : S → ℕ
  pub never_grows : (s : S) → size (source.get_next_token s) ≤ size s
  pub shrinks :
      (s : S) → is_eof (source.current_token s) ≡ false → size (source.get_next_token s) < size s

module _ {S D : Type 0} (source : TokenSource S D) (m : Measure source) where
  abbrev pub left : State S → ℕ
  left s = m.size s.lexer

  -- No token came back; an expression was parsed from at least one token, and where no token was
  -- taken the lexer is untouched.
  abbrev pub Progress : State S → Expression D × State S → Type 0
  Progress s (e, s') =
      (left s' ≤ left s)
      × (is_empty e ≡ false → left s' < left s)
      × ((left s' < left s) ⊎ (s'.lexer ≡ s.lexer))

  abbrev pub Kept : {A : Type 0} → State S → A × State S → Type 0
  Kept s (a, s') = left s' ≤ left s

  log_error-Returns :
      (message : List ℕ) (s s' : State S)
      → left s' < left s
      → Returns (Progress s) (log_error message s')
  unfolding log_error
  log_error-Returns message s s' h = returns (omega arith, λ e. cc, inl h)

  module _ (expression : Parsing S (Expression D)) (n : ℕ)
      (enough : (s : State S) → left s < n → Returns (Progress s) (expression s)) where
    parse_parenthesis_expression-Returns :
        (s : State S)
        → is_eof (source.current_token s.lexer) ≡ false
        → left s ≤ n
        → Returns (Progress s) (parse_parenthesis_expression source expression s)
    unfolding parse_parenthesis_expression
    parse_parenthesis_expression-Returns s t h =
        let shorter = m.shrinks s.lexer t in
        Returns-bind expression _ _ (enough _ (omega arith)) λ expr s' p.
          Returns-if (is_empty expr) _ _ s' (λ e. returns (omega arith, λ f. cc, inl (omega arith)))
            (λ e.
              Returns-if (is_right_parenthesis (source.current_token s'.lexer)) _ _ s'
                (λ c. returns (
                  omega (arith, m.never_grows s'.lexer),
                  λ f. omega (arith, m.never_grows s'.lexer),
                  inl (omega (arith, m.never_grows s'.lexer)),
                ))
                (λ c. log_error-Returns _ s s' (omega arith)))

    parse_arguments-Returns :
        (fuel : ℕ) (args : Expressions D) (s : State S)
        → left s < fuel
        → left s < n
        → Returns (Kept s) (parse_arguments source expression fuel args s)
    unfolding parse_arguments log_error
    parse_arguments-Returns zero args s h k = elim h [ ]
    parse_arguments-Returns (suc fuel) args s h k =
        Returns-bind expression _ _ (enough s k) λ arg s' p.
          Returns-if (is_empty arg) _ _ s' (λ e. returns (omega arith))
            (λ e.
              Returns-if (is_right_parenthesis (source.current_token s'.lexer)) _ _ s'
                (λ c. returns (omega arith))
                (λ c.
                  Returns-if (is_comma (source.current_token s'.lexer)) _ _ s'
                    (λ d.
                      Returns-map
                        (parse_arguments-Returns fuel (push_back args arg) _
                          (omega (arith, m.never_grows s'.lexer, p.1 e))
                          (omega (arith, m.never_grows s'.lexer, p.1 e)))
                        (λ r q. omega (arith, m.never_grows s'.lexer)))
                    (λ d. returns (omega arith))))

    parse_call-Returns :
        (fuel : ℕ) (s : State S)
        → left s < fuel
        → left s < n
        → Returns (Kept s) (parse_call source expression fuel s)
    unfolding parse_call
    parse_call-Returns fuel s h k =
        Returns-if (is_right_parenthesis (source.current_token s.lexer)) _ _ s
          (λ c. returns (omega arith)) (λ c. parse_arguments-Returns fuel nil s h k)

    parse_identifier_expression-Returns :
        (fuel : ℕ) (name : List ℕ) (s : State S)
        → is_eof (source.current_token s.lexer) ≡ false
        → left s ≤ fuel
        → left s ≤ n
        → Returns (Progress s) (parse_identifier_expression source expression fuel name s)
    unfolding parse_identifier_expression
    parse_identifier_expression-Returns fuel name s t h k =
        let shorter = m.shrinks s.lexer t in
        let s₁ : State S = record s { lexer = source.get_next_token s.lexer } in
        let fewer = m.never_grows s₁.lexer in
        Returns-if (is_left_parenthesis (source.current_token s₁.lexer)) _ _ s₁
          (λ c.
            Returns-bind (parse_call source expression fuel) _ _
              (parse_call-Returns fuel (record s { lexer = source.get_next_token s₁.lexer })
                (omega arith) (omega arith))
              λ args s' q.
                Returns-option args _ _ s' (λ e. returns (omega arith, λ f. cc, inl (omega arith)))
                  (λ es e. returns (
                    omega (arith, m.never_grows s'.lexer),
                    λ f. omega (arith, m.never_grows s'.lexer),
                    inl (omega (arith, m.never_grows s'.lexer)),
                  )))
          (λ c. returns (omega arith, λ f. omega arith, inl (omega arith)))

    parse_primary-Returns :
        (fuel : ℕ) (s : State S)
        → left s ≤ fuel
        → left s ≤ n
        → Returns (Progress s) (parse_primary source expression fuel s)
    unfolding parse_primary parse_number_expression log_error
    parse_primary-Returns fuel s h k = by_token (source.current_token s.lexer) refl
      where
        by_token :
            (t : Token D)
            → source.current_token s.lexer ≡ t
            → Returns (Progress s) (parse_primary_of source expression fuel t s)
        by_token (identifier name) e =
            parse_identifier_expression-Returns fuel name s (ap is_eof e) h k
        by_token (number d) e =
            let shorter = m.shrinks s.lexer (ap is_eof e) in
            returns (omega arith, λ f. omega arith, inl (omega arith))
        by_token left_parenthesis e = parse_parenthesis_expression-Returns s (ap is_eof e) k
        by_token eof e = returns (omega arith, λ f. cc, inr refl)
        by_token t e = returns (omega arith, λ f. cc, inr refl)

    operator_not_eof :
        (t : Token D) (op : BinaryOperator) → get_binary_operator t ≡ some op → is_eof t ≡ false
    unfolding get_binary_operator
    operator_not_eof eof op e = cc
    operator_not_eof t op e = refl

    parse_binary_operation_rhs-Returns :
        (fuel : ℕ) (precedence : ℤ) (lhs : Expression D) (s : State S)
        → left s < fuel
        → left s ≤ n
        → Returns (Kept s) (parse_binary_operation_rhs source expression fuel precedence lhs s)
    unfolding parse_binary_operation_rhs log_error
    parse_binary_operation_rhs-Returns zero precedence lhs s h k = elim h [ ]
    parse_binary_operation_rhs-Returns (suc fuel) precedence lhs s h k =
        let token = source.current_token s.lexer in
        Returns-if (ltb_ℤ (token_precedence token) precedence) _ _ s (λ c. returns (omega arith))
          (λ c.
            Returns-option (get_binary_operator token) _ _ s (λ e. returns (omega arith))
              (λ op e.
                let shorter = m.shrinks s.lexer (operator_not_eof token op e) in
                Returns-bind (parse_primary source expression fuel) _ _
                  (parse_primary-Returns fuel (record s { lexer = source.get_next_token s.lexer })
                    (omega arith) (omega arith))
                  λ rhs s' p.
                    Returns-if (is_empty rhs) _ _ s' (λ d. returns (omega arith))
                      (λ d.
                        Returns-if
                          (ltb_ℤ (token_precedence token)
                            (token_precedence (source.current_token s'.lexer)))
                          _ _ s'
                          (λ f.
                            Returns-bind
                              (parse_binary_operation_rhs source expression fuel
                                (token_precedence token +ℤ pos 1) rhs)
                              _ _
                              (parse_binary_operation_rhs-Returns fuel
                                (token_precedence token +ℤ pos 1) rhs s' (omega (arith, p.1 d))
                                (omega arith))
                              λ rhs' s'' q.
                                Returns-if (is_empty rhs') _ _ s'' (λ g. returns (omega arith))
                                  (λ g.
                                    Returns-map
                                      (parse_binary_operation_rhs-Returns fuel precedence
                                        (Expression.binary op lhs rhs') s'' (omega (arith, p.1 d))
                                        (omega arith))
                                      (λ r t. omega arith)))
                          (λ f.
                            Returns-map
                              (parse_binary_operation_rhs-Returns fuel precedence
                                (Expression.binary op lhs rhs) s' (omega (arith, p.1 d))
                                (omega arith))
                              (λ r t. omega arith)))))

  -- Fuel above the number of tokens left is enough for an expression.
  pub parse_expression-Returns :
      (fuel : ℕ) (s : State S)
      → left s < fuel
      → Returns (Progress s) (parse_expression source fuel s)
  unfolding parse_expression
  parse_expression-Returns zero s h = elim h [ ]
  parse_expression-Returns (suc fuel) s h =
      Returns-bind (parse_primary source (parse_expression source fuel) fuel) _ _
        (parse_primary-Returns (parse_expression source fuel) fuel (parse_expression-Returns fuel)
          fuel s (omega arith) (omega arith))
        λ lhs s' p.
          Returns-if (is_empty lhs) _ _ s' (λ e. returns p)
            (λ e.
              Returns-map
                (parse_binary_operation_rhs-Returns (parse_expression source fuel) fuel
                  (parse_expression-Returns fuel) fuel (pos 0) lhs s' (omega (arith, p.1 e))
                  (omega (arith, p.1 e)))
                (λ r q. (omega arith, λ f. omega (arith, p.1 e), inl (omega (arith, p.1 e)))))
