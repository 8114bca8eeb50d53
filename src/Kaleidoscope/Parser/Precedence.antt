-- ===== src/Kaleidoscope/Parser/Precedence.antt =====
-- How the parser groups operators that stand side by side with no parentheses.
use communicate_between_proc.Prelude.{
  ℕ, zero, suc, ◌+◌, ◌≤◌, ◌≡◌, ◌∙◌, inl, inr, refl, ap, ap₂, true, false, some, List, ◌∷◌, ◌++◌,
  arith, length, pos, ltb, ltb_ℤ, ◌+ℤ◌, Bool-cases, if◌then◌else◌,
}
use communicate_between_proc.Kaleidoscope.Token.{Token}
use communicate_between_proc.Kaleidoscope.Syntax.{
  BinaryOperator, less_than, addition, subtraction, multiplication, Expression,
}
use communicate_between_proc.Kaleidoscope.Parser.{
  Line, ◌>>=◌, token_precedence, parse_binary_operation_rhs, parse_expression,
}
use communicate_between_proc.Kaleidoscope.Parser.Printing.{first, operator_token, print, IsComplete}
use communicate_between_proc.Kaleidoscope.Parser.RoundTrip.{
  at, Ends, NoCall, source, not_empty, length-print_pos, rhs_weaker, rhs_stronger, NoCall-operator,
  reads_primary,
}

-- How tightly an operator binds: `*` before `-` before `+` before `<`.
abbrev pub strength : BinaryOperator → ℕ
strength less_than = 10
strength addition = 20
strength subtraction = 30
strength multiplication = 40

precedence_lem :
    (D : Type 0) (op : BinaryOperator)
    → token_precedence {D = D} (operator_token op) ≡ pos (strength op)
unfolding token_precedence
precedence_lem D less_than = refl
precedence_lem D addition = refl
precedence_lem D subtraction = refl
precedence_lem D multiplication = refl

module _ {D : Type 0} (out : List Line) where
  -- At the end of the operators the loop returns, whatever its own precedence.
  rhs_stops :
      (f k n : ℕ) (lhs : Expression D) (rest : List (Token D))
      → Ends out rest
      → parse_binary_operation_rhs
          (source out)
          (parse_expression (source out) f)
          (suc k)
          (pos n)
          lhs
          (at out rest)
        ≡ some (lhs, at out rest)
  unfolding parse_binary_operation_rhs
  rhs_stops f k n lhs rest h =
      let stop : ltb_ℤ (token_precedence (first rest)) (pos n) ≡ true =
        ap (λ p. ltb_ℤ p (pos n)) h ∙ ground arith in
      rw (stop, ◌>>=◌)

  module _ (f k : ℕ) (l r : Expression D) (rest : List (Token D)) (op : BinaryOperator)
      (complete : IsComplete r) (n : NoCall out rest) (ends : Ends out rest)
      (h : length (print r) ≤ f) (h' : length (print r) ≤ suc k) where
    -- The last operation of a chain.
    rhs_last :
        (low : ℕ)
        → low ≤ strength op
        → parse_binary_operation_rhs
            (source out)
            (parse_expression (source out) f)
            (suc (suc k))
            (pos low)
            l
            (at out (operator_token op ∷ (print r ++ rest)))
          ≡ some (Expression.binary op l r, at out rest)
    rhs_last low bound =
        rhs_weaker out f (suc k) (pos low) op l r rest (reads_primary out r complete) complete h h'
          n (ap (λ p. ltb_ℤ p (pos low)) (precedence_lem D op) ∙ ground arith)
          (ap₂ ltb_ℤ (precedence_lem D op) ends ∙ ground arith)
        ∙ rhs_stops f k low (Expression.binary op l r) rest ends

  module _ (p q : BinaryOperator) (x y z : Expression D) (rest : List (Token D)) (cx : IsComplete x)
      (cy : IsComplete y) (cz : IsComplete z) (n : NoCall out rest) (ends : Ends out rest) where
    abbrev third : List (Token D)
    third = operator_token q ∷ (print z ++ rest)

    abbrev pub grouped : Expression D
    grouped =
        if ltb (strength p) (strength q)
        then Expression.binary p x (Expression.binary q y z)
        else Expression.binary q (Expression.binary p x y) z

    compared :
        ltb_ℤ (token_precedence {D = D} (operator_token p)) (token_precedence (first third))
        ≡ ltb (strength p) (strength q)
    compared = ap₂ ltb_ℤ (precedence_lem D p) (precedence_lem D q) ∙ ground arith

    taken : ltb_ℤ (token_precedence {D = D} (operator_token p)) (pos 0) ≡ false
    taken = ap (λ t. ltb_ℤ t (pos 0)) (precedence_lem D p) ∙ ground arith

    raised : token_precedence {D = D} (operator_token p) +ℤ pos 1 ≡ pos (strength p + 1)
    raised = ap (λ t. t +ℤ pos 1) (precedence_lem D p) ∙ ground arith

    rhs_two :
        (f k : ℕ)
        → length (print y) ≤ f
        → length (print z) ≤ f
        → length (print y) ≤ k
        → length (print z) ≤ k
        → parse_binary_operation_rhs
            (source out)
            (parse_expression (source out) f)
            (suc (suc (suc k)))
            (pos 0)
            x
            (at out (operator_token p ∷ (print y ++ third)))
          ≡ some (grouped, at out rest)
    rhs_two f k hy hz hy' hz' = elim (Bool-cases (ltb (strength p) (strength q))) [
      | inl tighter ↦
          rhs_stronger out f (suc (suc k)) (pos 0) p x y third (Expression.binary q y z) rest
            (reads_primary out y cy) cy (cy, cz) hy (omega arith)
            (NoCall-operator out q (print z ++ rest)) taken (compared ∙ tighter)
            (ap
                (λ t.
                  parse_binary_operation_rhs (source out) (parse_expression (source out) f)
                    (suc (suc k)) t y (at out third))
                raised
              ∙ rhs_last f k y z rest q cz n ends hz (omega arith) (strength p + 1) (ground arith))
          ∙ rhs_stops f (suc k) 0 (Expression.binary p x (Expression.binary q y z)) rest ends
          ∙ rw tighter
      | inr looser ↦
          rhs_weaker out f (suc (suc k)) (pos 0) p x y third (reads_primary out y cy) cy hy
            (omega arith) (NoCall-operator out q (print z ++ rest)) taken (compared ∙ looser)
          ∙ rhs_last f k (Expression.binary p x y) z rest q cz n ends hz (omega arith) 0
              (omega arith)
          ∙ rw looser
    ]

    -- Of two operators side by side the tighter one takes the operand between them, and of two that
    -- bind alike the left one, where the operands are complete and printed, the tokens behind go on
    -- with neither an operator nor an opening parenthesis, and the fuel is that of the operands.
    pub two_operators :
        (f : ℕ)
        → length (print x) + length (print y) + length (print z) + 3 ≤ f
        → parse_expression
            (source out)
            f
            (at out (print x ++ (operator_token p ∷ (print y ++ third))))
          ≡ some (grouped, at out rest)
    unfolding parse_expression
    two_operators zero h = absurd (omega arith)
    two_operators (suc zero) h = absurd (omega arith)
    two_operators (suc (suc zero)) h = absurd (omega arith)
    two_operators (suc (suc (suc zero))) h = absurd (omega (arith, length-print_pos out x cx))
    two_operators (suc (suc (suc (suc k)))) h =
        rw
          (
            reads_primary out x cx (suc (suc (suc k))) (suc (suc (suc k)))
                (operator_token p ∷ (print y ++ third)) (omega arith) (omega arith)
                (NoCall-operator out p (print y ++ third)),
            ◌>>=◌,
            not_empty out x cx,
          )
          (rhs_two (suc (suc (suc k))) k (omega arith) (omega arith)
            (omega (arith, length-print_pos out x cx, length-print_pos out z cz))
            (omega (arith, length-print_pos out x cx, length-print_pos out y cy)))
