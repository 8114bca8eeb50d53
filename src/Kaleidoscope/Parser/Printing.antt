-- ===== src/Kaleidoscope/Parser/Printing.antt =====
-- Expressions printed as tokens, with parentheses round every operation; and a list of tokens as what
-- the parser reads from, whose end is the end of file. It models no code; the parser is held to it.
use communicate_between_proc.Prelude.{◌≤◌, ◌<◌, ◌≡◌, List, [], ◌∷◌, ◌++◌, false, arith, length}
use communicate_between_proc.Kaleidoscope.Token.{
  Token, eof, left_parenthesis, right_parenthesis, comma, identifier, number, less, plus, minus,
  star, is_eof,
}
use communicate_between_proc.Kaleidoscope.Syntax.{
  BinaryOperator, less_than, addition, subtraction, multiplication, Expression, Expressions, nil,
  cons,
}
use communicate_between_proc.Kaleidoscope.Parser.{TokenSource}
use communicate_between_proc.Kaleidoscope.Parser.Termination.{Measure}

abbrev pub first : {D : Type 0} → List (Token D) → Token D
first [] = eof
first (t ∷ ts) = t

abbrev pub rest_of : {D : Type 0} → List (Token D) → List (Token D)
rest_of [] = []
rest_of (t ∷ ts) = ts

abbrev pub list_source : (D : Type 0) → TokenSource (List (Token D)) D
list_source D = record { current_token = first; get_next_token = rest_of }

pub rest_of-length-le : {D : Type 0} (ts : List (Token D)) → length (rest_of ts) ≤ length ts
rest_of-length-le [] = omega arith
rest_of-length-le (t ∷ ts) = omega arith

pub rest_of-length-lt :
    {D : Type 0} (ts : List (Token D)) → is_eof (first ts) ≡ false → length (rest_of ts) < length ts
rest_of-length-lt [] h = cc
rest_of-length-lt (t ∷ ts) h = omega arith

abbrev pub list_measure : (D : Type 0) → Measure (list_source D)
list_measure D = record {
  size = length;
  never_grows = rest_of-length-le;
  shrinks = rest_of-length-lt;
}

abbrev pub operator_token : {D : Type 0} → BinaryOperator → Token D
operator_token less_than = less
operator_token addition = plus
operator_token subtraction = minus
operator_token multiplication = star

unfoldable mutual
  pub print : {D : Type 0} → Expression D → List (Token D)
  print Expression.none = []
  print (Expression.number d) = number d ∷ []
  print (Expression.variable x) = identifier x ∷ []
  print (Expression.binary op l r) =
      left_parenthesis ∷ (print l ++ (operator_token op ∷ (print r ++ (right_parenthesis ∷ []))))
  print (Expression.call f args) = identifier f ∷ left_parenthesis ∷ print_args args

  pub print_args : {D : Type 0} → Expressions D → List (Token D)
  print_args nil = right_parenthesis ∷ []
  print_args (cons e es) = print e ++ print_more es

  pub print_more : {D : Type 0} → Expressions D → List (Token D)
  print_more nil = right_parenthesis ∷ []
  print_more (cons e es) = comma ∷ (print e ++ print_more es)

-- No part of the expression is the empty one.
abbrev mutual
  pub IsComplete : {D : Type 0} → Expression D → Type 0
  IsComplete Expression.none = ⊥
  IsComplete (Expression.number d) = Unit
  IsComplete (Expression.variable x) = Unit
  IsComplete (Expression.binary op l r) = IsComplete l × IsComplete r
  IsComplete (Expression.call f args) = AllComplete args

  pub AllComplete : {D : Type 0} → Expressions D → Type 0
  AllComplete nil = Unit
  AllComplete (cons e es) = IsComplete e × AllComplete es
