-- ===== src/Kaleidoscope/Tests.antt =====
-- The results on apps/create_language at concrete inputs, and runs of the code.
use communicate_between_proc.Prelude.{
  ℕ, ◌+◌, ◌*◌, ◌≡◌, ◌⊎◌, refl, true, false, Option, none, some, List, [], ◌∷◌, ◌++◌, codes, arith,
  ◌==◌,
}
use communicate_between_proc.Kaleidoscope.Token.{Token, unknown, number, plus, star, is_eof}
use communicate_between_proc.Kaleidoscope.Syntax.{addition, multiplication, Expression, nil, cons}
use communicate_between_proc.Kaleidoscope.Lexer.{Environment, Cursor, get_token, read_first}
use communicate_between_proc.Kaleidoscope.Lexer.Progress.{get_token_returns}
use communicate_between_proc.Kaleidoscope.Lexer.Scanning.{Later, Clean, Calm}
use communicate_between_proc.Kaleidoscope.Lexer.Source.{ValidLexer, start, lexer_source}
use communicate_between_proc.Kaleidoscope.Parser.{State, token_precedence, parse_expression}
use communicate_between_proc.Kaleidoscope.Parser.Printing.{list_source, list_measure, print}
use communicate_between_proc.Kaleidoscope.Parser.RoundTrip.{parse_expression-print}
use communicate_between_proc.Kaleidoscope.Parser.Precedence.{two_operators}
use communicate_between_proc.Kaleidoscope.Driver.{main_loop}
use communicate_between_proc.Kaleidoscope.Driver.Termination.{
  main_loop_terminates, main_loop_of_text,
}

-- Whole numbers for `double`, as far as there is no point, and the list as the flat map.
abbrev lookup : List (ℕ × Token ℕ) → ℕ → Option (Token ℕ)
lookup [] c = none
lookup ((k, t) ∷ rest) c = elim (k == c) [ true ↦ some t | false ↦ lookup rest c ]

abbrev whole : Environment ℕ
whole = record {
  literal = λ n. n;
  add = λ a b. a + b;
  multiply = λ a b. a * b;
  divide = λ a b. 0;
  find = lookup;
}

abbrev text : List ℕ
text = codes "def f(x) x + 12;"

-- The assertion fails on the first digit of 0.5.
aborts_at_zero :
    let c : Cursor =
      (read_first whole (record {
        last = b'0';
        reader = record { buffer = codes ".5"; index = 0 };
        aborted = false;
      })).1 in
    c.aborted ≡ true
unfolding read_first communicate_between_proc.Kaleidoscope.Characters.is_digit
aborts_at_zero = refl

get_token_returns_example :
    (o : Option (Token ℕ)) × (c' : Cursor) × (get_token whole 17
        (record { last = 32; reader = record { buffer = text; index = 0 }; aborted = false })
      ≡ some (o, c'))
    × ((c'.aborted ≡ true)
        ⊎ ((c'.aborted ≡ false)
            × Later
                (record {
                  last = 32;
                  reader = record { buffer = text; index = 0 };
                  aborted = false;
                })
                c'))
    × (Clean text
        → Calm (record { last = 32; reader = record { buffer = text; index = 0 }; aborted = false })
        → c'.aborted ≡ false)
get_token_returns_example =
    get_token_returns whole
      (record { last = 32; reader = record { buffer = text; index = 0 }; aborted = false })
      (omega arith)

main_loop_of_text_example :
    (s' : State (ValidLexer ℕ text)) × (main_loop
        (lexer_source whole)
        17
        (record { lexer = start text; output = [] })
      ≡ some (tt, s'))
    × ((s'.lexer.lexer.cursor.aborted ≡ true)
        ⊎ ((s'.lexer.lexer.cursor.aborted ≡ false) × (is_eof s'.lexer.lexer.curr_token ≡ true)))
    × (Clean text → s'.lexer.lexer.cursor.aborted ≡ false)
main_loop_of_text_example = main_loop_of_text whole text

main_loop_terminates_example :
    (s' : State (List (Token ℕ))) × (main_loop
        (list_source ℕ)
        3
        (record { lexer = plus ∷ plus ∷ star ∷ []; output = [] })
      ≡ some (tt, s'))
    × (is_eof ((list_source ℕ).current_token s'.lexer) ≡ true)
main_loop_terminates_example =
    main_loop_terminates (list_source ℕ) (list_measure ℕ) 3
      (record { lexer = plus ∷ plus ∷ star ∷ []; output = [] }) (omega arith)

-- f(1 + 2, x) before a semicolon
abbrev expression : Expression ℕ
expression = Expression.call (codes "f") (
    cons (Expression.binary addition (Expression.number 1) (Expression.number 2))
      (cons (Expression.variable (codes "x")) nil))

parse_expression-print_example :
    parse_expression
      (list_source ℕ)
      12
      (record { lexer = print expression ++ (unknown b';' ∷ []); output = [] })
    ≡ some (expression, record { lexer = unknown b';' ∷ []; output = [] })
unfolding print token_precedence
parse_expression-print_example =
    parse_expression-print [] expression 12 (unknown b';' ∷ []) ((tt, tt), (tt, tt)) (omega arith)
      refl refl

two_operators_example :
    parse_expression (list_source ℕ) 9 (record {
      lexer = number 1 ∷ plus ∷ number 2 ∷ star ∷ number 3 ∷ unknown b';' ∷ [];
      output = [];
    })
    ≡ some (
      Expression.binary addition
          (Expression.number 1)
          (Expression.binary multiplication (Expression.number 2) (Expression.number 3)),
      record { lexer = unknown b';' ∷ []; output = [] },
    )
unfolding print token_precedence
two_operators_example =
    two_operators {D = ℕ} [] addition multiplication (Expression.number 1) (Expression.number 2)
      (Expression.number 3) (unknown b';' ∷ []) tt tt tt refl refl 9 (omega arith)
