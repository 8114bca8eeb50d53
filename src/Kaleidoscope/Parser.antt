-- ===== src/Kaleidoscope/Parser.antt =====
-- apps/create_language/include/kaleidoscope/parser.hpp, over whatever tokens come from: the lexer is a
-- parameter, with the two methods that the parser calls. What the parser prints is part of its state.
--
-- `none` means that the fuel ran out. `parse_expression` spends a unit on each expression inside an
-- expression, and hands what is left to the loops of that level; `Termination`
-- is about how much is enough. A null pointer is `none` of `Option`.
pub mod Returns
pub mod Termination
pub mod Printing
pub mod RoundTrip
pub mod Precedence
use communicate_between_proc.Prelude.{
  ℕ, zero, suc, Bool, true, false, not, List, [], ◌∷◌, ◌++◌, Option, none, some, codes, ℤ, pos,
  negsuc, ◌+ℤ◌, ltb_ℤ,
}
use communicate_between_proc.Kaleidoscope.Token.{
  Token, eof, left_parenthesis, right_parenthesis, comma, def, extern, identifier, number, unknown,
  less, plus, minus, star, is_left_parenthesis, is_right_parenthesis, is_comma,
}
use communicate_between_proc.Kaleidoscope.Syntax.{
  BinaryOperator, less_than, addition, subtraction, multiplication, Expression, Expressions, nil,
  push_back, Prototype, Function, is_empty,
}

-- The methods of `lexer` that the parser calls.
pub record TokenSource (S D : Type 0) : Type 0 where
  pub current_token : S → Token D
  pub get_next_token : S → S

-- A line on stderr, or on stdout.
pub data Line : Type 0 where
  error_line : List ℕ → Line
  output_line : List ℕ → Line

pub record State (S : Type 0) : Type 0 where
  pub lexer : S
  pub output : List Line

abbrev pub Parsing : Type 0 → Type 0 → Type 0
Parsing S A = State S → Option (A × State S)

infixl 5 ◌>>=◌ ◌>>◌
abbrev pub ◌>>=◌ : {S A B : Type 0} → Parsing S A → (A → Parsing S B) → Parsing S B
◌>>=◌ p f s = elim (p s) [ none ↦ none | some (a, s') ↦ f a s' ]

abbrev pub ◌>>◌ : {S B : Type 0} → Parsing S (Unit {0}) → Parsing S B → Parsing S B
p >> q = p >>= λ _. q

abbrev pub pure : {S A : Type 0} → A → Parsing S A
pure a s = some (a, s)

abbrev pub write_line : {S : Type 0} → Line → Parsing S (Unit {0})
write_line line s = some (tt, record s { output = s.output ++ (line ∷ []) })

-- log_error
unfoldable pub log_error : {S D : Type 0} → List ℕ → Parsing S (Expression D)
log_error message = do write_line (error_line (codes "error: " ++ message)); pure Expression.none

unfoldable pub log_error_prototype : {S : Type 0} → List ℕ → Parsing S (Option Prototype)
log_error_prototype message = do write_line (error_line (codes "error: " ++ message)); pure none

-- get_token_precendence
unfoldable pub token_precedence : {D : Type 0} → Token D → ℤ
token_precedence less = pos 10
token_precedence plus = pos 20
token_precedence minus = pos 30
token_precedence star = pos 40
token_precedence _ = negsuc 0

unfoldable pub get_binary_operator : {D : Type 0} → Token D → Option BinaryOperator
get_binary_operator less = some less_than
get_binary_operator plus = some addition
get_binary_operator minus = some subtraction
get_binary_operator star = some multiplication
get_binary_operator _ = none

module _ {S D : Type 0} (source : TokenSource S D) where
  open source use {current_token, get_next_token}

  abbrev pub current : Parsing S (Token D)
  current s = some (current_token s.lexer, s)

  abbrev pub next : Parsing S (Unit {0})
  next s = some (tt, record s { lexer = get_next_token s.lexer })

  -- The functions that parse an expression inside call `parse_expression`, here a parameter.
  module _ (expression : Parsing S (Expression D)) where
    unfoldable pub parse_parenthesis_expression : Parsing S (Expression D)
    parse_parenthesis_expression = do
      next
      expr ← expression
      token ← current
      elim (is_empty expr) [
        | true ↦ pure Expression.none
        | false ↦ elim (is_right_parenthesis token) [
          | true ↦ (do next; pure expr)
          | false ↦ log_error (codes "expected ')'")
        ]
      ]

    -- The loop over the arguments: `none` inside is the early return with an empty expression.
    unfoldable pub parse_arguments : ℕ → Expressions D → Parsing S (Option (Expressions D))
    parse_arguments zero args = λ s. none
    parse_arguments (suc fuel) args = expression >>= λ arg. elim (is_empty arg) [
      | true ↦ pure none
      | false ↦ current >>= λ token. elim (is_right_parenthesis token) [
        | true ↦ pure (some (push_back args arg))
        | false ↦ elim (is_comma token) [
          | true ↦ next >> parse_arguments fuel (push_back args arg)
          | false ↦
              log_error {D = D} (codes "Expected ')' or ',' in argument list") >>= λ _. pure none
        ]
      ]
    ]

    unfoldable pub parse_call : ℕ → Parsing S (Option (Expressions D))
    unfolding parse_arguments
    parse_call fuel = do
      token ← current
      elim (is_right_parenthesis token) [
        | true ↦ pure (some nil)
        | false ↦ parse_arguments fuel nil
      ]

    unfoldable pub parse_identifier_expression : ℕ → List ℕ → Parsing S (Expression D)
    unfolding parse_call
    parse_identifier_expression fuel name = do
      next
      token ← current
      elim (is_left_parenthesis token) [
        | false ↦ pure (Expression.variable name)
        | true ↦ (do
          next
          args ← parse_call fuel
          elim args [
            | none ↦ pure Expression.none
            | some es ↦ (do next; pure (Expression.call name es))
          ])
      ]

    unfoldable pub parse_number_expression : D → Parsing S (Expression D)
    parse_number_expression d = do next; pure (Expression.number d)

    -- The tests of `parse_primary` on the current token.
    unfoldable pub parse_primary_of : ℕ → Token D → Parsing S (Expression D)
    unfolding parse_identifier_expression parse_number_expression parse_parenthesis_expression
    parse_primary_of fuel (identifier name) = parse_identifier_expression fuel name
    parse_primary_of fuel (number d) = parse_number_expression d
    parse_primary_of fuel left_parenthesis = parse_parenthesis_expression
    parse_primary_of fuel eof = pure Expression.none
    parse_primary_of fuel _ = log_error (codes "unknown token when expecting an expression")

    unfoldable pub parse_primary : ℕ → Parsing S (Expression D)
    unfolding parse_primary_of
    parse_primary fuel = do token ← current; parse_primary_of fuel token

    -- parse_binaray_operation_rhs: a round of its loop for each unit of fuel.
    unfoldable pub parse_binary_operation_rhs : ℕ → ℤ → Expression D → Parsing S (Expression D)
    parse_binary_operation_rhs zero precedence lhs = λ s. none
    parse_binary_operation_rhs (suc fuel) precedence lhs = current >>= λ token.
        elim (ltb_ℤ (token_precedence token) precedence) [
          | true ↦ pure lhs
          | false ↦ elim (get_binary_operator token) [
            | none ↦ log_error (codes "unknown binary operator")
            | some op ↦
                next
                >> (parse_primary fuel >>= λ rhs. elim (is_empty rhs) [
                  | true ↦ pure Expression.none
                  | false ↦ current >>= λ pending.
                      elim (ltb_ℤ (token_precedence token) (token_precedence pending)) [
                        | true ↦
                            parse_binary_operation_rhs fuel (token_precedence token +ℤ pos 1) rhs
                            >>= λ rhs'. elim (is_empty rhs') [
                              | true ↦ pure Expression.none
                              | false ↦
                                  parse_binary_operation_rhs fuel precedence
                                    (Expression.binary op lhs rhs')
                            ]
                        | false ↦
                            parse_binary_operation_rhs fuel precedence
                              (Expression.binary op lhs rhs)
                      ]
                ])
          ]
        ]

  unfoldable pub parse_expression : ℕ → Parsing S (Expression D)
  parse_expression zero = λ s. none
  parse_expression (suc fuel) = do
    lhs ← parse_primary (parse_expression fuel) fuel
    elim (is_empty lhs) [
      | true ↦ pure lhs
      | false ↦ parse_binary_operation_rhs (parse_expression fuel) fuel (pos 0) lhs
    ]

  -- The loop of `parse_prototype` over the names, whose test takes the next token.
  unfoldable pub parse_argument_names : ℕ → List (List ℕ) → Parsing S (List (List ℕ))
  parse_argument_names zero names = λ s. none
  parse_argument_names (suc fuel) names =
      next
      >> (current >>= λ token. elim token [
        | identifier name ↦ parse_argument_names fuel (names ++ (name ∷ []))
        | _ ↦ pure names
      ])

  unfoldable pub parse_prototype_of : ℕ → Token D → Parsing S (Option Prototype)
  unfolding parse_argument_names
  parse_prototype_of fuel (identifier function_name) = do
    next
    token ← current
    elim (is_left_parenthesis token) [
      | false ↦ log_error_prototype (codes "expected '(' in prototype")
      | true ↦ (do
        arg_names ← parse_argument_names fuel []
        closing ← current
        elim (is_right_parenthesis closing) [
          | false ↦ log_error_prototype (codes "expected ')' in prototype")
          | true ↦ (do next; pure (some (record { name = function_name; args = arg_names })))
        ])
    ]
  parse_prototype_of fuel _ = log_error_prototype (codes "expected function name in prototype")

  unfoldable pub parse_prototype : ℕ → Parsing S (Option Prototype)
  unfolding parse_prototype_of
  parse_prototype fuel = do token ← current; parse_prototype_of fuel token

  unfoldable pub parse_definition : ℕ → Parsing S (Option (Function D))
  parse_definition fuel = do
    next
    proto ← parse_prototype fuel
    elim proto [
      | none ↦ pure none
      | some p ↦ (do
        expr ← parse_expression fuel
        elim (is_empty expr) [
          | true ↦ pure none
          | false ↦ pure (some (record { proto = p; body = expr }))
        ])
    ]

  unfoldable pub parse_extern : ℕ → Parsing S (Option Prototype)
  parse_extern fuel = do next; parse_prototype fuel

  unfoldable pub parse_top_level_expression : ℕ → Parsing S (Option (Function D))
  parse_top_level_expression fuel = do
    expr ← parse_expression fuel
    elim (is_empty expr) [
      | true ↦ pure none
      | false ↦ pure (some (record { proto = record { name = []; args = [] }; body = expr }))
    ]
