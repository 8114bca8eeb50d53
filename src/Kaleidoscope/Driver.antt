-- ===== src/Kaleidoscope/Driver.antt =====
-- apps/create_language/include/kaleidoscope/parser.hpp, the handlers and `main_loop`. Each round of the
-- loop costs a unit of fuel, and hands on the fuel of its parse functions.
pub mod Termination
use communicate_between_proc.Prelude.{
  ℕ, zero, suc, Bool, true, false, List, [], ◌∷◌, ◌++◌, Option, none, some, codes, ◌==◌,
  if◌then◌else◌,
}
use communicate_between_proc.Kaleidoscope.Token.{
  Token, eof, left_parenthesis, right_parenthesis, comma, def, extern, identifier, number, unknown,
  less, plus, minus, star,
}
use communicate_between_proc.Kaleidoscope.Syntax.{Prototype, Function}
use communicate_between_proc.Kaleidoscope.Parser.{
  TokenSource, Line, error_line, output_line, State, Parsing, ◌>>=◌, ◌>>◌, pure, write_line,
  current, next, parse_definition, parse_extern, parse_top_level_expression,
}

-- What is printed of the arguments of an external prototype.
unfoldable pub write_args : {S : Type 0} → List (List ℕ) → Parsing S (Unit {0})
write_args [] = pure tt
write_args (arg ∷ args) = write_line (output_line (codes "    arg: " ++ arg)) >> write_args args

module _ {S D : Type 0} (source : TokenSource S D) where
  unfoldable pub handle_definition : ℕ → Parsing S (Unit {0})
  handle_definition fuel = do
    parsed ← parse_definition source fuel
    elim parsed [
      | some f ↦ write_line (output_line (codes "parsed a function definition"))
      | none ↦ (do
        write_line (error_line (codes "failed parsing a function definition"))
        next source)
    ]

  unfoldable pub handle_extern : ℕ → Parsing S (Unit {0})
  unfolding write_args
  handle_extern fuel = do
    parsed ← parse_extern source fuel
    elim parsed [
      | some p ↦ (do
        write_line (output_line (codes "parsed an extern"))
        write_line (output_line (codes "name: " ++ p.name))
        write_args p.args)
      | none ↦ (do write_line (error_line (codes "failed parsing an extern")); next source)
    ]

  unfoldable pub handle_top_level_expression : ℕ → Parsing S (Unit {0})
  handle_top_level_expression fuel = do
    parsed ← parse_top_level_expression source fuel
    elim parsed [
      | some f ↦ write_line (output_line (codes "parsed a top-level expr"))
      | none ↦ (do write_line (error_line (codes "failed parsing a top-level expr")); next source)
    ]

  -- The tests of the loop on the current token, but for the end of file.
  unfoldable pub handle_token : ℕ → Token D → Parsing S (Unit {0})
  unfolding handle_definition handle_extern handle_top_level_expression
  handle_token fuel (unknown c) =
      if c == b';' then next source else handle_top_level_expression fuel
  handle_token fuel def = handle_definition fuel
  handle_token fuel extern = handle_extern fuel
  handle_token fuel _ = handle_top_level_expression fuel

  -- The loop of `main_loop`; the first argument bounds its rounds.
  unfoldable pub rounds : ℕ → ℕ → Parsing S (Unit {0})
  rounds zero fuel = λ s. none
  rounds (suc n) fuel = current source >>= λ token. elim token [
    | eof ↦ pure tt
    | other ↦ handle_token fuel other >> rounds n fuel
  ]

  -- `main_loop`, which first takes a token.
  unfoldable pub main_loop : ℕ → Parsing S (Unit {0})
  unfolding rounds
  main_loop fuel = next source >> rounds fuel fuel
