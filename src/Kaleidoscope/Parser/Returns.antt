-- ===== src/Kaleidoscope/Parser/Returns.antt =====
-- Rules for the steps of a parser that returns.
use communicate_between_proc.Prelude.{◌≡◌, refl, Bool, true, false, Option, none, some}
pub use communicate_between_proc.Kaleidoscope.Returns.{Returns, returns, Returns-some, Returns-map}
use communicate_between_proc.Kaleidoscope.Parser.{State, Parsing, ◌>>=◌}

module _ {S A B : Type 0} where
  pub Returns-bind :
      {P : A × State S → Type 0} {Q : B × State S → Type 0} (p : Parsing S A) (f : A → Parsing S B)
      (s : State S)
      → Returns P (p s)
      → ((a : A) (s' : State S) → P (a, s') → Returns Q (f a s'))
      → Returns Q ((p >>= f) s)
  Returns-bind {P} {Q} p f s h k = go (p s) h
    where
      go :
          (r : Option (A × State S))
          → Returns P r
          → Returns Q (elim r [ none ↦ none | some (a, s') ↦ f a s' ])
      go none q = elim q [ ]
      go (some (a, s')) (returns q) = k a s' q

module _ {S A : Type 0} {P : A × State S → Type 0} where
  pub Returns-if :
      (b : Bool) (p q : Parsing S A) (s : State S)
      → (b ≡ true → Returns P (p s))
      → (b ≡ false → Returns P (q s))
      → Returns P ((elim b as (λ _. Parsing S A) [ true ↦ p | false ↦ q ]) s)
  Returns-if true p q s h k = h refl
  Returns-if false p q s h k = k refl

  pub Returns-option :
      {B : Type 0} (o : Option B) (p : Parsing S A) (q : B → Parsing S A) (s : State S)
      → (o ≡ none → Returns P (p s))
      → ((b : B) → o ≡ some b → Returns P (q b s))
      → Returns P ((elim o as (λ _. Parsing S A) [ none ↦ p | some b ↦ q b ]) s)
  Returns-option none p q s h k = h refl
  Returns-option (some b) p q s h k = k b refl
