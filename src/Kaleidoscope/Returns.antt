-- ===== src/Kaleidoscope/Returns.antt =====
-- A run on fuel that returns, and what its result satisfies.
use communicate_between_proc.Prelude.{◌≡◌, refl, Bool, true, false, Option, none, some}

-- The run did not use up its fuel, and `P` holds of its result.
pub data Returns {A : Type 0} (P : A → Type 0) : Option A → Type 0 where
  returns : {a : A} → P a → Returns P (some a)

pub Returns-some :
    {A : Type 0} {P : A → Type 0} {r : Option A} → Returns P r → (a : A) × (r ≡ some a) × P a
Returns-some (returns {a} h) = (a, refl, h)

pub Returns-map :
    {A : Type 0} {P Q : A → Type 0} {r : Option A}
    → Returns P r
    → ((a : A) → P a → Q a)
    → Returns Q r
Returns-map (returns {a} h) k = returns (k a h)

pub Returns-test :
    {A : Type 0} {P : A → Type 0} (b : Bool) (x y : Option A)
    → (b ≡ true → Returns P x)
    → (b ≡ false → Returns P y)
    → Returns P (elim b as (λ _. Option A) [ true ↦ x | false ↦ y ])
Returns-test true x y h k = h refl
Returns-test false x y h k = k refl

pub Returns-found :
    {A B : Type 0} {P : A → Type 0} (o : Option B) (x : Option A) (y : B → Option A)
    → Returns P x
    → ((b : B) → Returns P (y b))
    → Returns P (elim o as (λ _. Option A) [ none ↦ x | some b ↦ y b ])
Returns-found none x y h k = h
Returns-found (some b) x y h k = k b

pub Returns-step :
    {A B : Type 0} {P : A → Type 0} {Q : B → Type 0} {r : Option A} (k : A → Option B)
    → Returns P r
    → ((a : A) → P a → Returns Q (k a))
    → Returns Q (elim r as (λ _. Option B) [ none ↦ none | some a ↦ k a ])
Returns-step k (returns {a} h) next = next a h
