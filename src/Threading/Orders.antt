-- ===== src/Threading/Orders.antt =====
-- The results of the threads of apps/threading/include/parallel_accumulate.hpp, in any order.
use communicate_between_proc.Prelude.{
  ℕ, zero, suc, ◌+◌, ◌<◌, ◌≡◌, ◌≢◌, refl, sym, ap, ap₂, ◌∙◌, none, some, List, [], ◌∷◌, map, length,
  get_elem?, get_elem?-set_self, get_elem?-set_ne, ◌==◌, if◌then◌else◌, Option-cases, inl, inr,
  ℕ_discrete, arith,
}
use communicate_between_proc.Threading.ParallelAccumulate.{
  accumulate, accumulate_block, accumulate_blocks,
}

-- How often a block is accumulated.
abbrev pub occurrences : ℕ → List ℕ → ℕ
occurrences i [] = 0
occurrences i (j ∷ order) = if i == j then 1 + occurrences i order else occurrences i order

module _ {ℓ} {A : Type ℓ} where
  pub get_elem?-lt : (xs : List A) (i : ℕ) (x : A) → get_elem? xs i ≡ some x → i < length xs
  get_elem?-lt [] i x h = absurd (ground (arith, h))
  get_elem?-lt (y ∷ xs) zero x h = omega arith
  get_elem?-lt (y ∷ xs) (suc i) x h = omega (arith, get_elem?-lt xs i x h)

  list_ext : (xs ys : List A) → ((i : ℕ) → get_elem? xs i ≡ get_elem? ys i) → xs ≡ ys
  list_ext [] [] h = refl
  list_ext [] (y ∷ ys) h = absurd (ground (arith, h 0))
  list_ext (x ∷ xs) [] h = absurd (ground (arith, h 0))
  list_ext (x ∷ xs) (y ∷ ys) h =
      let head : x ≡ y = ground (arith, h 0) in
      ap₂ (λ z zs. z ∷ zs) head (list_ext xs ys (λ i. h (suc i)))

module _ {ℓ} {A : Type ℓ} (f : List A → A) where
  get_elem?-map-some :
      (bs : List (List A)) (i : ℕ) (b : List A)
      → get_elem? bs i ≡ some b
      → get_elem? (map f bs) i ≡ some (f b)
  get_elem?-map-some [] i b h = absurd (ground (arith, h))
  get_elem?-map-some (c ∷ bs) zero b h = ap (λ o. elim o [ none ↦ none | some c' ↦ some (f c') ]) h
  get_elem?-map-some (c ∷ bs) (suc i) b h = get_elem?-map-some bs i b h

  get_elem?-map-none :
      (bs : List (List A)) (i : ℕ) → get_elem? bs i ≡ none → get_elem? (map f bs) i ≡ none
  get_elem?-map-none [] i h = refl
  get_elem?-map-none (c ∷ bs) zero h = absurd (ground (arith, h))
  get_elem?-map-none (c ∷ bs) (suc i) h = get_elem?-map-none bs i h

module _ {ℓ} {A : Type ℓ} (plus : A → A → A) (bs : List (List A)) where
  block_other :
      (i j : ℕ) (results : List A)
      → i ≢ j
      → get_elem? (accumulate_block plus bs j results) i ≡ get_elem? results i
  unfolding accumulate_block
  block_other i j results ne = elim (Option-cases (get_elem? bs j)) [
    | inl e ↦ rw (accumulate_block, e) refl
    | inr (b, e) ↦ elim (Option-cases (get_elem? results j)) [
      | inl e' ↦ rw (accumulate_block, e, e') refl
      | inr (r, e') ↦
          rw (accumulate_block, e, e') (get_elem?-set_ne results _ (λ same. ne (sym same)))
    ]
  ]

  block_self :
      (i : ℕ) (results : List A) (b : List A) (r : A)
      → get_elem? bs i ≡ some b
      → get_elem? results i ≡ some r
      → get_elem? (accumulate_block plus bs i results) i ≡ some (accumulate plus b r)
  unfolding accumulate_block
  block_self i results b r e e' =
      rw (accumulate_block, e, e') (get_elem?-set_self results i _ (get_elem?-lt results i r e'))

  block_out :
      (i j : ℕ) (results : List A)
      → get_elem? bs i ≡ none
      → get_elem? (accumulate_block plus bs j results) i ≡ get_elem? results i
  unfolding accumulate_block
  block_out i j results e = elim (ℕ_discrete i j) [
    | yes same ↦ rw (sym same, accumulate_block, e) refl
    | no ne ↦ block_other i j results ne
  ]

  blocks_out :
      (order : List ℕ) (i : ℕ) (results : List A)
      → get_elem? bs i ≡ none
      → get_elem? (accumulate_blocks plus bs order results) i ≡ get_elem? results i
  unfolding accumulate_blocks
  blocks_out [] i results e = refl
  blocks_out (j ∷ order) i results e =
      blocks_out order i (accumulate_block plus bs j results) e ∙ block_out i j results e

  blocks_never :
      (order : List ℕ) (i : ℕ) (results : List A)
      → occurrences i order ≡ 0
      → get_elem? (accumulate_blocks plus bs order results) i ≡ get_elem? results i
  unfolding accumulate_blocks
  blocks_never [] i results h = refl
  blocks_never (j ∷ order) i results h =
      let ne : i ≢ j = λ e. absurd (ground (arith, e, h)) in
      let rest : occurrences i order ≡ 0 = ground (arith, h) in
      blocks_never order i (accumulate_block plus bs j results) rest ∙ block_other i j results ne

  blocks_once :
      (order : List ℕ) (i : ℕ) (results : List A) (b : List A) (r : A)
      → occurrences i order ≡ 1
      → get_elem? bs i ≡ some b
      → get_elem? results i ≡ some r
      → get_elem? (accumulate_blocks plus bs order results) i ≡ some (accumulate plus b r)
  unfolding accumulate_blocks
  blocks_once [] i results b r h e e' = absurd (omega (arith, h))
  blocks_once (j ∷ order) i results b r h e e' = elim (ℕ_discrete i j) [
    | yes same ↦
        let rest : occurrences i order ≡ 0 = ground (arith, same, h) in
        blocks_never order i (accumulate_block plus bs j results) rest
        ∙ ap (λ k. get_elem? (accumulate_block plus bs k results) i) (sym same)
        ∙ block_self i results b r e e'
    | no ne ↦
        let rest : occurrences i order ≡ 1 = ground (arith, ne, h) in
        blocks_once order i (accumulate_block plus bs j results) b r rest e
          (block_other i j results ne ∙ e')
  ]

  -- Every block is accumulated once, from `value`.
  pub blocks_results :
      (value : A) (order : List ℕ)
      → ((i : ℕ) → i < length bs → occurrences i order ≡ 1)
      → accumulate_blocks plus bs order (map (λ b. value) bs)
        ≡ map (λ b. accumulate plus b value) bs
  blocks_results value order once = list_ext _ _ (λ i. elim (Option-cases (get_elem? bs i)) [
    | inl e ↦
        blocks_out order i (map (λ b. value) bs) e
        ∙ get_elem?-map-none (λ b. value) bs i e
        ∙ sym (get_elem?-map-none (λ b. accumulate plus b value) bs i e)
    | inr (b, e) ↦
        blocks_once order i (map (λ b. value) bs) b value (once i (get_elem?-lt bs i b e)) e
          (get_elem?-map-some (λ b. value) bs i b e)
        ∙ sym (get_elem?-map-some (λ b. accumulate plus b value) bs i b e)
  ])
