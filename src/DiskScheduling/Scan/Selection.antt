-- ===== src/DiskScheduling/Scan/Selection.antt =====
-- Which request is selected.
use communicate_between_proc.Prelude.{
  ℕ, zero, suc, ◌-◌, ◌≤◌, ◌<◌, ◌≡◌, ◌⊎◌, inl, inr, refl, ap, ◌∙◌, Bool, true, false, not, some,
  List, [], ◌∷◌, length, get_elem?, ltb, arith, dec_lt, ℕ_discrete,
}
use communicate_between_proc.DiskScheduling.Disk.{left, right}
use communicate_between_proc.DiskScheduling.Scan.{
  bound, upper_bound, lower_bound, select_next_of_set,
}

-- In ascending order.
abbrev pub From : ℕ → List ℕ → Type 0
From x [] = Unit
From x (y ∷ ys) = (x ≤ y) × From y ys

abbrev pub Sorted : List ℕ → Type 0
Sorted [] = Unit
Sorted (x ∷ xs) = From x xs

From-get_elem? :
    (x : ℕ) (xs : List ℕ) (j : ℕ) {b : ℕ} → From x xs → get_elem? (x ∷ xs) j ≡ some b → x ≤ b
From-get_elem? x xs zero s h = ground arith
From-get_elem? x [] (suc j) s h = ground arith
From-get_elem? x (y ∷ ys) (suc j) s h = omega (arith, s.0, From-get_elem? y ys j s.1 h)

Sorted-tail : (x : ℕ) (xs : List ℕ) → From x xs → Sorted xs
Sorted-tail x [] s = tt
Sorted-tail x (y ∷ ys) s = s.1

ascending :
    (xs : List ℕ) (i j : ℕ) {a b : ℕ}
    → Sorted xs
    → i ≤ j
    → get_elem? xs i ≡ some a
    → get_elem? xs j ≡ some b
    → a ≤ b
ascending [] i j s h p q = ground arith
ascending (x ∷ xs) zero j s h p q = let f = From-get_elem? x xs j s q in ground arith
ascending (x ∷ xs) (suc i) zero s h p q = absurd (omega arith)
ascending (x ∷ xs) (suc i) (suc j) s h p q = ascending xs i j (Sorted-tail x xs s) (omega arith) p q

bound-le-length : (test : ℕ → Bool) (xs : List ℕ) → bound test xs ≤ length xs
bound-le-length test [] = omega arith
bound-le-length test (x ∷ xs) = let h = bound-le-length test xs in ground arith

before_bound :
    (test : ℕ → Bool) (xs : List ℕ) (i : ℕ) {a : ℕ}
    → i < bound test xs
    → get_elem? xs i ≡ some a
    → test a ≡ true
before_bound test [] i h p = ground arith
before_bound test (x ∷ xs) zero h p = ground arith
before_bound test (x ∷ xs) (suc i) h p = before_bound test xs i (ground arith) p

at_bound :
    (test : ℕ → Bool) (xs : List ℕ) {a : ℕ} → get_elem? xs (bound test xs) ≡ some a → test a ≡ false
at_bound test [] p = ground arith
at_bound test (x ∷ xs) {a} p = at_first (test x) refl (at_bound test xs) p
  where
    at_first :
        (b : Bool)
        → test x ≡ b
        → (get_elem? xs (bound test xs) ≡ some a → test a ≡ false)
        → get_elem? (x ∷ xs) (elim b as (λ _. ℕ) [ true ↦ suc (bound test xs) | false ↦ 0 ])
          ≡ some a
        → test a ≡ false
    at_first true e later q = later q
    at_first false e later q = ground arith

exists_elem : (xs : List ℕ) (i : ℕ) → i < length xs → (x : ℕ) × (get_elem? xs i ≡ some x)
exists_elem [] i h = elim h [ ]
exists_elem (x ∷ xs) zero h = (x, refl)
exists_elem (x ∷ xs) (suc i) h = exists_elem xs i (omega arith)

in_range : (xs : List ℕ) (i : ℕ) {a : ℕ} → get_elem? xs i ≡ some a → i < length xs
in_range [] i p = ground arith
in_range (x ∷ xs) zero p = omega arith
in_range (x ∷ xs) (suc i) p = omega (arith, in_range xs i p)

-- Going right over sorted requests, for each request `q` of them: one of them is selected; it lies above the head,
-- nearest to it, and the direction stays; or no request does, and the greatest is selected and
-- the direction turns.
pub select_next_right :
    (requests : List ℕ) (head j : ℕ) {q : ℕ}
    → Sorted requests
    → get_elem? requests j ≡ some q
    → let (selected, direction) = select_next_of_set right head requests in
      (x : ℕ) × (i : ℕ) × (get_elem? requests i ≡ some x)
      × (selected ≡ some x)
      × (((direction ≡ right) × (head < x) × ((q ≤ head) ⊎ (x ≤ q)))
          ⊎ ((direction ≡ left) × (q ≤ head) × (q ≤ x)))
unfolding select_next_of_set
select_next_right rs head j {q} s h =
    let u : ℕ = upper_bound head rs in
    let j_in = in_range rs j h in
    let u_in : u ≤ length rs = bound-le-length (λ r. not (ltb head r)) rs in
    let below : j < u → not (ltb head q) ≡ true =
      λ less. before_bound (λ r. not (ltb head r)) rs j less h in
    elim (ℕ_discrete u (length rs)) [
      | yes e ↦
          let (x, here) = exists_elem rs (length rs - 1) (omega arith) in
          let up = ascending rs j (length rs - 1) s (omega arith) h here in
          let low = below (omega arith) in
          (x, length rs - 1, here, ground arith, inr (ground arith, ground arith, up))
      | no n ↦
          let (x, here) = exists_elem rs u (omega arith) in
          let above = at_bound (λ r. not (ltb head r)) rs here in
          (
            x,
            u,
            here,
            ground arith,
            inl (
              ground arith,
              ground arith,
              elim (dec_lt j u) [
                | yes less ↦ let low = below less in inl (ground arith)
                | no more ↦ inr (ascending rs u j s (omega arith) here h)
              ],
            ),
          )
    ]

-- Going left over sorted requests, for each request `q` of them: one of them is selected; it lies below the head,
-- nearest to it, and the direction stays; or no request does, and the least is selected and the
-- direction turns.
pub select_next_left :
    (requests : List ℕ) (head j : ℕ) {q : ℕ}
    → Sorted requests
    → get_elem? requests j ≡ some q
    → let (selected, direction) = select_next_of_set left head requests in
      (x : ℕ) × (i : ℕ) × (get_elem? requests i ≡ some x)
      × (selected ≡ some x)
      × (((direction ≡ left) × (x < head) × ((head ≤ q) ⊎ (q ≤ x)))
          ⊎ ((direction ≡ right) × (head ≤ q) × (x ≤ q)))
unfolding select_next_of_set
select_next_left rs head j {q} s h =
    let l : ℕ = lower_bound head rs in
    let j_in = in_range rs j h in
    let l_in : l ≤ length rs = bound-le-length (λ r. ltb r head) rs in
    elim (ℕ_discrete l 0) [
      | yes e ↦
          let (x, here) = exists_elem rs 0 (omega arith) in
          let up = ascending rs 0 j s (omega arith) here h in
          let stop : get_elem? rs l ≡ some x = ap (get_elem? rs) e ∙ here in
          let above = at_bound (λ r. ltb r head) rs stop in
          (x, 0, here, ground arith, inr (ground arith, ground arith, up))
      | no n ↦
          let (x, here) = exists_elem rs (l - 1) (omega arith) in
          let below = before_bound (λ r. ltb r head) rs (l - 1) (omega arith) here in
          (
            x,
            l - 1,
            here,
            ground arith,
            inl (
              ground arith,
              ground arith,
              elim (dec_lt j l) [
                | yes less ↦ inr (ascending rs j (l - 1) s (omega arith) h here)
                | no more ↦
                    let (y, stop) = exists_elem rs l (omega arith) in
                    let above = at_bound (λ r. ltb r head) rs stop in
                    let up = ascending rs l j s (omega arith) stop h in inl (ground arith)
              ],
            ),
          )
    ]
