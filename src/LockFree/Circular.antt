-- ===== src/LockFree/Circular.antt =====
-- A circular view of an array: what the ring buffer of libs/lock_free stores in it.
-- A cell out of range holds nothing.
use native.Mathlib.Nat.{mod-eq_of_lt, mod-add-mod, mod-eq-sub-mod}
use communicate_between_proc.Prelude.{
  ℕ, zero, suc, ◌+◌, ◌-◌, ◌%◌, ◌≤◌, ◌<◌, ◌≡◌, ◌≢◌, refl, sym, ap, ap₂, subst, ◌∙◌, List, [], ◌∷◌,
  ◌++◌, none, some, arith, dec_lt, ltb, if◌then◌else◌, length, length-append, get_elem?,
  get_elem?-set_self, get_elem?-set_ne, set, append_assoc,
}

abbrev pub cell {ℓ} : {A : Type ℓ} → List A → ℕ → List A
cell buf i = elim (get_elem? buf i) [ none ↦ [] | some x ↦ x ∷ [] ]

-- The `n` values from index `h` on, going round at `cap`.
abbrev pub window {ℓ} : {A : Type ℓ} → List A → ℕ → ℕ → ℕ → List A
window buf cap h zero = []
window buf cap h (suc n) = cell buf h ++ window buf cap ((h + 1) % cap) n

-- An index moved on by at most once round.
around_lem :
    (cap k : ℕ) {h : ℕ}
    → k ≤ cap
    → h < cap
    → (h + k) % cap ≡ (if ltb (h + k) cap then h + k else h + k - cap)
around_lem cap k {h} hk hh = elim (dec_lt (h + k) cap) [
  | yes within ↦ ground (arith, mod-eq_of_lt within)
  | no over ↦
      let once : (h + k) % cap ≡ (h + k - cap) % cap = mod-eq-sub-mod (omega arith) in
      ground (arith, once, mod-eq_of_lt {n = h + k - cap} {m = cap} (omega arith))
]

step_then : (cap h n : ℕ) → ((h + 1) % cap + n) % cap ≡ (h + suc n) % cap
step_then cap h n = rw mod-add-mod (ap (λ k. k % cap) (omega arith))

module _ {ℓ} {A : Type ℓ} where
  pub exists_cell : (buf : List A) (i : ℕ) → i < length buf → (x : A) × (get_elem? buf i ≡ some x)
  exists_cell [] i h = elim h [ ]
  exists_cell (x ∷ xs) zero h = (x, refl)
  exists_cell (x ∷ xs) (suc i) h = exists_cell xs i (omega arith)

  length-cell : (buf : List A) (i : ℕ) → i < length buf → length (cell buf i) ≡ 1
  length-cell buf i h = let (x, e) = exists_cell buf i h in rw (e, cell, length)

  pub length-window :
      (buf : List A) (cap h n : ℕ) → cap ≤ length buf → h < cap → length (window buf cap h n) ≡ n
  length-window buf cap h zero p q = refl
  length-window buf cap h (suc n) p q = omega (
    arith,
    length-append (cell buf h) (window buf cap ((h + 1) % cap) n),
    length-cell buf h (omega arith),
    length-window buf cap ((h + 1) % cap) n p (omega arith),
  )

  -- The value written `n` places after the start of a window of `n` values comes behind them.
  pub window-extends :
      (n : ℕ) (x : A) (buf : List A) {cap h : ℕ}
      → n < cap
      → h < cap
      → cap ≤ length buf
      → window (set buf ((h + n) % cap) x) cap h (suc n) ≡ window buf cap h n ++ (x ∷ [])
  window-extends zero x buf {cap} {h} hn hh hs =
      let start : (h + 0) % cap ≡ h = ground (arith, around_lem cap 0 (omega arith) hh) in
      rw (start, get_elem?-set_self buf h x (omega arith), cell)
  window-extends (suc n) x buf {cap} {h} hn hh hs =
      subst (λ i. window (set buf i x) cap h (suc (suc n)) ≡ window buf cap h (suc n) ++ (x ∷ []))
        (step_then cap h n)
        (ap₂ ◌++◌ first_kept (window-extends n x buf (omega arith) (omega arith) hs)
          ∙ sym (append_assoc (cell buf h) _ _))
    where
      apart : ((h + 1) % cap + n) % cap ≢ h
      apart p =
          let e : (h + suc n) % cap ≡ h = sym (step_then cap h n) ∙ p in
          ground (arith, around_lem cap (suc n) (omega arith) hh)

      first_kept : cell (set buf (((h + 1) % cap + n) % cap) x) h ≡ cell buf h
      first_kept = rw (get_elem?-set_ne buf x apart, cell)
