-- ===== src/DiskScheduling/Scan/Distance.antt =====
-- The distance that is computed is enough for every request, and is not longer than the code's way.
use native.Mathlib.Nat.{mod-eq_of_lt}
use communicate_between_proc.Prelude.{
  ℕ, zero, suc, ◌+◌, ◌-◌, ◌≤◌, ◌<◌, ◌≡◌, ◌⊎◌, inl, inr, refl, dec_le, dec_lt, ◌%◌, some, List, [],
  ◌∷◌, get_elem?, ltb, leb, arith, if◌then◌else◌,
}
use communicate_between_proc.DiskScheduling.Disk.{TypeInfo, IsTrack, HeadDirection, left, right}
use communicate_between_proc.DiskScheduling.Scan.{least, greatest, compute_seek_distance}

-- How far the head moves until it stands on a track, when it first goes all the way in its direction.
abbrev pub reach : TypeInfo → HeadDirection → ℕ → ℕ → ℕ
reach info left head track =
    if leb track head then head - track else (head - info.min) + (track - info.min)
reach info right head track =
    if leb head track then track - head else (info.max - head) + (info.max - track)

between :
    (x : ℕ) (xs : List ℕ) (j : ℕ) {q : ℕ}
    → get_elem? (x ∷ xs) j ≡ some q
    → (least x xs ≤ q) × (q ≤ greatest x xs)
between x [] zero h = (ground arith, ground arith)
between x [] (suc j) h = ground arith
between x (y ∷ ys) zero h = (ground arith, ground arith)
between x (y ∷ ys) (suc j) h = let (l, g) = between y ys j h in (ground arith, ground arith)

-- The extremes are requests.
least_found : (x : ℕ) (xs : List ℕ) → (i : ℕ) × (get_elem? (x ∷ xs) i ≡ some (least x xs))
least_found x [] = (0, refl)
least_found x (y ∷ ys) =
    let (i, e) = least_found y ys in
    elim (dec_le x (least y ys)) [ yes p ↦ (0, ground arith) | no p ↦ (suc i, ground arith) ]

greatest_found : (x : ℕ) (xs : List ℕ) → (i : ℕ) × (get_elem? (x ∷ xs) i ≡ some (greatest x xs))
greatest_found x [] = (0, refl)
greatest_found x (y ∷ ys) =
    let (i, e) = greatest_found y ys in
    elim (dec_le (greatest y ys) x) [ yes p ↦ (0, ground arith) | no p ↦ (suc i, ground arith) ]

-- The way to the end of the disk in the head's direction.
abbrev pub sweep : TypeInfo → HeadDirection → ℕ → ℕ
sweep info left head = head - info.min
sweep info right head = info.max - head

fits :
    (info : TypeInfo) (a b : ℕ)
    → info.max + info.max < info.sum_count
    → a ≤ info.max
    → b ≤ info.max
    → (a + b) % info.sum_count ≡ a + b
fits info a b small ha hb = mod-eq_of_lt (omega arith)

-- For requests and a head that stand on tracks of the disk, where twice the
-- greatest track is a value of the type of the sums: the head comes to each of the requests within the
-- distance that `compute_seek_distance` gives, and that distance is 0, or the way to the end of
-- the disk in the head's direction, or just the distance at which the head comes to one of the requests.
pub reach-compute_seek_distance :
    (info : TypeInfo) (direction : HeadDirection) (requests : List ℕ) (head : ℕ)
    → info.max + info.max < info.sum_count
    → IsTrack info head
    → ((j q : ℕ) → get_elem? requests j ≡ some q → IsTrack info q)
    → let d = compute_seek_distance info requests head direction in
      ((j q : ℕ) → get_elem? requests j ≡ some q → reach info direction head q ≤ d)
      × ((d ≡ 0)
          ⊎ ((d ≡ sweep info direction head)
              ⊎ ((j : ℕ) × (q : ℕ) × (get_elem? requests j ≡ some q)
                  × (d ≡ reach info direction head q))))
unfolding compute_seek_distance
reach-compute_seek_distance info direction [] head small th tq = ((λ j q h. ground arith), inl refl)
reach-compute_seek_distance info left (x ∷ xs) head small th tq =
    let (i, e) = greatest_found x xs in
    let g = tq i (greatest x xs) e in
    let way_back : ℕ = if ltb head (greatest x xs) then greatest x xs - info.min else 0 in
    let fit = fits info (head - info.min) way_back small (omega (arith, th)) (ground (arith, g)) in
    (
      (λ j q h. let (l, u) = between x xs j h in let t = tq j q h in ground (arith, l, u, t, fit)),
      elim (dec_lt head (greatest x xs)) [
        | yes p ↦ inr (inr (i, greatest x xs, e, ground (arith, fit)))
        | no p ↦ ground (arith, fit)
      ],
    )
reach-compute_seek_distance info right (x ∷ xs) head small th tq =
    let (i, e) = least_found x xs in
    let g = tq i (least x xs) e in
    let way_back : ℕ = if ltb (least x xs) head then info.max - least x xs else 0 in
    let fit = fits info way_back (info.max - head) small (ground (arith, g)) (omega arith) in
    (
      (λ j q h. let (l, u) = between x xs j h in let t = tq j q h in ground (arith, l, u, t, fit)),
      elim (dec_lt (least x xs) head) [
        | yes p ↦ inr (inr (i, least x xs, e, ground (arith, fit)))
        | no p ↦ ground (arith, fit)
      ],
    )
