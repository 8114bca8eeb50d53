-- ===== src/DiskScheduling/Tests.antt =====
-- The results on libs/disk_scheduling at the requests of use_scan.cpp.
use communicate_between_proc.Prelude.{
  zero, suc, ℕ, ◌≤◌, ◌<◌, ◌≡◌, ◌⊎◌, refl, some, get_elem?, List, [], ◌∷◌, arith,
}
use communicate_between_proc.DiskScheduling.Disk.{TypeInfo, IsTrack, left, right}
use communicate_between_proc.DiskScheduling.Scan.{
  compute_seek_distance, sort, select_next_of_array, select_next_of_set,
}
use communicate_between_proc.DiskScheduling.Scan.Distance.{
  reach, sweep, reach-compute_seek_distance,
}
use communicate_between_proc.DiskScheduling.Scan.Selection.{select_next_right, select_next_left}

abbrev disk_info : TypeInfo
disk_info = record { min = 0; max = 199; sum_count = 2147483648 }

abbrev requests : List ℕ
requests = 176 ∷ 79 ∷ 34 ∷ 60 ∷ 92 ∷ 11 ∷ 41 ∷ 114 ∷ []

seek_distance : compute_seek_distance disk_info requests 50 left ≡ 226
unfolding compute_seek_distance
seek_distance = refl

-- A request at the head: on the array the head stays where it is, on the set it moves on.
at_the_head :
    (select_next_of_array left 60 requests ≡ (some 60, left))
    × (select_next_of_set left 60 (sort requests) ≡ (some 41, left))
unfolding select_next_of_array select_next_of_set
at_the_head = (refl, refl)

tracks : (j q : ℕ) → get_elem? (34 ∷ 176 ∷ []) j ≡ some q → IsTrack disk_info q
tracks zero q h = ground arith
tracks (suc zero) q h = ground arith
tracks (suc (suc j)) q h = ground arith

reach-compute_seek_distance_example :
    let d = compute_seek_distance disk_info (34 ∷ 176 ∷ []) 50 left in
    ((j q : ℕ) → get_elem? (34 ∷ 176 ∷ []) j ≡ some q → reach disk_info left 50 q ≤ d)
    × ((d ≡ 0)
        ⊎ ((d ≡ sweep disk_info left 50)
            ⊎ ((j : ℕ) × (q : ℕ) × (get_elem? (34 ∷ 176 ∷ []) j ≡ some q)
                × (d ≡ reach disk_info left 50 q))))
reach-compute_seek_distance_example =
    reach-compute_seek_distance disk_info left (34 ∷ 176 ∷ []) 50 (omega arith)
      (omega arith, omega arith) tracks

select_next_right_example :
    (x : ℕ) × (i : ℕ) × (get_elem? (sort requests) i ≡ some x)
    × ((select_next_of_set right 189 (sort requests)).0 ≡ some x)
    × ((((select_next_of_set right 189 (sort requests)).1 ≡ right)
          × (189 < x)
          × ((11 ≤ 189) ⊎ (x ≤ 11)))
        ⊎ (((select_next_of_set right 189 (sort requests)).1 ≡ left) × (11 ≤ 189) × (11 ≤ x)))
select_next_right_example =
    select_next_right (sort requests) 189 0
      (
        omega arith,
        (
          omega arith,
          (omega arith, (omega arith, (omega arith, (omega arith, (omega arith, tt))))),
        ),
      )
      refl

select_next_left_example :
    (x : ℕ) × (i : ℕ) × (get_elem? (sort requests) i ≡ some x)
    × ((select_next_of_set left 189 (sort requests)).0 ≡ some x)
    × ((((select_next_of_set left 189 (sort requests)).1 ≡ left)
          × (x < 189)
          × ((189 ≤ 11) ⊎ (11 ≤ x)))
        ⊎ (((select_next_of_set left 189 (sort requests)).1 ≡ right) × (189 ≤ 11) × (x ≤ 11)))
select_next_left_example =
    select_next_left (sort requests) 189 0
      (
        omega arith,
        (
          omega arith,
          (omega arith, (omega arith, (omega arith, (omega arith, (omega arith, tt))))),
        ),
      )
      refl
