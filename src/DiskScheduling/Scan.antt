-- ===== src/DiskScheduling/Scan.antt =====
-- libs/disk_scheduling/include/disk_scheduling/scan.hpp. The scheduler is its direction; a call
-- returns the request and the new direction, and no request where the code reads past an empty array.
pub mod Distance
pub mod Selection
use communicate_between_proc.Prelude.{
  ℕ, zero, suc, min, max, ◌+◌, ◌-◌, ◌%◌, Bool, true, false, not, Option, none, some, List, [], ◌∷◌,
  length, get_elem?, ltb, leb, ◌==◌, ◌&&◌, if◌then◌else◌,
}
use communicate_between_proc.DiskScheduling.Disk.{TypeInfo, HeadDirection, left, right}

-- The values that std::minmax_element points at, of a list with a first element.
abbrev pub least : ℕ → List ℕ → ℕ
least x [] = x
least x (y ∷ ys) = min x (least y ys)

abbrev pub greatest : ℕ → List ℕ → ℕ
greatest x [] = x
greatest x (y ∷ ys) = max x (greatest y ys)

unfoldable pub compute_seek_distance : TypeInfo → List ℕ → ℕ → HeadDirection → ℕ
compute_seek_distance info [] head direction = 0
compute_seek_distance info (x ∷ xs) head left =
    if least x xs == greatest x xs && least x xs == head
    then 0
    else ((head - info.min) + (if ltb head (greatest x xs) then greatest x xs - info.min else 0))
      % info.sum_count
compute_seek_distance info (x ∷ xs) head right =
    if least x xs == greatest x xs && least x xs == head
    then 0
    else ((if ltb (least x xs) head then info.max - least x xs else 0) + (info.max - head))
      % info.sum_count

-- std::sort on the requests.
abbrev pub insert : ℕ → List ℕ → List ℕ
insert x [] = x ∷ []
insert x (y ∷ ys) = elim (leb x y) [ true ↦ x ∷ y ∷ ys | false ↦ y ∷ insert x ys ]

abbrev pub sort : List ℕ → List ℕ
sort [] = []
sort (x ∷ xs) = insert x (sort xs)

-- The index of the first request that fails the test, or the number of requests.
abbrev pub bound : (ℕ → Bool) → List ℕ → ℕ
bound test [] = 0
bound test (x ∷ xs) = elim (test x) [ true ↦ suc (bound test xs) | false ↦ 0 ]

-- The loop over the array, and std::upper_bound on the sorted set.
abbrev pub upper_bound : ℕ → List ℕ → ℕ
upper_bound head requests = bound (λ r. not (ltb head r)) requests

-- std::lower_bound.
abbrev pub lower_bound : ℕ → List ℕ → ℕ
lower_bound head requests = bound (λ r. ltb r head) requests

-- `select_next` on an array, which it sorts.
unfoldable pub select_next_of_array : HeadDirection → ℕ → List ℕ → Option ℕ × HeadDirection
select_next_of_array direction head unsorted =
    let requests = sort unsorted in
    let index = upper_bound head requests in
    elim direction [
      | right ↦
          if index == length requests
          then (get_elem? requests (length requests - 1), left)
          else (get_elem? requests index, right)
      | left ↦
          if index == 0
          then (get_elem? requests 0, right)
          else (get_elem? requests (index - 1), left)
    ]

-- `select_next` on a flat set, which keeps its requests sorted.
unfoldable pub select_next_of_set : HeadDirection → ℕ → List ℕ → Option ℕ × HeadDirection
select_next_of_set direction head requests =
    let first_greater = upper_bound head requests in
    let not_less = lower_bound head requests in
    elim direction [
      | right ↦
          if first_greater == length requests
          then (get_elem? requests (length requests - 1), left)
          else (get_elem? requests first_greater, right)
      | left ↦
          if not_less == 0
          then (get_elem? requests 0, right)
          else (get_elem? requests (not_less - 1), left)
    ]
