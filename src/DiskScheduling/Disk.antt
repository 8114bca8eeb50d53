-- ===== src/DiskScheduling/Disk.antt =====
-- libs/disk_scheduling/include/disk_scheduling/disk.hpp. A track number, and a request, is its value.
use communicate_between_proc.Prelude.{ℕ, ◌≤◌}

-- The bounds of the tracks, and how many values from 0 on the type has in which two of them are added:
-- `value_type`, or `int` for a shorter one. A sum wraps around there, where it is defined at all.
pub record TypeInfo : Type 0 where
  pub min : ℕ
  pub max : ℕ
  pub sum_count : ℕ

-- What the constructor of a track number asserts.
abbrev pub IsTrack : TypeInfo → ℕ → Type 0
IsTrack info value = (info.min ≤ value) × (value ≤ info.max)

pub data HeadDirection : Type 0 where
  left right : HeadDirection
