-- ===== src/LockFree/Atomic.antt =====
-- The compare-and-exchange of std::atomic on a counter, as the code of libs/lock_free uses it:
-- whether it succeeded, the counter afterwards, and the caller's `expected` afterwards.
use communicate_between_proc.Prelude.{ℕ, Bool, true, false, ◌==◌, if◌then◌else◌}

abbrev pub compare_exchange : ℕ → ℕ → ℕ → Bool × ℕ × ℕ
compare_exchange current expected desired =
    if current == expected then (true, desired, expected) else (false, current, current)
