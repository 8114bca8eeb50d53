-- ===== src/Threading/HierarchicalMutex.antt =====
-- apps/threading/include/hierarchical_mutex.hpp. A method takes the value of the calling thread and the
-- mutex; std::mutex is whether it is locked, and `blocked` is a call that waits for it.
use communicate_between_proc.Prelude.{
  ℕ, ◌<◌, ◌≡◌, Bool, true, false, Option, none, some, List, [], ◌∷◌, leb, ◌==◌, if◌then◌else◌,
  arith,
}

pub record HierarchicalMutex : Type 0 where
  pub internal_mutex : Bool
  pub hierarchy_value : ℕ
  pub previous_hierarchy_value : ℕ

-- An exception, a call that waits, or the result with the thread's value and the mutex.
pub data Outcome (A : Type 0) : Type 0 where
  violated blocked : Outcome A
  done : A → ℕ → HierarchicalMutex → Outcome A

unfoldable pub create : ℕ → HierarchicalMutex
create value = record {
  internal_mutex = false;
  hierarchy_value = value;
  previous_hierarchy_value = 0;
}

-- check_for_hierarchy_violation: whether it throws.
unfoldable pub violates : ℕ → HierarchicalMutex → Bool
violates this_thread m = leb this_thread m.hierarchy_value

-- update_hierarchy_value, on the mutex, behind the lock of the internal mutex.
unfoldable pub update_hierarchy_value : ℕ → HierarchicalMutex → HierarchicalMutex
update_hierarchy_value this_thread m = record m {
  internal_mutex = true;
  previous_hierarchy_value = this_thread;
}

unfoldable pub lock : ℕ → HierarchicalMutex → Outcome (Unit {0})
unfolding violates update_hierarchy_value
lock this_thread m =
    if violates this_thread m
    then violated
    else if m.internal_mutex
    then blocked
    else done tt m.hierarchy_value (update_hierarchy_value this_thread m)

unfoldable pub unlock : ℕ → HierarchicalMutex → Outcome (Unit {0})
unlock this_thread m =
    if this_thread == m.hierarchy_value
    then done tt m.previous_hierarchy_value (record m { internal_mutex = false })
    else violated

unfoldable pub try_lock : ℕ → HierarchicalMutex → Outcome Bool
unfolding violates update_hierarchy_value
try_lock this_thread m =
    if violates this_thread m
    then violated
    else if m.internal_mutex
    then done false this_thread m
    else done true m.hierarchy_value (update_hierarchy_value this_thread m)

-- A thread that locks mutexes one inside the other, until a call does not return: its value then.
unfoldable pub lock_all : ℕ → List HierarchicalMutex → Option ℕ
lock_all this_thread [] = some this_thread
lock_all this_thread (m ∷ ms) = elim (lock this_thread m) [
  | violated ↦ none
  | blocked ↦ none
  | done _ value _ ↦ lock_all value ms
]

abbrev pub Descending : ℕ → List HierarchicalMutex → Type 0
Descending value [] = Unit
Descending value (m ∷ ms) = (m.hierarchy_value < value) × Descending m.hierarchy_value ms

-- A thread that gets all of a sequence of mutexes, one inside the other, gets them in descending order
-- of their values, below its own.
pub lock_all-Descending :
    (ms : List HierarchicalMutex) (value : ℕ) {value' : ℕ}
    → lock_all value ms ≡ some value'
    → Descending value ms
unfolding lock_all lock
lock_all-Descending [] value h = tt
lock_all-Descending (m ∷ ms) value {value'} h =
    (ground arith, lock_all-Descending ms m.hierarchy_value {value' = value'} (ground arith))

-- A mutex that is free, below the value of the thread, can be locked, and its internal mutex is locked
-- then; unlocking it gives the thread its value back and leaves the mutex free; a lock by the same
-- thread in between would throw, and one by a thread of a higher value waits.
pub unlock-lock :
    (value : ℕ) (m : HierarchicalMutex)
    → m.hierarchy_value < value
    → m.internal_mutex ≡ false
    → (m' : HierarchicalMutex) × (lock value m ≡ done tt m.hierarchy_value m')
      × (m'.internal_mutex ≡ true)
      × (lock m.hierarchy_value m' ≡ violated)
      × ((other : ℕ) → m.hierarchy_value < other → lock other m' ≡ blocked)
      × (unlock m.hierarchy_value m' ≡ done tt value (record m' { internal_mutex = false }))
unfolding lock unlock
unlock-lock value m below free = (
  update_hierarchy_value value m,
  ground arith,
  ground arith,
  ground arith,
  (λ other h. ground arith),
  ground arith,
)
