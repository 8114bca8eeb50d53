-- ===== src/Threading.antt =====
-- apps/threading: the classes that threads share.
pub mod HierarchicalMutex
pub mod ParallelAccumulate
pub mod ThreadsafeQueue
pub mod Wakeups
pub mod Orders
pub mod Sums
pub mod Tests
