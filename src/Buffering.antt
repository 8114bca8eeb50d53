-- ===== src/Buffering.antt =====
-- apps/consumer_producer_problem: producers and consumers in processes over a ring buffer in shared
-- memory and four semaphores.
pub mod ProcessInfo
pub mod Process
pub mod System
pub mod Roles
pub mod Tests
