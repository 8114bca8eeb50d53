-- ===== src/Unix.antt =====
-- libs/unix: the parts that compute something before they call the operating system.
pub mod Permissions
pub mod Kernel
pub mod SemaphoreSet
pub mod GroupNotifier
pub mod Sample
pub mod Process
pub mod Pipe
pub mod PipeEnds
pub mod Tests
