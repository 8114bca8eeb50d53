-- ===== src/LockFree.antt =====
-- libs/lock_free: the queues and the synchronisation primitives built on atomics.
pub mod Circular
pub mod Atomic
pub mod BoundedQueue
pub mod RingBuffer
pub mod MessageRingBuffer
pub mod GroupNotifier
pub mod SpinLock
pub mod Sample
pub mod Tests
