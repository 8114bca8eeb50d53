-- ===== src/DiskScheduling.antt =====
-- libs/disk_scheduling: the scheduling of the head of a disk. look.hpp is empty.
pub mod Disk
pub mod Scan
pub mod Tests
