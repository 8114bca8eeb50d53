-- ===== src/Database.antt =====
-- apps/use_sqlite/src/main.cpp: a database of people that is kept in memory and copied to the disk.
pub mod Sqlite
pub mod Statement
pub mod SqlDatabase
pub mod Copying
pub mod Writing
pub mod Refine
pub mod Opening
pub mod Lifetime
pub mod Sample
pub mod Tests
