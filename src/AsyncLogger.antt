-- ===== src/AsyncLogger.antt =====
-- apps/asynchronous_logger/src/main.cpp: log calls write their arguments into a queue of messages, and the
-- threads of the writers format them.
pub mod Buffers
pub mod Filling
pub mod Messages
pub mod Creation
pub mod Tests
