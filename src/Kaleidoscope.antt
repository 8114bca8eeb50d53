-- ===== src/Kaleidoscope.antt =====
-- apps/create_language: the Kaleidoscope front end, from characters to syntax trees.
pub mod Returns
pub mod Token
pub mod BufferReader
pub mod Syntax
pub mod Characters
pub mod Lexer
pub mod Parser
pub mod Driver
pub mod Tests
