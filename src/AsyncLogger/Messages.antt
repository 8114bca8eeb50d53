-- ===== src/AsyncLogger/Messages.antt =====
-- What the writers of apps/asynchronous_logger read back from a message that a log call made.
use communicate_between_proc.Prelude.{ℕ, length, drop}
use communicate_between_proc.AsyncLogger.Buffers.{Bytes, OutputMessageBuffer, resize}

abbrev reading : Bytes → ℕ → ℕ → OutputMessageBuffer
reading memory size n = record { memory = memory; size = size; read_count = n }

module _ (to_floating : ℕ → Bytes → Bytes) where
  -- What a resized vector holds behind the message.
  abbrev stale : ℕ → Bytes → OutputMessageBuffer → Bytes
  stale unit message b = drop (length message) (resize unit (length message) b.memory)
