-- ===== src/Core.antt =====
-- libs/core: the error codes of the queues (include/core/error_code.hpp), and std::expected over them.
use Prim.Native.String.{String}

pub data ErrorCode : Type 0 where
  again full empty not_enough_space count : ErrorCode

-- The table is indexed by the enumeration; the assertion excludes `count`, whose row is there too.
unfoldable pub to_string : ErrorCode → String
to_string ErrorCode.again = "again"
to_string ErrorCode.full = "full"
to_string ErrorCode.empty = "empty"
to_string ErrorCode.not_enough_space = "not_enough_space"
to_string ErrorCode.count = "count"

pub data Expected (A : Type 0) : Type 0 where
  ok : A → Expected A
  unexpected : ErrorCode → Expected A
