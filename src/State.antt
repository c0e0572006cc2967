-- ===== src/State.antt =====
-- class State of src/util/common.h: the result code that every fallible operation returns.
use yubindb.Prelude.{Bool, true, false}

-- The enum Code, without its prefix `k`.
pub data State : Type 0 where
  ok not_found corruption not_supported invalid_argument io_error : State

-- `s.ok()`
unfoldable pub is_ok : State → Bool
is_ok State.ok = true
is_ok _ = false

-- `s.IsNotFound()`
unfoldable pub is_not_found : State → Bool
is_not_found State.not_found = true
is_not_found _ = false
