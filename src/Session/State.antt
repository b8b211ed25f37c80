-- ===== src/Session/State.antt =====
-- include/barbarossa/session_state.hpp
use barbarossa.Common.{String, Bool, true, false}

pub data SessionState : Type 0 where
  closed establishing established closing : SessionState

abbrev pub is_establishing : SessionState → Bool
is_establishing establishing = true
is_establishing _ = false

abbrev pub is_established : SessionState → Bool
is_established established = true
is_established _ = false

-- `operator<<`, for the enumerators.
unfoldable pub print : SessionState → String
print closed = "CLOSED"
print establishing = "ESTABLISHING"
print established = "ESTABLISHED"
print closing = "CLOSING"
