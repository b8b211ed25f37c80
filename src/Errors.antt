-- ===== src/Errors.antt =====
-- include/barbarossa/errors.hpp: the exceptions that the program raises or catches, its own with
-- those of the standard library and of the JSON library, and the outcomes of a call.
pub mod ErrorMessages
pub mod Outcome
pub mod Exec
pub mod Keeps
pub mod Safe
pub mod Hierarchy
mod Tests
use barbarossa.Common.{String}

-- The codes of `std::future_error`.
pub data FutureErrc : Type 0 where
  promise_already_satisfied future_already_retrieved : FutureErrc

-- The codes of `std::system_error`; `websocket_error` stands for a code of websocketpp.
pub data Errc : Type 0 where
  invalid_argument resource_deadlock_would_occur websocket_error : Errc

-- The kinds of `nlohmann::json::exception`.
pub data JsonErrc : Type 0 where
  parse_error type_error missing_key : JsonErrc

-- One constructor for each class of which the program throws an object. `std_exception` is an object
-- of the base class itself, what is left of an exception that was copied as a `std::exception`.
pub data Exception : Type 0 where
  std_exception : Exception
  network_error protocol_error abort_error : String → Exception
  no_session_error no_transport_error timeout_error bad_weak_ptr : Exception
  logic_error out_of_range : String → Exception
  future_error : FutureErrc → Exception
  system_error : Errc → Exception
  json_error : JsonErrc → Exception
