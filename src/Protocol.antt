-- ===== src/Protocol.antt =====
-- include/barbarossa/protocol.hpp: the messages of the protocol as classes, and `BasicMessage`.
pub mod Members
pub mod Hello
pub mod Welcome
pub mod Abort
pub mod Ping
pub mod Pong
pub mod Error
pub mod Details
pub mod Codec
pub mod Typed
pub mod Reading
mod Tests
use barbarossa.Common.{ℕ, String, Bool, Option, none, some, List, if◌then◌else◌}
use barbarossa.Errors.{json_error, parse_error}
use barbarossa.Errors.Outcome.{Outcome, ok, throws, or_throw, ◌>>=◌}
use barbarossa.Json.{JsonLib, bad_type}

module _ ⦃J : JsonLib⦄ where
  open J use {Json, object, is_null, index, subscript, get_uint, push_back, parse}

  -- The end of every `from_json`: null details are an empty object.
  unfoldable pub details_or_object : Json → Json
  details_or_object d = if is_null d then object else d

  -- `j[i]`, converted to the type of the member that it is assigned to.
  unfoldable pub member : {A : Type 0} → (Json → Option A) → ℕ → Json → Outcome A
  member get i j = do v ← index j i; or_throw bad_type (get v)

  pub record BasicMessage : Type 0 where
    pub j : Json

  -- `Parse`
  unfoldable pub parse_message : String → Outcome BasicMessage
  parse_message s = do j ← or_throw (json_error parse_error) (parse s); ok (record { j = j })

  abbrev typed : Json × Json → Outcome (ℕ × BasicMessage)
  typed (v, j) = do n ← or_throw bad_type (get_uint v); ok (n, record { j = j })

  -- `GetMessageType`, which indexes a value that is not const and can change it. The enumeration is read
  -- as its underlying type, and any value of that is possible.
  unfoldable pub get_message_type : BasicMessage → Outcome (ℕ × BasicMessage)
  get_message_type m = do r ← subscript m.j 0; typed r
