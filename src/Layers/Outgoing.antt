-- ===== src/Layers/Outgoing.antt =====
-- The messages that session.ipp builds, against the classes of protocol.hpp.
use barbarossa.Common.{ℤ, IsInt32, ◌≡◌, refl, String, some, arith}
use barbarossa.Errors.Outcome.{Outcome, ok, undefined, ◌>>=◌}
use barbarossa.MessageType.{MessageType, to_ℕ}
use barbarossa.Json.{JsonLib}
use barbarossa.Message.{Message}
use barbarossa.Protocol.{details_or_object}
use barbarossa.Protocol.Hello
use barbarossa.Protocol.Ping
use barbarossa.Protocol.Error
use barbarossa.Protocol.Members.{member_lem, member_fails}
use barbarossa.Session.Messages.{
  hello_message, ping_message, error_message, hello_message_lem, ping_message_lem,
  error_message_lem, hello_fields, ping_fields, error_fields,
}
use barbarossa.WebSocket.Callbacks.{to_array}
use barbarossa.WebSocket.Delivery.{to_array_lem}

module _ ⦃J : JsonLib⦄ where
  open J use {Json, null, object, of_string, is_null-object, get_string, get_string-of_string}

  -- A message that the session builds, as the JSON that the transport sends.
  abbrev pub sent : Outcome Message → Outcome Json
  sent built = do m ← built; to_array m

  hello-read : (realm : String) → (do j ← sent (hello_message realm); Hello.from_json j) ≡ undefined
  unfolding Hello.from_json
  hello-read realm =
      let xs = (hello_fields realm).fields in
      rw (
        hello_message_lem realm,
        to_array_lem (hello_fields realm),
        member_lem get_string xs 1 (of_string realm) realm refl (get_string-of_string realm),
        (member_fails (λ (d : Json). some d) xs 2 null).0 refl,
      )

  ping-written : sent ping_message ≡ Ping.to_json null Ping.create
  unfolding Ping.create
  ping-written = rw (ping_message_lem, to_array_lem ping_fields, Ping.to_json_lem Ping.create) refl

  error-written :
      (id : ℤ)
      → sent (error_message id)
        ≡ Error.to_json null (Error.create (to_ℕ MessageType.call) id "ERR_NO_SUCH_OPERATION")
  unfolding Error.create
  error-written id =
      rw
        (
          error_message_lem id,
          to_array_lem (error_fields id),
          Error.to_json_lem (Error.create (to_ℕ MessageType.call) id "ERR_NO_SUCH_OPERATION"),
        )
        refl

  -- `details_or_object` of an empty object.
  object_kept : details_or_object object ≡ object
  unfolding details_or_object
  object_kept = rw is_null-object refl

  error-read :
      (id : ℤ)
      → IsInt32 id
      → (do j ← sent (error_message id); Error.from_json j)
        ≡ ok (Error.create (to_ℕ MessageType.call) id "ERR_NO_SUCH_OPERATION")
  unfolding Error.create
  error-read id h =
      let e = Error.create (to_ℕ MessageType.call) id "ERR_NO_SUCH_OPERATION" in
      rw (error-written id) (rw (Error.from_json-to_json e (omega arith) h, object_kept) refl)

  ping-read : (do j ← sent ping_message; Ping.from_json j) ≡ ok Ping.create
  unfolding Ping.create
  ping-read = rw ping-written (rw (Ping.from_json-to_json Ping.create, object_kept) refl)

  -- The PING and the ERROR that the session sends are what the classes of protocol.hpp write for them, and
  -- are read back by these classes; the HELLO that it sends has no details, and reading it as a
  -- HelloMessage is undefined behaviour, since the class reads the details without a check.
  pub session_messages :
      (realm : String) (id : ℤ)
      → let refusal = Error.create (to_ℕ MessageType.call) id "ERR_NO_SUCH_OPERATION" in
        (sent ping_message ≡ Ping.to_json null Ping.create)
        × ((do j ← sent ping_message; Ping.from_json j) ≡ ok Ping.create)
        × (sent (error_message id) ≡ Error.to_json null refusal)
        × (IsInt32 id → (do j ← sent (error_message id); Error.from_json j) ≡ ok refusal)
        × ((do j ← sent (hello_message realm); Hello.from_json j) ≡ undefined)
  session_messages realm id =
      (ping-written, ping-read, error-written id, error-read id, hello-read realm)
