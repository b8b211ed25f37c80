-- ===== src/Session/Messages.antt =====
-- The messages that session.ipp builds field by field, and what they come to.
use barbarossa.Common.{ℤ, String, ◌≡◌, refl, [], ◌∷◌}
use barbarossa.Errors.Outcome.{Outcome, ok, ◌>>=◌}
use barbarossa.Json.{JsonLib}
use barbarossa.MessageType.{MessageType, to_int, hello, ping, error, call, result}
use barbarossa.Message.{Message, sized, set_field, from_fields}

module _ ⦃J : JsonLib⦄ where
  open J use {Json, object, of_int, of_string}

  -- `SetField<MessageType>`
  abbrev set_type : MessageType → Json
  set_type t = of_int (to_int t)

  -- `Join`
  unfoldable pub hello_message : String → Outcome Message
  hello_message realm = do
    m ← set_field 0 (set_type hello) (sized 2)
    set_field 1 (of_string realm) m

  -- `HearbeatController`
  unfoldable pub ping_message : Outcome Message
  ping_message = do m ← set_field 0 (set_type ping) (sized 2); set_field 1 object m

  -- `ProcessCallMessage`, where the operation is registered.
  unfoldable pub result_message : ℤ → Json → Outcome Message
  result_message request_id r = do
    m ← set_field 0 (set_type result) (sized 3)
    m ← set_field 1 (of_int request_id) m
    set_field 2 r m

  -- `ProcessCallMessage`, where it is not.
  unfoldable pub error_message : ℤ → Outcome Message
  error_message request_id = do
    m ← set_field 0 (set_type error) (sized 5)
    m ← set_field 1 (set_type call) m
    m ← set_field 2 (of_int request_id) m
    m ← set_field 3 (of_string "ERR_NO_SUCH_OPERATION") m
    set_field 4 object m

  -- The messages as lists of fields.
  abbrev pub hello_fields : String → Message
  hello_fields realm = from_fields (set_type hello ∷ of_string realm ∷ [])

  abbrev pub ping_fields : Message
  ping_fields = from_fields (set_type ping ∷ object ∷ [])

  abbrev pub result_fields : ℤ → Json → Message
  result_fields request_id r = from_fields (set_type result ∷ of_int request_id ∷ r ∷ [])

  abbrev pub error_fields : ℤ → Message
  error_fields request_id = from_fields (
      set_type error
      ∷ set_type call
      ∷ of_int request_id
      ∷ of_string "ERR_NO_SUCH_OPERATION"
      ∷ object
      ∷ [])

  pub hello_message_lem : (realm : String) → hello_message realm ≡ ok (hello_fields realm)
  unfolding hello_message set_field sized
  hello_message_lem realm = refl

  pub ping_message_lem : ping_message ≡ ok ping_fields
  unfolding ping_message set_field sized
  ping_message_lem = refl

  pub result_message_lem :
      (request_id : ℤ) (r : Json) → result_message request_id r ≡ ok (result_fields request_id r)
  unfolding result_message set_field sized
  result_message_lem request_id r = refl

  pub error_message_lem : (request_id : ℤ) → error_message request_id ≡ ok (error_fields request_id)
  unfolding error_message set_field sized
  error_message_lem request_id = refl
