-- ===== src/Session/Handlers.antt =====
-- session.ipp, `OnMessage` and the handlers of the message types.
use barbarossa.Common.{ℕ, ℤ, String, true, Option, none, some, ltb, if◌then◌else◌}
use barbarossa.Errors.{protocol_error}
use barbarossa.Errors.ErrorMessages
use barbarossa.Errors.{abort_error}
use barbarossa.Errors.Outcome.{Outcome, ok, throws, terminates, or_throw}
use barbarossa.Errors.Exec.{Action, pure, throw, lift, ◌>>=◌, ◌>>◌}
use barbarossa.Promise
use barbarossa.Promise.{Promise}
use barbarossa.Json.{JsonLib, bad_type}
use barbarossa.MessageType.{
  MessageType, from_int, hello, welcome, abort, ping, pong, error, call, result, publish, published,
}
use barbarossa.Message.{Message, size, field_as}
use barbarossa.Transport.{Transport}
use barbarossa.Session.State.{is_establishing, established}
use barbarossa.Session.Messages.{result_message, error_message}
use barbarossa.Session.{
  Session, Operation, HeartbeatThread, not_started, sleeping, on_joined, on_leaved, on_pong,
  current_state, ensure_state, send_message, lookup,
}

module _ ⦃J : JsonLib⦄ {T : Type 0} where
  open J use {Json, get_int, get_uint, get_string, dump}

  -- The assignment to a `std::thread` that is joinable ends the process.
  abbrev starting : HeartbeatThread → Action (Session T)
  starting not_started s = (ok tt, record s { heartbeat = sleeping })
  starting _ s = (terminates, s)

  unfoldable pub start_heartbeat : Action (Session T)
  start_heartbeat s = starting s.heartbeat s

  set_session_id : ℕ → Action (Session T)
  set_session_id id s = (ok tt, record s { session_id = id })

  -- The part of `ProcessWelcomeMessage` below its check.
  unfoldable pub accept_welcome : Message → Action (Session T)
  unfolding ensure_state start_heartbeat set_session_id
  accept_welcome m = do
    ensure_state established
    start_heartbeat
    id ← lift (field_as get_uint 1 m)
    set_session_id id
    on_joined (Promise.set_value id)

  unfoldable pub process_welcome : Message → Action (Session T)
  unfolding accept_welcome
  process_welcome m s = if is_establishing (current_state s) then accept_welcome m s else (
    throws (protocol_error "client received WELCOME message but session already established"),
    s,
  )

  unfoldable pub process_abort : Message → Action (Session T)
  process_abort m = do
    reason ← lift (field_as get_string 1 m)
    on_joined (Promise.set_exception (abort_error reason))

  unfoldable pub process_pong : Message → Action (Session T)
  process_pong m = on_pong (Promise.set_value true)

module _ ⦃J : JsonLib⦄ {T : Type 0} ⦃tr : Transport T⦄ where
  open J use {Json, get_int, get_uint, get_string, dump}

  -- `result.dump()`, which is evaluated for the log and may throw, is the first step after the call.
  unfoldable pub answer : ℤ → Json → Option Operation → Action (Session T)
  answer request_id arguments (some f) = do
    r ← lift (f arguments)
    lift (or_throw bad_type (dump r))
    m ← lift (result_message request_id r)
    send_message m true
  answer request_id arguments none = do m ← lift (error_message request_id); send_message m true

  find_operation : String → Session T → Outcome (Option Operation) × Session T
  find_operation name s = (ok (lookup name s.operations), s)

  unfoldable pub process_call : Message → Action (Session T)
  unfolding answer find_operation
  process_call m = do
    request_id ← lift (field_as get_int 1 m)
    operation ← lift (field_as get_string 2 m)
    arguments ← lift (field_as (λ (j : Json). some j) 3 m)
    found ← find_operation operation
    answer request_id arguments found

  -- The `switch`; `none` is a value that no case names.
  unfoldable pub dispatch : Option MessageType → Message → Action (Session T)
  dispatch (some hello) m = throw (protocol_error "client received HELLO message")
  dispatch (some welcome) m = process_welcome m
  dispatch (some abort) m = process_abort m
  dispatch (some ping) m = throw (protocol_error "client received PING message")
  dispatch (some pong) m = process_pong m
  dispatch (some error) m = pure tt
  dispatch (some call) m = process_call m
  dispatch (some result) m = throw (protocol_error "client received unsupported RESULT message")
  dispatch (some publish) m = pure tt
  dispatch (some published) m = pure tt
  dispatch none m = pure tt

  dispatch_code : Message → Action (Session T)
  unfolding dispatch
  dispatch_code m = do code ← lift (field_as get_int 0 m); dispatch (from_int code) m

  unfoldable pub on_message : Message → Action (Session T)
  unfolding dispatch_code
  on_message m =
      if ltb (size m) 1
      then on_leaved
          (Promise.set_exception (protocol_error ErrorMessages.invalid_message_structure))
      else dispatch_code m
