-- ===== src/Session/HandlerTests.antt =====
-- The theorems on the handlers of the messages at concrete sessions.
use barbarossa.Common.{◌≡◌, ◌≢◌, refl, pos, str_eq, true, some, [], ◌∷◌, if◌then◌else◌, arith}
use barbarossa.Errors.{
  Exception, protocol_error, abort_error, future_error, promise_already_satisfied,
}
use barbarossa.Errors.ErrorMessages
use barbarossa.Errors.Outcome.{ok, throws}
use barbarossa.Promise.{not_ready, failure, is_ready}
use barbarossa.Json.Sample.{null, num, str, sample_json}
use barbarossa.Message.{Message, from_fields, field_as, size, invalid_index}
use barbarossa.Session.{Session, Operation, sleeping, send_message, lookup, register_operation}
use barbarossa.Session.State.{established}
use barbarossa.Session.Messages.{result_fields}
use barbarossa.Session.Handlers.{on_message, process_welcome, process_abort}
use barbarossa.Session.Welcome.{process_welcome_malformed, process_abort_lem}
use barbarossa.Session.Calls.{call_fields, call_answer, on_message-call_answer}
use barbarossa.Session.Dispatch.{on_message_malformed}
use barbarossa.Session.Operations.{lookup-register_operation}
use barbarossa.Session.Sample.{Wire, wire, joining_session, joined_session}

-- A WELCOME of one field.
abbrev short_welcome : Message
short_welcome = from_fields (num (pos 2) ∷ [])

process_welcome_malformed_example :
    let s' = record joining_session { state = established; heartbeat = sleeping } in
    (process_welcome short_welcome joining_session ≡ (throws invalid_index, s'))
    × ((m' : Message)
        → process_welcome m' s' ≡ (
          throws (protocol_error "client received WELCOME message but session already established"),
          s',
        ))
unfolding field_as
process_welcome_malformed_example =
    process_welcome_malformed short_welcome invalid_index joining_session refl refl refl

abbrev abort_message : Message
abort_message = from_fields (num (pos 3) ∷ str "ERR_NO_SUCH_REALM" ∷ [])

abort_fails_join :
    (joining_session.joined.shared ≡ not_ready
      → process_abort abort_message joining_session ≡ (
        ok tt,
        record joining_session {
          joined = record joining_session.joined {
            shared = failure (abort_error "ERR_NO_SUCH_REALM");
          };
        },
      ))
    × (is_ready joining_session.joined.shared ≡ true
        → process_abort abort_message joining_session
          ≡ (throws (future_error promise_already_satisfied), joining_session))
unfolding field_as
abort_fails_join = process_abort_lem abort_message "ERR_NO_SUCH_REALM" joining_session refl

abbrev echo : Operation
echo arguments = ok arguments

abbrev serving_session : Session Wire
serving_session = record joined_session { operations = ("echo", echo) ∷ [] }

on_message-call_answer_example :
    on_message (call_fields (pos 1) "echo" null) serving_session
    ≡ call_answer (pos 1) null (lookup "echo" serving_session.operations) serving_session
on_message-call_answer_example =
    on_message-call_answer (pos 1) "echo" null serving_session (omega arith)

-- The RESULT that goes out.
echo_answers :
    (on_message (call_fields (pos 1) "echo" null) serving_session).1.transport.sent
    ≡ result_fields (pos 1) null ∷ []
unfolding send_message lookup
echo_answers = rw (on_message-call_answer (pos 1) "echo" null serving_session (omega arith)) refl

abbrev publish_message : Message
publish_message = from_fields (num (pos 20) ∷ [])

empty_message :
    (size (from_fields []) ≡ 0
      → joined_session.leaved.shared ≡ not_ready
      → on_message (from_fields []) joined_session ≡ (
        ok tt,
        record joined_session {
          leaved = record joined_session.leaved {
            shared = failure (protocol_error ErrorMessages.invalid_message_structure);
          };
        },
      ))
    × ((x : Exception)
        → size (from_fields []) ≢ 0
        → field_as sample_json.get_int 0 (from_fields []) ≡ throws x
        → on_message (from_fields []) joined_session ≡ (throws x, joined_session))
empty_message = on_message_malformed (from_fields []) joined_session

lookup_registered :
    let s' = (register_operation "say_hello" echo joined_session).1 in
    (lookup "say_hello" s'.operations ≡ (
      if str_eq "say_hello" "say_hello"
      then some echo
      else lookup "say_hello" joined_session.operations))
    × (lookup "say_hello" ((register_operation "say_hello" echo s').1).operations
        ≡ lookup "say_hello" ((register_operation "say_hello" echo joined_session).1).operations)
lookup_registered = lookup-register_operation "say_hello" "say_hello" echo echo joined_session
