-- ===== src/Session/Dispatch.antt =====
-- session.ipp, `OnMessage`: the message types that the session ignores or refuses.
use barbarossa.Common.{ℤ, ◌≡◌, ◌≢◌, refl, String, Option, none, some, arith}
use barbarossa.Errors.{Exception, protocol_error}
use barbarossa.Errors.ErrorMessages
use barbarossa.Errors.Outcome.{ok, throws}
use barbarossa.Promise.{not_ready, failure}
use barbarossa.Json.{JsonLib}
use barbarossa.MessageType.{MessageType, from_int, hello, ping, error, result, publish, published}
use barbarossa.Message.{Message, field_as, size}
use barbarossa.Transport.{Transport}
use barbarossa.Session.{Session}
use barbarossa.Session.Handlers.{dispatch, on_message}

-- The types that `OnMessage` does nothing for, and those for which it throws.
pub data IsIgnored : Option MessageType → Type 0 where
  error_ignored : IsIgnored (some error)
  publish_ignored : IsIgnored (some publish)
  published_ignored : IsIgnored (some published)
  unknown_ignored : IsIgnored none

pub data IsRefused : Option MessageType → String → Type 0 where
  hello_refused : IsRefused (some hello) "client received HELLO message"
  ping_refused : IsRefused (some ping) "client received PING message"
  result_refused : IsRefused (some result) "client received unsupported RESULT message"

module _ ⦃J : JsonLib⦄ {T : Type 0} ⦃tr : Transport T⦄ where
  open J use {Json, get_int}

  -- A message whose first field is a number goes to the case of that number.
  pub on_message-dispatch :
      (m : Message) (n : ℤ) (s : Session T)
      → field_as get_int 0 m ≡ ok n
      → on_message m s ≡ dispatch (from_int n) m s
  unfolding on_message field_as size
  on_message-dispatch m n s h = ground arith

  dispatch_ignored :
      {t : Option MessageType} (m : Message) (s : Session T)
      → IsIgnored t
      → dispatch t m s ≡ (ok tt, s)
  unfolding dispatch
  dispatch_ignored m s error_ignored = refl
  dispatch_ignored m s publish_ignored = refl
  dispatch_ignored m s published_ignored = refl
  dispatch_ignored m s unknown_ignored = refl

  dispatch_refused :
      {t : Option MessageType} {text : String} (m : Message) (s : Session T)
      → IsRefused t text
      → dispatch t m s ≡ (throws (protocol_error text), s)
  unfolding dispatch
  dispatch_refused m s hello_refused = refl
  dispatch_refused m s ping_refused = refl
  dispatch_refused m s result_refused = refl

  -- A message of type ERROR, PUBLISH or PUBLISHED, or of a number that is no message type, is dropped
  -- without an error and without an answer; a HELLO, PING or RESULT throws a protocol error and changes
  -- nothing.
  pub on_message_unhandled :
      (m : Message) (n : ℤ) (s : Session T)
      → field_as get_int 0 m ≡ ok n
      → (IsIgnored (from_int n) → on_message m s ≡ (ok tt, s))
        × ((text : String)
            → IsRefused (from_int n) text
            → on_message m s ≡ (throws (protocol_error text), s))
  on_message_unhandled m n s h = (
    λ i. rw (on_message-dispatch m n s h) (dispatch_ignored m s i),
    λ text r. rw (on_message-dispatch m n s h) (dispatch_refused m s r),
  )

  -- A message with no fields fails the future that `Listen` waits for, if that is not ready yet; one whose
  -- first field is no number throws and changes nothing.
  pub on_message_malformed :
      (m : Message) (s : Session T)
      → (size m ≡ 0
          → s.leaved.shared ≡ not_ready
          → on_message m s ≡ (
            ok tt,
            record s {
              leaved = record s.leaved {
                shared = failure (protocol_error ErrorMessages.invalid_message_structure);
              };
            },
          ))
        × ((x : Exception)
            → size m ≢ 0
            → field_as get_int 0 m ≡ throws x
            → on_message m s ≡ (throws x, s))
  unfolding on_message size
  on_message_malformed m s = (λ z e. ground arith, λ x z e. ground arith)
