-- ===== src/Layers/Incoming.antt =====
-- What the session does with a text that a class of protocol.hpp has written.
use barbarossa.Common.{
  ℕ, ℤ, pos, negsuc, ◌<◌, ◌^◌, ◌≡◌, refl, ap, ◌∙◌, String, List, [], ◌∷◌, some, true, arith,
}
use barbarossa.Errors.{protocol_error, abort_error}
use barbarossa.Errors.Outcome.{Outcome, ok, throws}
use barbarossa.Promise.{not_ready, failure}
use barbarossa.MessageType.{MessageType, to_int}
use barbarossa.MessageType.Codes.{from_int-to_int, to_int-IsInt32}
use barbarossa.Json.{JsonLib}
use barbarossa.Message.{from_fields, field_as}
use barbarossa.Protocol.Codec.{AnyMessage, hello, welcome, abort, ping, pong, error, encode}
use barbarossa.Protocol.Hello
use barbarossa.Protocol.Welcome
use barbarossa.Protocol.Abort
use barbarossa.Protocol.Ping
use barbarossa.Protocol.Pong
use barbarossa.Protocol.Error
use barbarossa.Session.State.{establishing}
use barbarossa.Session.{Session, not_started}
use barbarossa.Session.Handlers.{on_message, dispatch}
use barbarossa.Session.Dispatch.{on_message-dispatch}
use barbarossa.Session.Welcome.{welcomed}
use barbarossa.Session.Joining.{on_message-welcome, on_message-abort}
use barbarossa.WebSocket.{WebSocket}
use barbarossa.WebSocket.Receive.{on_client_message}
use barbarossa.WebSocket.Delivery.{on_client_message_received}
use barbarossa.Main.{web_transport, session_web, session_handler}

abbrev pub to_uint : ℤ → ℕ
to_uint (pos n) = n
to_uint (negsuc n) = 0

-- The id is a value of `uint32_t` too.
abbrev pub IsUint32 : ℤ → Type 0
IsUint32 (pos n) = n < 2 ^ 32
IsUint32 (negsuc n) = ⊥

module _ ⦃J : JsonLib⦄ where
  open J use {Json, null, array, of_int, get_int, get_int-of_int, dump, parse}

  -- The session has asked to join, and no answer has come.
  pub record IsWaiting (s : Session WebSocket) : Type 0 where
    pub in_establishing : s.state ≡ establishing
    pub no_thread : s.heartbeat ≡ not_started
    pub no_answer : s.joined.shared ≡ not_ready

  -- The answers to a join come to a session that waits for one, and a WELCOME has an id that is not
  -- negative.
  abbrev pub IsExpected : AnyMessage → Session WebSocket → Type 0
  IsExpected (welcome m) s = IsWaiting s × IsUint32 m.session_id
  IsExpected (abort m) s = IsWaiting s
  IsExpected _ s = Unit {0}

  -- What becomes of the session.
  abbrev pub reaction : AnyMessage → Session WebSocket → Outcome (Unit {0}) × Session WebSocket
  reaction (hello m) s = (throws (protocol_error "client received HELLO message"), s)
  reaction (welcome m) s = (ok tt, welcomed (to_uint m.session_id) s)
  reaction (abort m) s =
      (ok tt, record s { joined = record s.joined { shared = failure (abort_error m.reason) } })
  reaction (ping m) s = (throws (protocol_error "client received PING message"), s)
  reaction (pong m) s = (throws (protocol_error "client received PING message"), s)
  reaction (error m) s = (ok tt, s)

  abbrev fields_of : AnyMessage → List Json
  fields_of (hello m) = Hello.written m
  fields_of (welcome m) = Welcome.written m
  fields_of (abort m) = Abort.written m
  fields_of (ping m) = Ping.written m
  fields_of (pong m) = Pong.written m
  fields_of (error m) = Error.written m

  encode-fields_of : (m : AnyMessage) → encode m ≡ ok (array (fields_of m))
  encode-fields_of (hello m) = Hello.to_json_lem m
  encode-fields_of (welcome m) = Welcome.to_json_lem m
  encode-fields_of (abort m) = Abort.to_json_lem m
  encode-fields_of (ping m) = Ping.to_json_lem m
  encode-fields_of (pong m) = Pong.to_json_lem m
  encode-fields_of (error m) = Error.to_json_lem m

  -- The message's type decides, where it is written first.
  on_message-typed :
      (t : MessageType) (xs : List Json) (s : Session WebSocket)
      → let m = from_fields (of_int (to_int t) ∷ xs) in on_message m s ≡ dispatch (some t) m s
  unfolding field_as
  on_message-typed t xs s =
      let m = from_fields (of_int (to_int t) ∷ xs) in
      let p : field_as get_int 0 m ≡ ok (to_int t) =
        ground (arith, get_int-of_int (to_int t) (to_int-IsInt32 t)) in
      rw (on_message-dispatch m (to_int t) s p, from_int-to_int t) refl

  on_message-welcome_class :
      (id : ℤ) (details : Json) (s : Session WebSocket)
      → IsWaiting s
      → IsUint32 id
      → on_message (from_fields (of_int (to_int MessageType.welcome) ∷ of_int id ∷ details ∷ [])) s
        ≡ (ok tt, welcomed (to_uint id) s)
  on_message-welcome_class (pos n) details s w h =
      on_message-welcome n details s h w.in_establishing w.no_thread w.no_answer
  on_message-welcome_class (negsuc n) details s w h = elim h [ ]

  on_message-reaction :
      (m : AnyMessage) (s : Session WebSocket)
      → IsExpected m s
      → on_message (from_fields (fields_of m)) s ≡ reaction m s
  unfolding dispatch
  on_message-reaction (hello m) s h = on_message-typed MessageType.hello _ s
  on_message-reaction (welcome m) s (w, h) = on_message-welcome_class m.session_id m.details s w h
  on_message-reaction (abort m) s h = on_message-abort m.reason m.details s h.no_answer
  on_message-reaction (ping m) s h = on_message-typed MessageType.ping _ s
  on_message-reaction (pong m) s h = on_message-typed MessageType.ping _ s
  on_message-reaction (error m) s h = on_message-typed MessageType.error _ s

  -- A text that a class of protocol.hpp has written, received by a session over its transport. A WELCOME
  -- with an id that is not negative establishes the session that waits for it under this id, and an ABORT
  -- fails the join with its reason; an ERROR is dropped; a HELLO and a PING are refused with a protocol
  -- error, and so is what the class for PONG writes, so that it never answers a ping.
  pub on_client_message-encode :
      (m : AnyMessage) (j : Json) (text : String) (s : Session WebSocket)
      → encode m ≡ ok j
      → parse text ≡ some j
      → s.transport.has_handler ≡ true
      → IsExpected m s
      → on_client_message true text s ≡ reaction m s
  on_client_message-encode m j text s e p h x =
      let q : j ≡ array (fields_of m) = ground (arith, encode-fields_of m) in
      on_client_message_received (from_fields (fields_of m)) text s (p ∙ ap some q) h
      ∙ on_message-reaction m s x
