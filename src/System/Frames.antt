-- ===== src/System/Frames.antt =====
-- What the text frames of the peer lead to, and which of them end the process.
use barbarossa.System.Replies.{is_some, verdict, call_reply, process_call-reply}
use barbarossa.Common.{
  ℤ, String, Bool, true, false, not, ◌||◌, Option-cases, ◌≡◌, inl, inr, refl, ap, ◌∙◌, List, [],
  ◌∷◌, Option, none, some, arith,
}
use barbarossa.Errors.Outcome.{Outcome, ok, throws, terminates, uncaught}
use barbarossa.Promise.{is_ready}
use barbarossa.Json.{JsonLib, bad_type}
use barbarossa.Message.{from_fields, field_as, size}
use barbarossa.MessageType.{
  MessageType, from_int, hello, welcome, abort, ping, pong, error, call, result, publish, published,
}
use barbarossa.Session.State.{is_establishing}
use barbarossa.Session.{Session, HeartbeatThread, not_started}
use barbarossa.Session.Handlers.{on_message, dispatch, process_welcome, process_abort, process_pong}
use barbarossa.Session.Dispatch.{on_message-dispatch, on_message_malformed}
use barbarossa.WebSocket.{WebSocket}
use barbarossa.WebSocket.Receive.{on_client_message, recv_message}
use barbarossa.WebSocket.Delivery.{from_array_lem}
use barbarossa.Main.{web_transport, session_web, session_handler}
use barbarossa.System.{system_step, received}

abbrev is_started : HeartbeatThread → Bool
is_started not_started = false
is_started _ = true

module _ ⦃J : JsonLib⦄ where
  open J use {Json, parse, elements, get_int, get_uint, get_string}

  -- Whether the first of the values can be read.
  abbrev readable : {A : Type 0} → (Json → Option A) → List Json → Bool
  readable get [] = false
  readable get (v ∷ vs) = is_some (get v)

  -- Whether a message of the type, with these values behind its code, ends the process.
  abbrev type_ends : Option MessageType → List Json → Session WebSocket → Bool
  type_ends (some hello) xs s = true
  type_ends (some ping) xs s = true
  type_ends (some result) xs s = true
  type_ends (some welcome) xs s =
      not (is_establishing s.state)
      || (is_started s.heartbeat || (not (readable get_uint xs) || is_ready s.joined.shared))
  type_ends (some abort) xs s = not (readable get_string xs) || is_ready s.joined.shared
  type_ends (some pong) xs s = is_ready s.pong_received.shared
  type_ends _ xs s = false

  -- How the handling of such a message ends.
  abbrev type_result : Option MessageType → List Json → Session WebSocket → Outcome (Unit {0})
  type_result (some call) xs s = call_reply xs s
  type_result t xs s = verdict (type_ends t xs s)

  dispatch-result :
      (t : Option MessageType) (c : Json) (xs : List Json) (s : Session WebSocket)
      → uncaught (dispatch t (from_fields (c ∷ xs)) s).0 ≡ type_result t xs s
  unfolding dispatch process_welcome process_abort process_pong field_as
  dispatch-result none c xs s = refl
  dispatch-result (some hello) c xs s = refl
  dispatch-result (some ping) c xs s = refl
  dispatch-result (some result) c xs s = refl
  dispatch-result (some error) c xs s = refl
  dispatch-result (some publish) c xs s = refl
  dispatch-result (some published) c xs s = refl
  dispatch-result (some call) c xs s = process_call-reply c xs s
  dispatch-result (some pong) c xs s = ground arith
  dispatch-result (some welcome) c [] s = ground arith
  dispatch-result (some welcome) c (v ∷ vs) s = ground arith
  dispatch-result (some abort) c [] s = ground arith
  dispatch-result (some abort) c (v ∷ vs) s = ground arith

  -- How the handling of a frame ends, from what its text parses to. The process ends where that is no JSON, where the
  -- array is empty and the future of `Listen` is ready, where the first value is no number, and otherwise
  -- as its type says.
  abbrev code_result : Option ℤ → List Json → Session WebSocket → Outcome (Unit {0})
  code_result none xs s = terminates
  code_result (some n) xs s = type_result (from_int n) xs s

  abbrev list_result : Option (List Json) → Session WebSocket → Outcome (Unit {0})
  list_result none s = ok tt
  list_result (some []) s = verdict (is_ready s.leaved.shared)
  list_result (some (c ∷ xs)) s = code_result (get_int c) xs s

  abbrev pub frame_result : Option Json → Session WebSocket → Outcome (Unit {0})
  frame_result none s = terminates
  frame_result (some j) s = list_result (elements j) s

  code-read :
      (c : Json) (xs : List Json) (n : ℤ)
      → get_int c ≡ some n
      → field_as get_int 0 (from_fields (c ∷ xs)) ≡ ok n
  unfolding field_as
  code-read c xs n e = ground arith

  code-unread :
      (c : Json) (xs : List Json)
      → get_int c ≡ none
      → field_as get_int 0 (from_fields (c ∷ xs)) ≡ throws bad_type
  unfolding field_as
  code-unread c xs e = ground arith

  on_message-result :
      (xs : List Json) (s : Session WebSocket)
      → uncaught (on_message (from_fields xs) s).0 ≡ list_result (some xs) s
  unfolding on_message size
  on_message-result [] s = ground arith
  on_message-result (c ∷ xs) s = elim (Option-cases (get_int c)) [
    | inl e ↦
        rw
          (
            e,
            (on_message_malformed (from_fields (c ∷ xs)) s).1 bad_type (λ q. ground arith)
                (code-unread c xs e),
          )
          refl
    | inr (n, e) ↦
        rw (e, on_message-dispatch (from_fields (c ∷ xs)) n s (code-read c xs n e))
          (dispatch-result (from_int n) c xs s)
  ]

  received-on_message :
      (text : String) (j : Json) (xs : List Json) (s : Session WebSocket)
      → s.transport.has_handler ≡ true
      → parse text ≡ some j
      → elements j ≡ some xs
      → on_client_message true text s ≡ on_message (from_fields xs) s
  unfolding on_client_message recv_message
  received-on_message text j xs s b p q = ground (arith, from_array_lem xs)

  pub received-frame_result :
      (text : String) (s : Session WebSocket)
      → s.transport.has_handler ≡ true
      → (system_step (received true text) s).0 ≡ frame_result (parse text) s
  unfolding system_step on_client_message recv_message
  received-frame_result text s b = elim (Option-cases (parse text)) [
    | inl p ↦ rw p (ground (arith, p))
    | inr (j, p) ↦ elim (Option-cases (elements j)) [
      | inl q ↦ rw (p, q) (ground (arith, p, q))
      | inr (xs, q) ↦
          ap (λ x. uncaught x.0) (received-on_message text j xs s b p q)
          ∙ rw (p, q) (on_message-result xs s)
    ]
  ]
