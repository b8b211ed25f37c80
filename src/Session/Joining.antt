-- ===== src/Session/Joining.antt =====
-- session.ipp, `Join`: how it ends.
use barbarossa.Common.{ℕ, ◌<◌, ◌^◌, pos, ◌≡◌, refl, ◌≢◌, ◌⊎◌, String, [], ◌∷◌, arith, true, false}
use barbarossa.Errors.{
  std_exception, abort_error, timeout_error, no_transport_error, future_error,
  promise_already_satisfied, future_already_retrieved,
}
use barbarossa.Errors.Hierarchy.{is_network_error, copy_as_std_exception}
use barbarossa.Errors.Outcome.{ok, throws}
use barbarossa.Promise.{not_ready, failure, is_ready, fresh}
use barbarossa.Json.{JsonLib}
use barbarossa.MessageType.{abort, welcome, to_int}
use barbarossa.MessageType.Codes.{from_int-to_int}
use barbarossa.Message.{Message, from_fields, field_as}
use barbarossa.Transport.{Transport}
use barbarossa.Session.State.{establishing, established}
use barbarossa.Session.Messages.{hello_fields, hello_message_lem}
use barbarossa.Session.{Session, not_started, send_hello, send_message, ensure_state}
use barbarossa.Session.Handlers.{on_message, dispatch}
use barbarossa.Session.Join.{join_begin, join_end, run_task, run_posted}
use barbarossa.Session.Sending.{CanSend}
use barbarossa.Session.Welcome.{welcomed, process_welcome_accepts, process_abort_lem}
use barbarossa.Session.Dispatch.{on_message-dispatch}

module _ ⦃J : JsonLib⦄ where
  open J use {Json, of_int, of_string, get_int, get_uint, get_int-of_int, get_uint-of_int}

  -- A WELCOME as a peer writes it.
  abbrev pub welcome_fields : ℕ → Json → Message
  welcome_fields id details = from_fields (of_int (to_int welcome) ∷ of_int (pos id) ∷ details ∷ [])

  -- An ABORT as a peer writes it.
  abbrev pub abort_fields : String → Json → Message
  abort_fields reason details =
      from_fields (of_int (to_int abort) ∷ of_string reason ∷ details ∷ [])

  -- What a session is before its first `Join`.
  pub record IsNew {T : Type 0} (s : Session T) : Type 0 where
    pub no_id : s.session_id ≡ 0
    pub no_thread : s.heartbeat ≡ not_started
    pub waits : s.joined ≡ fresh
    pub idle : s.posted ≡ []

  welcome_code :
      (id : ℕ) (details : Json)
      → field_as get_int 0 (welcome_fields id details) ≡ ok (to_int welcome)
  unfolding field_as
  welcome_code id details = rw (get_int-of_int (to_int welcome) (omega arith))

  abort_code :
      (reason : String) (details : Json)
      → field_as get_int 0 (abort_fields reason details) ≡ ok (to_int abort)
  unfolding field_as
  abort_code reason details = rw (get_int-of_int (to_int abort) (omega arith))

  welcome_id :
      (id : ℕ) (details : Json)
      → id < 2 ^ 32
      → field_as get_uint 1 (welcome_fields id details) ≡ ok id
  unfolding field_as
  welcome_id id details h = rw (get_uint-of_int id h)

module _ ⦃J : JsonLib⦄ {T : Type 0} where
  -- The session while its first `Join` waits for the HELLO to be sent.
  abbrev pub joining : String → Session T → Session T
  joining realm s = record s {
    state = establishing;
    posted = send_hello (hello_fields realm) ∷ [];
    joined = record { shared = not_ready; retrieved = true };
  }

  pub join_begin_new :
      (realm : String) (s : Session T) → IsNew s → join_begin realm s ≡ (ok tt, joining realm s)
  unfolding join_begin ensure_state
  join_begin_new realm s h = rw (hello_message_lem realm) (ground (arith, h.waits, h.idle))

module _ ⦃J : JsonLib⦄ {T : Type 0} ⦃tr : Transport T⦄ where
  open J use {Json, get_string-of_string}

  -- The session after the HELLO is sent, over the transport `t`.
  abbrev pub waiting : T → Session T → Session T
  waiting t s = record s {
    state = establishing;
    transport = t;
    posted = [];
    joined = record { shared = not_ready; retrieved = true };
  }

  pub run_posted-joining :
      (realm : String) (s : Session T) (t : T)
      → IsNew s
      → CanSend s false
      → tr.send_message (hello_fields realm) s.transport ≡ (ok tt, t)
      → run_posted true (joining realm s) ≡ (ok tt, waiting t s)
  unfolding run_posted run_task send_message
  run_posted-joining realm s t new can sent =
      ground (arith, new.no_id, can.attached, can.connected, sent)

  pub on_message-welcome :
      (id : ℕ) (details : Json) (s : Session T)
      → id < 2 ^ 32
      → s.state ≡ establishing
      → s.heartbeat ≡ not_started
      → s.joined.shared ≡ not_ready
      → on_message (welcome_fields id details) s ≡ (ok tt, welcomed id s)
  unfolding dispatch
  on_message-welcome id details s h e t j =
      rw
        (
          on_message-dispatch (welcome_fields id details) (to_int welcome) s
              (welcome_code id details),
          from_int-to_int welcome,
        )
        (process_welcome_accepts (welcome_fields id details) id s (welcome_id id details h) e t j)

  pub on_message-abort :
      (reason : String) (details : Json) (s : Session T)
      → s.joined.shared ≡ not_ready
      → on_message (abort_fields reason details) s
        ≡ (ok tt, record s { joined = record s.joined { shared = failure (abort_error reason) } })
  unfolding dispatch field_as
  on_message-abort reason details s j =
      rw
        (
          on_message-dispatch (abort_fields reason details) (to_int abort) s
              (abort_code reason details),
          from_int-to_int abort,
        )
        ((process_abort_lem (abort_fields reason details) reason s
            (rw (get_string-of_string reason) refl)).0
          j)

  pub join_completes :
      (realm : String) (id : ℕ) (details : Json) (s : Session T) (t : T)
      → id < 2 ^ 32
      → IsNew s
      → CanSend s false
      → tr.send_message (hello_fields realm) s.transport ≡ (ok tt, t)
      → let sent = (run_posted true (join_begin realm s).1).1 in
        let answered = (on_message (welcome_fields id details) sent).1 in
        (sent.transport ≡ t)
        × (join_end sent ≡ throws timeout_error)
        × (join_end answered ≡ ok id)
        × (answered.state ≡ established)
        × (answered.session_id ≡ id)
        × (answered.transport ≡ t)
  unfolding join_end
  join_completes realm id details s t h new can sent =
      rw
        (
          join_begin_new realm s new,
          run_posted-joining realm s t new can sent,
          on_message-welcome id details (waiting t s) h refl new.no_thread refl,
        )
        (refl, refl, refl, refl, refl, refl)

  -- The first `Join` of a session that has no connected transport throws an object of class
  -- `std::exception`, which is no network error: the copy of the NoTransportError that is handed to the
  -- waiting thread has lost its class.
  pub join_without_transport :
      (realm : String) (s : Session T)
      → IsNew s
      → (s.attached ≡ false) ⊎ (tr.is_connected s.transport ≡ false)
      → let tried = (run_posted true (join_begin realm s).1).1 in
        (send_message (hello_fields realm) false s ≡ (throws no_transport_error, s))
        × (join_end tried ≡ throws std_exception)
        × (is_network_error std_exception ≡ false)
        × (is_network_error no_transport_error ≡ true)
  unfolding join_end run_posted run_task send_message is_network_error copy_as_std_exception
  join_without_transport realm s new h =
      rw (join_begin_new realm s new) (ground arith, ground (arith, new.no_id), refl, refl)

  -- A `Join` of a session that has an id, whose future was retrieved and whose promise is ready: the
  -- call throws that the future was retrieved, but the session is back in ESTABLISHING, and the handler
  -- that it posted throws that the promise is satisfied.
  pub join_again :
      (realm : String) (s : Session T)
      → s.session_id ≢ 0
      → s.joined.retrieved ≡ true
      → is_ready s.joined.shared ≡ true
      → s.posted ≡ []
      → let s' = (join_begin realm s).1 in
        ((join_begin realm s).0 ≡ throws (future_error future_already_retrieved))
        × (s'.state ≡ establishing)
        × ((run_posted true s').0 ≡ throws (future_error promise_already_satisfied))
  unfolding join_begin ensure_state run_posted run_task
  join_again realm s id got set idle =
      rw (hello_message_lem realm) (ground arith, refl, ground (arith, idle))
