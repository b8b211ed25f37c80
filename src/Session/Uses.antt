-- ===== src/Session/Uses.antt =====
-- How a session uses its transport.
use barbarossa.Common.{
  ℤ, ltb, Bool-cases, ◌≡◌, ◌⊎◌, refl, inl, inr, String, Option, none, some, List, [], ◌∷◌, arith,
  Bool, true, false, not, ◌==◌, ◌&&◌,
}
use barbarossa.Errors.Outcome.{Outcome, ok, throws, undefined, terminates, or_throw}
use barbarossa.Errors.Keeps.{keeps_lift, keeps_if}
use barbarossa.Promise.{is_ready}
use barbarossa.Json.{JsonLib, bad_type}
use barbarossa.Message.{Message, field_as, size}
use barbarossa.MessageType.{MessageType, from_int, welcome, abort, call}
use barbarossa.Transport.{Transport, Caller}
use barbarossa.Session.Messages.{result_message, error_message, hello_message_lem, ping_message_lem}
use barbarossa.Session.{
  Session, Operation, Task, HeartbeatThread, not_started, sleeping, awaiting, expired, finished,
  send_hello, send_ping, on_attach, on_detach, register_operation, listen_begin, leave,
  send_message, transmit, lookup, disconnect, ensure_state,
}
use barbarossa.Session.Handlers.{
  on_message, dispatch, process_welcome, process_abort, process_pong, process_call, answer,
}
use barbarossa.Session.Join.{join_begin, next_task, run_posted, run_task, catch_hello, catch_ping}
use barbarossa.Session.Heartbeat.{heartbeat_begin, heartbeat_check, heartbeat_expire}
use barbarossa.Session.Run.{
  Event, attach, transport_becomes, detach, join, register, listen, leaves, receive, run_next,
  heartbeat_turn, step, beat,
}

module _ ⦃J : JsonLib⦄ {T : Type 0} where
  -- A step that leaves the transport alone.
  transport-join_begin :
      (realm : String) (s : Session T) → (join_begin realm s).1.transport ≡ s.transport
  unfolding join_begin ensure_state
  transport-join_begin realm s = rw (hello_message_lem realm) refl

  transport-process_welcome :
      (m : Message) (s : Session T) → (process_welcome m s).1.transport ≡ s.transport
  unfolding process_welcome
  transport-process_welcome m s = ground arith

  transport-beat :
      (b : Bool) (h : HeartbeatThread) (s : Session T) → (beat b h s).1.transport ≡ s.transport
  unfolding heartbeat_begin heartbeat_check heartbeat_expire
  transport-beat true sleeping s = refl
  transport-beat false sleeping s = rw ping_message_lem (ground arith)
  transport-beat b awaiting s = ground arith
  transport-beat b expired s = ground arith
  transport-beat b not_started s = refl
  transport-beat b finished s = refl

module _ ⦃J : JsonLib⦄ {T : Type 0} ⦃tr : Transport T⦄ where
  open J use {Json, get_int, get_string, dump}

  -- From `s` to `u` the transport was left alone, or was given one message, being attached and connected.
  abbrev pub SendsOnce : Session T → Session T → Type 0
  SendsOnce s u =
      (u.transport ≡ s.transport)
      ⊎ ((m : Message) × (s.attached ≡ true)
          × (tr.is_connected s.transport ≡ true)
          × (u.transport ≡ (tr.send_message m s.transport).1))

  send_message-SendsOnce :
      (m : Message) (b : Bool) (s : Session T) → SendsOnce s (send_message m b s).1
  unfolding send_message transmit
  send_message-SendsOnce m b s = elim (Bool-cases s.attached) [
    | inl a ↦ elim (Bool-cases (tr.is_connected s.transport)) [
      | inl c ↦ elim (Bool-cases (b && (s.session_id == 0))) [
        | inl d ↦ inl (ground arith)
        | inr d ↦ inr (m, a, c, ground arith)
      ]
      | inr c ↦ inl (ground arith)
    ]
    | inr a ↦ inl (ground arith)
  ]

  transport-catch_hello :
      (r : Outcome (Unit {0})) (s : Session T) → (catch_hello r s).1.transport ≡ s.transport
  transport-catch_hello (throws e) s = refl
  transport-catch_hello (ok u) s = refl
  transport-catch_hello undefined s = refl
  transport-catch_hello terminates s = refl

  transport-catch_ping :
      (r : Outcome (Unit {0})) (s : Session T) → (catch_ping r s).1.transport ≡ s.transport
  transport-catch_ping (throws e) s = ground arith
  transport-catch_ping (ok u) s = refl
  transport-catch_ping undefined s = refl
  transport-catch_ping terminates s = refl

  run_task-SendsOnce : (t : Task) (s : Session T) → SendsOnce s (run_task t s).1
  unfolding run_task
  run_task-SendsOnce (send_hello m) s =
      keeps_if (SendsOnce s) (not (s.session_id == 0)) _ _ (inl refl) (
        rw (transport-catch_hello (send_message m false s).0 (send_message m false s).1)
          (send_message-SendsOnce m false s))
  run_task-SendsOnce (send_ping m) s =
      rw (transport-catch_ping (send_message m true s).0 (send_message m true s).1)
        (send_message-SendsOnce m true s)

  answer-SendsOnce :
      (id : ℤ) (arguments : Json) (o : Option Operation) (s : Session T)
      → SendsOnce s (answer id arguments o s).1
  unfolding answer
  answer-SendsOnce id arguments (some f) s =
      keeps_lift (SendsOnce s) (f arguments) _ s (inl refl) λ r.
        keeps_lift (SendsOnce s) (or_throw bad_type (dump r)) _ s (inl refl) λ u.
          keeps_lift (SendsOnce s) (result_message id r) _ s (inl refl)
            λ m. send_message-SendsOnce m true s
  answer-SendsOnce id arguments none s =
      keeps_lift (SendsOnce s) (error_message id) _ s (inl refl)
        λ m. send_message-SendsOnce m true s

  process_call-SendsOnce : (m : Message) (s : Session T) → SendsOnce s (process_call m s).1
  unfolding process_call
  process_call-SendsOnce m s = keeps_lift (SendsOnce s) (field_as get_int 1 m) _ s (inl refl) λ id.
      keeps_lift (SendsOnce s) (field_as get_string 2 m) _ s (inl refl) λ name.
        keeps_lift (SendsOnce s) (field_as (λ (j : Json). some j) 3 m) _ s (inl refl)
          λ j. answer-SendsOnce id j (lookup name s.operations) s

  dispatch-SendsOnce :
      (t : Option MessageType) (m : Message) (s : Session T) → SendsOnce s (dispatch t m s).1
  unfolding dispatch process_pong process_abort
  dispatch-SendsOnce (some welcome) m s = inl (transport-process_welcome m s)
  dispatch-SendsOnce (some abort) m s =
      keeps_lift (SendsOnce s) (field_as get_string 1 m) _ s (inl refl) λ reason. inl refl
  dispatch-SendsOnce (some call) m s = process_call-SendsOnce m s
  dispatch-SendsOnce (some _) m s = inl refl
  dispatch-SendsOnce none m s = inl refl

  on_message-SendsOnce : (m : Message) (s : Session T) → SendsOnce s (on_message m s).1
  unfolding on_message
  on_message-SendsOnce m s = elim (Bool-cases (ltb (size m) 1)) [
    | inl e ↦ rw (e, on_message) (inl refl)
    | inr e ↦
        rw (e, on_message)
          (keeps_lift (SendsOnce s) (field_as get_int 0 m) _ s (inl refl)
            λ n. dispatch-SendsOnce (from_int n) m s)
  ]

  next_task-SendsOnce :
      (alive : Bool) (ts : List Task) (s : Session T) → SendsOnce s (next_task alive ts s).1
  unfolding next_task
  next_task-SendsOnce alive [] s = inl refl
  next_task-SendsOnce false (t ∷ ts) s = inl refl
  next_task-SendsOnce true (t ∷ ts) s = run_task-SendsOnce t (record s { posted = ts })

  -- What else an event does to the transport: it is replaced or changes by itself, or is disconnected.
  pub data Disposes (e : Event T) (s u : Session T) : Type 0 where
    replaced : (t : T) → e ≡ attach t → u.transport ≡ t → Disposes e s u
    changed : (t : T) → e ≡ transport_becomes t → u.transport ≡ t → Disposes e s u
    disconnected :
        (c : Caller)
        → e ≡ leaves c
        → s.attached ≡ true
        → u.transport ≡ (tr.disconnect c s.transport).1
        → Disposes e s u

  leave-Disposes :
      (c : Caller) (s : Session T) → SendsOnce s (leave c s).1 ⊎ Disposes (leaves c) s (leave c s).1
  unfolding leave disconnect
  leave-Disposes c s = elim (Bool-cases (is_ready s.leaved.shared)) [
    | inl e ↦ inl (inl (ground arith))
    | inr e ↦ elim (Bool-cases s.attached) [
      | inl a ↦ inr (disconnected c refl a (ground arith))
      | inr a ↦ inl (inl (ground arith))
    ]
  ]

  -- An event sends at most one message, over an attached and connected transport, and otherwise leaves the
  -- transport alone, except for an attachment, a change of the transport by itself, and a `Leave`, which
  -- disconnects the attached transport.
  pub step-SendsOnce :
      (e : Event T) (s : Session T) → SendsOnce s (step e s).1 ⊎ Disposes e s (step e s).1
  unfolding step on_attach on_detach register_operation listen_begin run_posted
  step-SendsOnce (attach t) s = elim (Bool-cases s.attached) [
    | inl e ↦ inl (inl (ground arith))
    | inr e ↦ inr (replaced t refl (ground arith))
  ]
  step-SendsOnce (transport_becomes t) s = inr (changed t refl refl)
  step-SendsOnce (detach reason) s = inl (inl (ground arith))
  step-SendsOnce (join realm) s = inl (inl (transport-join_begin realm s))
  step-SendsOnce (register name f) s = inl (inl refl)
  step-SendsOnce listen s = inl (inl refl)
  step-SendsOnce (leaves c) s = leave-Disposes c s
  step-SendsOnce (receive m) s = inl (on_message-SendsOnce m s)
  step-SendsOnce (run_next alive) s = inl (next_task-SendsOnce alive s.posted s)
  step-SendsOnce (heartbeat_turn b) s = inl (inl (transport-beat b s.heartbeat s))
