-- ===== src/Session/Parts.antt =====
-- What every event keeps, from what the parts of the events keep: the paths through the methods, once for
-- all predicates on a session and on the messages that it sends.
use barbarossa.Common.{
  ℤ, ltb, Bool-cases, ◌≡◌, refl, ap, ◌∙◌, inl, inr, ◌⊎◌, String, Option, none, some, List, [], ◌∷◌,
  Bool, true, false, not, ◌==◌, ◌&&◌, arith,
}
use barbarossa.Errors.{Exception}
use barbarossa.Errors.Hierarchy.{is_network_error, copy_as_network_error}
use barbarossa.Errors.Outcome.{Outcome, ok, throws, undefined, terminates, or_throw}
use barbarossa.Errors.Keeps.{keeps_lift, keeps_lift_ok, keeps_then, keeps_if, keeps_test}
use barbarossa.Errors.Exec.{◌>>◌}
use barbarossa.Promise
use barbarossa.Promise.{Promise}
use barbarossa.Json.{JsonLib, bad_type}
use barbarossa.Message.{Message, field_as, size}
use barbarossa.MessageType.{MessageType, to_int, from_int, welcome, abort, pong, call}
use barbarossa.MessageType.Codes.{from_int_iff}
use barbarossa.Transport.{Transport, Caller}
use barbarossa.Session.Messages.{result_fields, error_fields, result_message_lem, error_message_lem}
use barbarossa.Session.{
  Session, Operation, Task, send_hello, send_ping, on_attach, on_detach, register_operation,
  listen_begin, leave, send_message, transmit, lookup, on_joined, on_leaved, on_pong, disconnect,
}
use barbarossa.Session.Sending.{CanSend}
use barbarossa.Session.Handlers.{
  on_message, dispatch, process_welcome, process_abort, process_pong, process_call, answer,
}
use barbarossa.Session.Join.{
  join_begin, next_task, run_posted, run_task, catch_hello, catch_ping, catch_network,
}
use barbarossa.Session.Run.{
  Event, attach, transport_becomes, detach, join, register, listen, leaves, receive, run_next,
  heartbeat_turn, step, beat,
}

module _ ⦃J : JsonLib⦄ where
  open J use {Json}

  abbrev pub message_of : Task → Message
  message_of (send_hello m) = m
  message_of (send_ping m) = m

  -- Whether the handler sends as an established session.
  abbrev pub established_of : Task → Bool
  established_of (send_hello m) = false
  established_of (send_ping m) = true

module _ ⦃J : JsonLib⦄ {T : Type 0} ⦃tr : Transport T⦄ where
  open J use {Json, get_int}

  -- What `P` asks of the parts: a message that may be sent and is, for which `A` holds; a change of a member; an
  -- exception or a value for one of the promises; and the methods that change the state or the heartbeat.
  pub record Parts (A : Bool → Message → Type 0) (P : Session T → Type 0) : Type 0 where
    pub sends :
        (b : Bool) (m : Message) (s : Session T)
        → A b m
        → CanSend s b
        → P s
        → P (record s { transport = (tr.send_message m s.transport).1 })
    pub closes :
        (c : Caller) (s : Session T)
        → P s
        → P (record s { transport = (tr.disconnect c s.transport).1 })
    pub results : (id : ℤ) (r : Json) → A true (result_fields id r)
    pub errors : (id : ℤ) → A true (error_fields id)
    pub taken :
        (t : Task) (ts : List Task) (s : Session T)
        → s.posted ≡ t ∷ ts
        → P s
        → A (established_of t) (message_of t) × P (record s { posted = ts })
    pub attached : (b : Bool) (s : Session T) → P s → P (record s { attached = b })
    pub operations :
        (m : List (String × Operation)) (s : Session T) → P s → P (record s { operations = m })
    pub unsent :
        (e : Exception) (s : Session T)
        → P s
        → P ((on_pong (Promise.set_value false) >> on_leaved (Promise.set_exception e)) s).1
    pub joined : (e : Exception) (s : Session T) → P s → P (on_joined (Promise.set_exception e) s).1
    pub failed : (e : Exception) (s : Session T) → P s → P (on_leaved (Promise.set_exception e) s).1
    pub left : (s : Session T) → P s → P (on_leaved (Promise.set_value true) s).1
    pub listened : (s : Session T) → P s → P (on_leaved Promise.get_future s).1
    pub begins : (realm : String) (s : Session T) → P s → P (join_begin realm s).1

  -- What `P` asks of an event besides, where it is a WELCOME or a PONG that arrives, gives the session
  -- another transport, or is a move of the heartbeat thread.
  pub record Special (P : Session T → Type 0) (e : Event T) (s : Session T) : Type 0 where
    pub welcomes :
        (m : Message)
        → e ≡ receive m
        → field_as get_int 0 m ≡ ok (to_int welcome)
        → P (process_welcome m s).1
    pub pongs :
        (m : Message)
        → e ≡ receive m
        → field_as get_int 0 m ≡ ok (to_int pong)
        → P (process_pong m s).1
    pub transports :
        (t : T) → (e ≡ attach t) ⊎ (e ≡ transport_becomes t) → P (record s { transport = t })
    pub beats : (b : Bool) → e ≡ heartbeat_turn b → P (beat b s.heartbeat s).1

module _ ⦃J : JsonLib⦄ {T : Type 0} ⦃tr : Transport T⦄ {A : Bool → Message → Type 0}
    {P : Session T → Type 0} (k : Parts A P) where
  open J use {Json, get_int, get_string, dump}

  send_message-keeps :
      (m : Message) (b : Bool) (s : Session T) → A b m → P s → P (send_message m b s).1
  unfolding send_message transmit
  send_message-keeps m b s a v =
      keeps_test P (not s.attached) _ _ (λ p. v)
        λ p.
          keeps_test P (not (tr.is_connected s.transport)) _ _ (λ q. v)
            λ q.
              keeps_test P (b && (s.session_id == 0)) _ _ (λ r. v)
                λ r.
                  k.sends b m s a
                    (record {
                      attached = ground arith;
                      connected = ground arith;
                      joined = λ e. ground arith;
                    })
                    v

  catch_hello-keeps : (r : Outcome (Unit {0})) (s : Session T) → P s → P (catch_hello r s).1
  catch_hello-keeps (throws e) s v = k.joined _ s v
  catch_hello-keeps (ok u) s v = v
  catch_hello-keeps undefined s v = v
  catch_hello-keeps terminates s v = v

  catch_network-keeps : (b : Bool) (e : Exception) (s : Session T) → P s → P (catch_network b e s).1
  catch_network-keeps true e s v = k.unsent (copy_as_network_error e) s v
  catch_network-keeps false e s v = v

  catch_ping-keeps : (r : Outcome (Unit {0})) (s : Session T) → P s → P (catch_ping r s).1
  catch_ping-keeps (throws e) s v = catch_network-keeps (is_network_error e) e s v
  catch_ping-keeps (ok u) s v = v
  catch_ping-keeps undefined s v = v
  catch_ping-keeps terminates s v = v

  run_task-keeps :
      (t : Task) (s : Session T) → A (established_of t) (message_of t) → P s → P (run_task t s).1
  unfolding run_task
  run_task-keeps (send_hello m) s a v =
      keeps_if P (not (s.session_id == 0)) _ _ (k.joined _ s v)
        (catch_hello-keeps _ _ (send_message-keeps m false s a v))
  run_task-keeps (send_ping m) s a v = catch_ping-keeps _ _ (send_message-keeps m true s a v)

  answer-keeps :
      (id : ℤ) (arguments : Json) (o : Option Operation) (s : Session T)
      → P s
      → P (answer id arguments o s).1
  unfolding answer
  answer-keeps id arguments (some f) s v = keeps_lift P (f arguments) _ s v λ r.
      keeps_lift P (or_throw bad_type (dump r)) _ s v λ _.
        rw (result_message_lem id r)
          (send_message-keeps (result_fields id r) true s (k.results id r) v)
  answer-keeps id arguments none s v =
      rw (error_message_lem id) (send_message-keeps (error_fields id) true s (k.errors id) v)

  process_call-keeps : (m : Message) (s : Session T) → P s → P (process_call m s).1
  unfolding process_call
  process_call-keeps m s v = keeps_lift P (field_as get_int 1 m) _ s v λ id.
      keeps_lift P (field_as get_string 2 m) _ s v λ name.
        keeps_lift P (field_as (λ (j : Json). some j) 3 m) _ s v
          λ arguments. answer-keeps id arguments (lookup name s.operations) s v

  -- What a message keeps, if a WELCOME and a PONG keep it.
  dispatch-keeps :
      (t : Option MessageType) (m : Message) (s : Session T)
      → (t ≡ some welcome → P (process_welcome m s).1)
      → (t ≡ some pong → P (process_pong m s).1)
      → P s
      → P (dispatch t m s).1
  unfolding dispatch process_abort
  dispatch-keeps (some welcome) m s w q v = w refl
  dispatch-keeps (some abort) m s w q v =
      keeps_lift P (field_as get_string 1 m) _ s v λ reason. k.joined _ s v
  dispatch-keeps (some pong) m s w q v = q refl
  dispatch-keeps (some call) m s w q v = process_call-keeps m s v
  dispatch-keeps (some _) m s w q v = v
  dispatch-keeps none m s w q v = v

  on_message-keeps :
      (m : Message) (s : Session T)
      → (field_as get_int 0 m ≡ ok (to_int welcome) → P (process_welcome m s).1)
      → (field_as get_int 0 m ≡ ok (to_int pong) → P (process_pong m s).1)
      → P s
      → P (on_message m s).1
  unfolding on_message
  on_message-keeps m s w q v = elim (Bool-cases (ltb (size m) 1)) [
    | inl e ↦ rw (e, on_message) (k.failed _ s v)
    | inr e ↦
        rw (e, on_message)
          (keeps_lift_ok P (field_as get_int 0 m) _ s v λ n r.
            dispatch-keeps (from_int n) m s (λ t. w (r ∙ ap ok ((from_int_iff n welcome).0 t)))
              (λ t. q (r ∙ ap ok ((from_int_iff n pong).0 t))) v)
  ]

  leave-keeps : (c : Caller) (s : Session T) → P s → P (leave c s).1
  unfolding leave disconnect
  leave-keeps c s v =
      keeps_then P (on_leaved (Promise.set_value true)) _ s (k.left s v)
        λ u w. keeps_if P u.attached _ _ (k.closes c u w) w

  next_task-keeps :
      (alive : Bool) (ts : List Task) (s : Session T)
      → s.posted ≡ ts
      → P s
      → P (next_task alive ts s).1
  unfolding next_task
  next_task-keeps alive [] s e v = v
  next_task-keeps false (t ∷ ts) s e v = (k.taken t ts s e v).1
  next_task-keeps true (t ∷ ts) s e v = let (a, w) = k.taken t ts s e v in run_task-keeps t _ a w

  -- What an event keeps.
  pub event-keeps : (e : Event T) (s : Session T) → Special P e s → P s → P (step e s).1
  unfolding step on_attach on_detach register_operation listen_begin run_posted
  event-keeps (attach t) s x v =
      keeps_if P s.attached _ _ v (k.attached true _ (x.transports t (inl refl)))
  event-keeps (transport_becomes t) s x v = x.transports t (inr refl)
  event-keeps (detach reason) s x v = keeps_if P s.attached _ _ (k.attached false s v) v
  event-keeps (join realm) s x v = k.begins realm s v
  event-keeps (register name f) s x v = k.operations _ s v
  event-keeps listen s x v = k.listened s v
  event-keeps (leaves c) s x v = leave-keeps c s v
  event-keeps (receive m) s x v = on_message-keeps m s (x.welcomes m refl) (x.pongs m refl) v
  event-keeps (run_next alive) s x v = next_task-keeps alive s.posted s refl v
  event-keeps (heartbeat_turn b) s x v = x.beats b refl
