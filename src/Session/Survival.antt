-- ===== src/Session/Survival.antt =====
-- The events that a session survives.
use barbarossa.Common.{
  ltb, Bool-cases, ◌≡◌, refl, inl, inr, String, Option, none, some, arith, true, false,
}
use barbarossa.Errors.Safe.{Survives, Survives-lift, Survives-then, Survives-if}
use barbarossa.Promise
use barbarossa.Promise.{Promise, is_ready}
use barbarossa.Json.{JsonLib}
use barbarossa.Message.{Message, field_as, size}
use barbarossa.MessageType.{
  MessageType, from_int, hello, welcome, abort, ping, pong, error, call, result, publish, published,
}
use barbarossa.Transport.{Transport, Caller}
use barbarossa.Session.State.{is_establishing}
use barbarossa.Session.{
  Session, Operation, not_started, expired, initial, on_attach, on_detach, register_operation,
  listen_begin, leave, lookup, on_leaved, disconnect,
}
use barbarossa.Session.Handlers.{on_message, dispatch, process_pong}
use barbarossa.Session.Join.{run_posted}
use barbarossa.Session.Safe.{beat-Survives, Reach-PongInv}
use barbarossa.Session.Run.{
  Event, attach, transport_becomes, detach, join, register, listen, leaves, receive, run_next,
  heartbeat_turn, step, Reach,
}
use barbarossa.Session.Handling.{
  set_value-Survives, set_exception-Survives, field_as-Survives, process_welcome-Survives,
  join_begin-Survives, process_call-Survives, process_abort-Survives, next_task-Survives,
}

module _ ⦃J : JsonLib⦄ {T : Type 0} ⦃tr : Transport T⦄
    (sends : (m : Message) (t : T) → Survives (tr.send_message m t).0) where
  open J use {Json, get_int}

  dispatch-Survives :
      (t : Option MessageType) (m : Message) (s : Session T)
      → ((name : String) (f : Operation) (j : Json)
          → lookup name s.operations ≡ some f
          → Survives (f j))
      → (is_establishing s.state ≡ true → s.heartbeat ≡ not_started)
      → Survives (dispatch t m s).0
  unfolding dispatch process_pong
  dispatch-Survives (some welcome) m s ops w = process_welcome-Survives m s w
  dispatch-Survives (some abort) m s ops w = process_abort-Survives sends m s
  dispatch-Survives (some pong) m s ops w = set_value-Survives true s.pong_received
  dispatch-Survives (some call) m s ops w = process_call-Survives sends m s ops
  dispatch-Survives (some hello) m s ops w = λ q. cc
  dispatch-Survives (some ping) m s ops w = λ q. cc
  dispatch-Survives (some result) m s ops w = λ q. cc
  dispatch-Survives (some error) m s ops w = λ q. cc
  dispatch-Survives (some publish) m s ops w = λ q. cc
  dispatch-Survives (some published) m s ops w = λ q. cc
  dispatch-Survives none m s ops w = λ q. cc

  on_message-Survives :
      (m : Message) (s : Session T)
      → ((name : String) (f : Operation) (j : Json)
          → lookup name s.operations ≡ some f
          → Survives (f j))
      → (is_establishing s.state ≡ true → s.heartbeat ≡ not_started)
      → Survives (on_message m s).0
  unfolding on_message
  on_message-Survives m s ops w = elim (Bool-cases (ltb (size m) 1)) [
    | inl e ↦ rw (e, on_message) (set_exception-Survives _ s.leaved)
    | inr e ↦
        rw (e, on_message)
          (Survives-lift (field_as get_int 0 m) _ s (field_as-Survives get_int 0 m)
            λ n q. dispatch-Survives (from_int n) m s ops w)
  ]

  leave-Survives :
      (c : Caller) (s : Session T)
      → Survives (tr.disconnect c s.transport).0
      → Survives (leave c s).0
  unfolding leave disconnect
  leave-Survives c s h =
      Survives-then (on_leaved (Promise.set_value true)) _ s (set_value-Survives true s.leaved)
        (Survives-if s.attached _ _ (λ q. h) λ q. λ r. cc)

  pub step-Survives :
      (t : T) {s : Session T} (e : Event T)
      → Reach (initial t) s
      → ((name : String) (f : Operation) (j : Json)
          → lookup name s.operations ≡ some f
          → Survives (f j))
      → (is_establishing s.state ≡ true → s.heartbeat ≡ not_started)
      → is_ready s.leaved.shared ≡ false
      → (s.heartbeat ≡ expired → is_ready s.pong_received.shared ≡ false)
      → ((c : Caller) → e ≡ leaves c → Survives (tr.disconnect c s.transport).0)
      → Survives (step e s).0
  unfolding step on_attach on_detach register_operation listen_begin run_posted
  step-Survives t {s} (attach u) r ops w l p d = ground arith
  step-Survives t {s} (transport_becomes u) r ops w l p d = λ q. cc
  step-Survives t {s} (detach reason) r ops w l p d = ground arith
  step-Survives t {s} (join realm) r ops w l p d = join_begin-Survives realm s
  step-Survives t {s} (register name f) r ops w l p d = λ q. cc
  step-Survives t {s} listen r ops w l p d = ground arith
  step-Survives t {s} (leaves c) r ops w l p d = leave-Survives c s (d c refl)
  step-Survives t {s} (receive m) r ops w l p d = on_message-Survives m s ops w
  step-Survives t {s} (run_next alive) r ops w l p d = next_task-Survives sends alive s.posted s
  step-Survives t {s} (heartbeat_turn b) r ops w l p d =
      beat-Survives b s.heartbeat s refl (Reach-PongInv t r) l p
