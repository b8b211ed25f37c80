-- ===== src/Session/Run.antt =====
-- The life of a session: the calls, messages, posted handlers and heartbeat rounds that reach it, in any
-- order, each as one step.
use barbarossa.Common.{String, Bool, ◌≡◌, ◌≢◌, ap, sym}
use barbarossa.Errors.Outcome.{Outcome, ok, terminates, undefined}
use barbarossa.Errors.Exec.{Action}
use barbarossa.Json.{JsonLib}
use barbarossa.Message.{Message}
use barbarossa.Transport.{Transport, Caller}
use barbarossa.Session.{
  Session, Operation, HeartbeatThread, sleeping, awaiting, expired, on_attach, on_detach,
  register_operation, listen_begin, leave,
}
use barbarossa.Session.Handlers.{on_message}
use barbarossa.Session.Join.{join_begin, run_posted}
use barbarossa.Session.Heartbeat.{heartbeat_begin, heartbeat_check, heartbeat_expire}

module _ ⦃J : JsonLib⦄ where
  -- `transport_becomes` is a change that the transport makes by itself, as when the peer closes.
  pub data Event (T : Type 0) : Type 0 where
    attach transport_becomes : T → Event T
    detach join : String → Event T
    register : String → Operation → Event T
    listen : Event T
    leaves : Caller → Event T
    receive : Message → Event T
    run_next : Bool → Event T
    heartbeat_turn : Bool → Event T

module _ ⦃J : JsonLib⦄ {T : Type 0} where
  -- The heartbeat thread moves where it waits; `no_timeout` is what its first wait returns.
  abbrev pub beat : Bool → HeartbeatThread → Action (Session T)
  beat no_timeout sleeping = heartbeat_begin no_timeout
  beat no_timeout awaiting = heartbeat_check
  beat no_timeout expired = heartbeat_expire
  beat no_timeout _ = λ s. (ok tt, s)

module _ ⦃J : JsonLib⦄ {T : Type 0} ⦃tr : Transport T⦄ where
  unfoldable pub step : Event T → Action (Session T)
  step (attach t) s = on_attach t s
  step (transport_becomes t) s = (ok tt, record s { transport = t })
  step (detach reason) s = on_detach reason s
  step (join realm) s = join_begin realm s
  step (register name f) s = register_operation name f s
  step listen s = listen_begin s
  step (leaves c) s = leave c s
  step (receive m) s = on_message m s
  step (run_next alive) s = run_posted alive s
  step (heartbeat_turn no_timeout) s = beat no_timeout s.heartbeat s

  -- `u` is reached from `s` by events of which none ended the process or was undefined. A step that
  -- throws is one that its caller has caught.
  pub data Reach (s : Session T) : Session T → Type 0 where
    here : Reach s s
    next :
        {t u : Session T} (e : Event T)
        → Reach s t
        → (step e t).0 ≢ terminates
        → (step e t).0 ≢ undefined
        → u ≡ (step e t).1
        → Reach s u

  -- A step whose call returns.
  pub Reach-returns :
      {s t u : Session T} (e : Event T) → Reach s t → step e t ≡ (ok tt, u) → Reach s u
  Reach-returns e r p =
      next e r (λ q. cc) (λ q. cc) (sym (ap (λ (z : Outcome (Unit {0}) × Session T). z.1) p))
