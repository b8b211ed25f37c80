-- ===== src/Session/Invariant.antt =====
-- What holds of a session between any two events.
use barbarossa.Common.{ℕ, ◌≡◌, ◌≢◌, String, arith, Bool, true, false}
use barbarossa.Promise.{Shared, value}
use barbarossa.Json.{JsonLib}
use barbarossa.Message.{Message}
use barbarossa.Transport.{Transport}
use barbarossa.Session.State.{SessionState, closing, is_established}
use barbarossa.Session.Messages.{hello_message_lem, ping_message_lem}
use barbarossa.Session.{
  Session, HeartbeatThread, not_started, sleeping, awaiting, expired, initial, ensure_state,
}
use barbarossa.Session.Handlers.{process_welcome}
use barbarossa.Session.Join.{join_begin}
use barbarossa.Session.Heartbeat.{heartbeat_begin, heartbeat_check, heartbeat_expire}
use barbarossa.Session.Keeping.{Keeping, Reach-keeps}
use barbarossa.Session.Run.{Reach}

-- A join that succeeded gave the session's id, and the heartbeat was started.
abbrev pub JoinedAgrees : Shared ℕ → ℕ → HeartbeatThread → Type 0
JoinedAgrees (value v) id h = (v ≡ id) × (h ≢ not_started)
JoinedAgrees _ id h = Unit {0}

-- Without a heartbeat thread there is neither an id nor an established session.
abbrev pub StartedAgrees : HeartbeatThread → ℕ → SessionState → Type 0
StartedAgrees not_started id st = (id ≡ 0) × (is_established st ≡ false)
StartedAgrees _ id st = Unit {0}

module _ ⦃J : JsonLib⦄ {T : Type 0} where
  pub record Inv (s : Session T) : Type 0 where
    pub joined_agrees : JoinedAgrees s.joined.shared s.session_id s.heartbeat
    pub started_agrees : StartedAgrees s.heartbeat s.session_id s.state
    pub not_closing : s.state ≢ closing

  pub initial-Inv : (t : T) → Inv (initial t)
  initial-Inv t = ground arith

  process_welcome-Inv : (m : Message) (s : Session T) → Inv s → Inv (process_welcome m s).1
  unfolding process_welcome
  process_welcome-Inv m s v = ground arith

  join_begin-Inv : (realm : String) (s : Session T) → Inv s → Inv (join_begin realm s).1
  unfolding join_begin ensure_state
  join_begin-Inv realm s v = rw (hello_message_lem realm) (ground arith)

  heartbeat_begin-Inv :
      (b : Bool) (s : Session T) → s.heartbeat ≡ sleeping → Inv s → Inv (heartbeat_begin b s).1
  unfolding heartbeat_begin
  heartbeat_begin-Inv true s h v = ground arith
  heartbeat_begin-Inv false s h v = rw ping_message_lem (ground arith)

  heartbeat_check-Inv : (s : Session T) → s.heartbeat ≡ awaiting → Inv s → Inv (heartbeat_check s).1
  unfolding heartbeat_check
  heartbeat_check-Inv s h v = ground arith

  heartbeat_expire-Inv :
      (s : Session T) → s.heartbeat ≡ expired → Inv s → Inv (heartbeat_expire s).1
  unfolding heartbeat_expire
  heartbeat_expire-Inv s h v = ground arith

  keeping-Inv : Keeping Inv
  keeping-Inv = record {
    transport = λ t s v. ground arith;
    attached = λ b s v. ground arith;
    posted = λ ts s v. ground arith;
    operations = λ m s v. ground arith;
    pong = λ p s v. ground arith;
    joined = λ e s v. ground arith;
    failed = λ e s v. ground arith;
    left = λ s v. ground arith;
    listened = λ s v. ground arith;
    begins = join_begin-Inv;
    pinged = heartbeat_begin-Inv;
    checked = heartbeat_check-Inv;
    settled = heartbeat_expire-Inv;
  }

module _ ⦃J : JsonLib⦄ {T : Type 0} ⦃tr : Transport T⦄ where
  -- So every session that is reached from a new one, by any events at all, satisfies the invariant: a
  -- join that succeeded gave the session's own id, the session has an id or is established only with a
  -- heartbeat thread, and it is never in the state CLOSING.
  pub Reach-Inv : (t : T) {u : Session T} → Reach (initial t) u → Inv u
  Reach-Inv t r = Reach-keeps keeping-Inv process_welcome-Inv r (initial-Inv t)
