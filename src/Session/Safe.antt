-- ===== src/Session/Safe.antt =====
-- Which events can end the process.
use barbarossa.Common.{◌≡◌, arith, Bool, true, false, String}
use barbarossa.Errors.Safe.{Survives}
use barbarossa.Message.{Message}
use barbarossa.Promise.{Shared, failure, is_ready}
use barbarossa.Json.{JsonLib}
use barbarossa.Transport.{Transport}
use barbarossa.Session.Messages.{hello_message_lem, ping_message_lem}
use barbarossa.Session.{
  Session, HeartbeatThread, initial, not_started, sleeping, awaiting, expired, finished,
  ensure_state,
}
use barbarossa.Session.Handlers.{process_welcome}
use barbarossa.Session.Join.{join_begin}
use barbarossa.Session.Heartbeat.{heartbeat_begin, heartbeat_check, heartbeat_expire}
use barbarossa.Session.Keeping.{Keeping, Reach-keeps}
use barbarossa.Session.Run.{beat, Reach}

abbrev has_failed : Shared Bool → Bool
has_failed (failure e) = true
has_failed _ = false

abbrev waits_for_pong : HeartbeatThread → Bool
waits_for_pong not_started = false
waits_for_pong sleeping = false
waits_for_pong _ = true

module _ ⦃J : JsonLib⦄ {T : Type 0} where
  -- The future of the pong is retrieved once in a round, and never fails.
  pub record PongInv (s : Session T) : Type 0 where
    retrieved_once : waits_for_pong s.heartbeat ≡ false → s.pong_received.retrieved ≡ false
    no_failure : has_failed s.pong_received.shared ≡ false

  process_welcome-PongInv :
      (m : Message) (s : Session T) → PongInv s → PongInv (process_welcome m s).1
  unfolding process_welcome
  process_welcome-PongInv m s v = ground arith

  join_begin-PongInv : (realm : String) (s : Session T) → PongInv s → PongInv (join_begin realm s).1
  unfolding join_begin ensure_state
  join_begin-PongInv realm s v = rw (hello_message_lem realm) (ground arith)

  heartbeat_begin-PongInv :
      (b : Bool) (s : Session T)
      → s.heartbeat ≡ sleeping
      → PongInv s
      → PongInv (heartbeat_begin b s).1
  unfolding heartbeat_begin
  heartbeat_begin-PongInv true s h v = ground arith
  heartbeat_begin-PongInv false s h v = rw ping_message_lem (ground arith)

  heartbeat_check-PongInv :
      (s : Session T) → s.heartbeat ≡ awaiting → PongInv s → PongInv (heartbeat_check s).1
  unfolding heartbeat_check
  heartbeat_check-PongInv s h v = ground arith

  heartbeat_expire-PongInv :
      (s : Session T) → s.heartbeat ≡ expired → PongInv s → PongInv (heartbeat_expire s).1
  unfolding heartbeat_expire
  heartbeat_expire-PongInv s h v = ground arith

  keeping-PongInv : Keeping PongInv
  keeping-PongInv = record {
    transport = λ t s v. ground arith;
    attached = λ b s v. ground arith;
    posted = λ ts s v. ground arith;
    operations = λ m s v. ground arith;
    pong = λ b s v. ground arith;
    joined = λ e s v. ground arith;
    failed = λ e s v. ground arith;
    left = λ s v. ground arith;
    listened = λ s v. ground arith;
    begins = join_begin-PongInv;
    pinged = heartbeat_begin-PongInv;
    checked = heartbeat_check-PongInv;
    settled = heartbeat_expire-PongInv;
  }

  pub beat-Survives :
      (b : Bool) (h : HeartbeatThread) (s : Session T)
      → s.heartbeat ≡ h
      → PongInv s
      → is_ready s.leaved.shared ≡ false
      → (s.heartbeat ≡ expired → is_ready s.pong_received.shared ≡ false)
      → Survives (beat b h s).0
  unfolding heartbeat_begin heartbeat_check heartbeat_expire
  beat-Survives true sleeping s e v l p = ground arith
  beat-Survives false sleeping s e v l p = rw ping_message_lem (ground arith)
  beat-Survives b awaiting s e v l p = ground arith
  beat-Survives b expired s e v l p = ground arith
  beat-Survives b not_started s e v l p = λ q. cc
  beat-Survives b finished s e v l p = λ q. cc

module _ ⦃J : JsonLib⦄ {T : Type 0} ⦃tr : Transport T⦄ where
  pub Reach-PongInv : (t : T) {u : Session T} → Reach (initial t) u → PongInv u
  Reach-PongInv t r = Reach-keeps keeping-PongInv process_welcome-PongInv r (ground arith)
