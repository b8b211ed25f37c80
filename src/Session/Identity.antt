-- ===== src/Session/Identity.antt =====
-- The id of a session, and a WELCOME that came without one.
use barbarossa.Common.{ℕ, ◌≡◌, ◌≢◌, String, arith, Bool, true, false}
use barbarossa.Errors.Outcome.{ok}
use barbarossa.Promise.{Shared, value}
use barbarossa.Json.{JsonLib}
use barbarossa.Message.{Message}
use barbarossa.Transport.{Transport}
use barbarossa.Session.Messages.{hello_message_lem, ping_message_lem}
use barbarossa.Session.{Session, not_started, sleeping, awaiting, expired, ensure_state}
use barbarossa.Session.Handlers.{process_welcome}
use barbarossa.Session.Join.{join_begin, join_end}
use barbarossa.Session.Heartbeat.{heartbeat_begin, heartbeat_check, heartbeat_expire}
use barbarossa.Session.Keeping.{Keeping, Reach-keeps}
use barbarossa.Session.Run.{Reach}

-- `Join` has no other id to return than before.
abbrev NoNewValue : Shared ℕ → Shared ℕ → Type 0
NoNewValue old (value id) = old ≡ value id
NoNewValue old _ = Unit {0}

module _ ⦃J : JsonLib⦄ {T : Type 0} where
  record Fixed (a : Shared ℕ) (id : ℕ) (s : Session T) : Type 0 where
    started : s.heartbeat ≢ not_started
    same_id : s.session_id ≡ id
    no_new_value : NoNewValue a s.joined.shared

module _ ⦃J : JsonLib⦄ {T : Type 0} (a : Shared ℕ) (id : ℕ) where
  process_welcome-Fixed :
      (m : Message) (s : Session T) → Fixed a id s → Fixed a id (process_welcome m s).1
  unfolding process_welcome
  process_welcome-Fixed m s v = ground arith

  join_begin-Fixed :
      (realm : String) (s : Session T) → Fixed a id s → Fixed a id (join_begin realm s).1
  unfolding join_begin ensure_state
  join_begin-Fixed realm s v = rw (hello_message_lem realm) (ground arith)

  heartbeat_begin-Fixed :
      (b : Bool) (s : Session T)
      → s.heartbeat ≡ sleeping
      → Fixed a id s
      → Fixed a id (heartbeat_begin b s).1
  unfolding heartbeat_begin
  heartbeat_begin-Fixed true s h v = ground arith
  heartbeat_begin-Fixed false s h v = rw ping_message_lem (ground arith)

  heartbeat_check-Fixed :
      (s : Session T) → s.heartbeat ≡ awaiting → Fixed a id s → Fixed a id (heartbeat_check s).1
  unfolding heartbeat_check
  heartbeat_check-Fixed s h v = ground arith

  heartbeat_expire-Fixed :
      (s : Session T) → s.heartbeat ≡ expired → Fixed a id s → Fixed a id (heartbeat_expire s).1
  unfolding heartbeat_expire
  heartbeat_expire-Fixed s h v = ground arith

  keeping-Fixed : Keeping {T = T} (Fixed a id)
  keeping-Fixed = record {
    transport = λ t s v. ground arith;
    attached = λ b s v. ground arith;
    posted = λ ts s v. ground arith;
    operations = λ m s v. ground arith;
    pong = λ p s v. ground arith;
    joined = λ e s v. ground arith;
    failed = λ e s v. ground arith;
    left = λ s v. ground arith;
    listened = λ s v. ground arith;
    begins = join_begin-Fixed;
    pinged = heartbeat_begin-Fixed;
    checked = heartbeat_check-Fixed;
    settled = heartbeat_expire-Fixed;
  }

module _ ⦃J : JsonLib⦄ {T : Type 0} ⦃tr : Transport T⦄ where
  Reach-Fixed :
      {s u : Session T}
      → Reach s u
      → s.heartbeat ≢ not_started
      → Fixed s.joined.shared s.session_id u
  Reach-Fixed {s} r h =
      Reach-keeps (keeping-Fixed s.joined.shared s.session_id)
        (process_welcome-Fixed s.joined.shared s.session_id) r (ground arith)

  -- Once a WELCOME has started the heartbeat, no event changes the id any more, and no `Join` gets an id
  -- that it would not have got before: a session that was welcomed without a readable id is stuck so.
  pub Reach-session_id :
      {s u : Session T}
      → Reach s u
      → s.heartbeat ≢ not_started
      → (u.session_id ≡ s.session_id) × ((id : ℕ) → join_end u ≡ ok id → join_end s ≡ ok id)
  unfolding join_end
  Reach-session_id {s} {u} r h =
      ((Reach-Fixed r h).same_id, λ id e. ground (arith, Reach-Fixed r h))
