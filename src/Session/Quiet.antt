-- ===== src/Session/Quiet.antt =====
-- session.ipp: what a session keeps while no pong comes.
use barbarossa.Common.{String, ◌≡◌, ◌≢◌, ◌⊎◌, Bool, true, arith}
use barbarossa.Errors.Outcome.{ok}
use barbarossa.Promise.{not_ready, is_ready}
use barbarossa.Json.{JsonLib}
use barbarossa.Message.{Message, field_as}
use barbarossa.MessageType.{to_int, pong}
use barbarossa.Transport.{Transport}
use barbarossa.Session.Messages.{hello_message_lem}
use barbarossa.Session.{Session, HeartbeatThread, not_started, ensure_state}
use barbarossa.Session.Handlers.{process_welcome}
use barbarossa.Session.Join.{join_begin}
use barbarossa.Session.Run.{Event, receive, heartbeat_turn, step}
use barbarossa.Session.Parts.{Parts, Special, event-keeps}

module _ ⦃J : JsonLib⦄ {T : Type 0} where
  -- The future of `Listen` is ready.
  abbrev pub Ends : Session T → Type 0
  Ends s = is_ready s.leaved.shared ≡ true

  -- The session has noticed, or its heartbeat is in the given place and has no pong.
  abbrev pub Silent : HeartbeatThread → Bool → Session T → Type 0
  Silent h got s =
      Ends s
      ⊎ ((s.pong_received ≡ record { shared = not_ready; retrieved = got }) × (s.heartbeat ≡ h))

  join_begin-Silent :
      (h : HeartbeatThread) (got : Bool) (realm : String) (s : Session T)
      → Silent h got s
      → Silent h got (join_begin realm s).1
  unfolding join_begin ensure_state
  join_begin-Silent h got realm s v = rw (hello_message_lem realm) (ground arith)

  process_welcome-Silent :
      (h : HeartbeatThread) (got : Bool) (m : Message) (s : Session T)
      → h ≢ not_started
      → Silent h got s
      → Silent h got (process_welcome m s).1
  unfolding process_welcome
  process_welcome-Silent h got m s n v = ground arith

module _ ⦃J : JsonLib⦄ {T : Type 0} ⦃tr : Transport T⦄ where
  open J use {get_int}

  parts : (h : HeartbeatThread) (got : Bool) → Parts {T = T} (λ b m. Unit {0}) (Silent h got)
  parts h got = record {
    sends = λ b m s a c v. v;
    closes = λ c s v. v;
    results = λ id r. tt;
    errors = λ id. tt;
    taken = λ t ts s e v. (tt, v);
    attached = λ b s v. v;
    operations = λ m s v. v;
    unsent = λ e s v. ground arith;
    joined = λ e s v. v;
    failed = λ e s v. ground arith;
    left = λ s v. ground arith;
    listened = λ s v. ground arith;
    begins = join_begin-Silent h got;
  }

  -- An event that is no PONG and no move of the heartbeat thread.
  pub record IsQuiet (e : Event T) : Type 0 where
    pub no_pong : (m : Message) → e ≡ receive m → field_as get_int 0 m ≢ ok (to_int pong)
    pub no_turn : (b : Bool) → e ≢ heartbeat_turn b

  pub step-Silent :
      (h : HeartbeatThread) (got : Bool) (e : Event T) (s : Session T)
      → h ≢ not_started
      → IsQuiet e
      → Silent h got s
      → Silent h got (step e s).1
  step-Silent h got e s n q v =
      let special : Special (Silent h got) e s = record {
        welcomes = λ m p c. process_welcome-Silent h got m s n v;
        pongs = λ m p c. elim (q.no_pong m p c) [ ];
        transports = λ t p. v;
        beats = λ b p. elim (q.no_turn b p) [ ];
      } in
      event-keeps (parts h got) e s special v
