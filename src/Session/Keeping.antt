-- ===== src/Session/Keeping.antt =====
-- The predicates on a session that do not look at the transport and the posted handlers.
use barbarossa.Common.{refl, false, ◌≡◌, String, List, Bool, true}
use barbarossa.Errors.{Exception}
use barbarossa.Errors.Outcome.{ok}
use barbarossa.Promise
use barbarossa.Promise.{Promise}
use barbarossa.Json.{JsonLib}
use barbarossa.Message.{Message, field_as}
use barbarossa.MessageType.{to_int, welcome}
use barbarossa.Transport.{Transport}
use barbarossa.Session.{
  not_started, finished, HeartbeatThread, Session, Operation, Task, sleeping, awaiting, expired,
  on_joined, on_leaved, on_pong,
}
use barbarossa.Session.Handlers.{process_pong, process_welcome}
use barbarossa.Session.Join.{join_begin}
use barbarossa.Session.Parts.{Parts, Special, event-keeps}
use barbarossa.Session.Heartbeat.{heartbeat_begin, heartbeat_check, heartbeat_expire}
use barbarossa.Errors.Keeps.{keeps_then}
use barbarossa.Session.Run.{beat, Event, receive, step, Reach, here, next}

module _ ⦃J : JsonLib⦄ {T : Type 0} where
  -- What `P` asks of the parts: a change of a member that `P` does not look at, an exception or a value for
  -- one of the promises, and the methods that change the state, the id or the heartbeat.
  pub record Keeping (P : Session T → Type 0) : Type 0 where
    pub transport : (t : T) (s : Session T) → P s → P (record s { transport = t })
    pub attached : (b : Bool) (s : Session T) → P s → P (record s { attached = b })
    pub posted : (ts : List Task) (s : Session T) → P s → P (record s { posted = ts })
    pub operations :
        (m : List (String × Operation)) (s : Session T) → P s → P (record s { operations = m })
    pub pong : (b : Bool) (s : Session T) → P s → P (on_pong (Promise.set_value b) s).1
    pub joined : (e : Exception) (s : Session T) → P s → P (on_joined (Promise.set_exception e) s).1
    pub failed : (e : Exception) (s : Session T) → P s → P (on_leaved (Promise.set_exception e) s).1
    pub left : (s : Session T) → P s → P (on_leaved (Promise.set_value true) s).1
    pub listened : (s : Session T) → P s → P (on_leaved Promise.get_future s).1
    pub begins : (realm : String) (s : Session T) → P s → P (join_begin realm s).1
    pub pinged :
        (b : Bool) (s : Session T) → s.heartbeat ≡ sleeping → P s → P (heartbeat_begin b s).1
    pub checked : (s : Session T) → s.heartbeat ≡ awaiting → P s → P (heartbeat_check s).1
    pub settled : (s : Session T) → s.heartbeat ≡ expired → P s → P (heartbeat_expire s).1

module _ ⦃J : JsonLib⦄ {T : Type 0} ⦃tr : Transport T⦄ {P : Session T → Type 0}
    (k : Keeping P) where
  open J use {get_int}

  -- Every message may be sent.
  parts : Parts (λ b m. Unit {0}) P
  parts = record {
    sends = λ b m s a c v. k.transport _ s v;
    closes = λ c s v. k.transport _ s v;
    results = λ id r. tt;
    errors = λ id. tt;
    taken = λ t ts s e v. (tt, k.posted ts s v);
    attached = k.attached;
    operations = k.operations;
    unsent = λ e s v.
        keeps_then P (on_pong (Promise.set_value false)) _ s (k.pong false s v) (λ u. k.failed e u);
    joined = k.joined;
    failed = k.failed;
    left = k.left;
    listened = k.listened;
    begins = k.begins;
  }

  pub beat-keeps :
      (b : Bool) (h : HeartbeatThread) (s : Session T) → s.heartbeat ≡ h → P s → P (beat b h s).1
  beat-keeps b sleeping s e v = k.pinged b s e v
  beat-keeps b awaiting s e v = k.checked s e v
  beat-keeps b expired s e v = k.settled s e v
  beat-keeps b not_started s e v = v
  beat-keeps b finished s e v = v

  -- What an event keeps, if it keeps it where the event is a WELCOME that arrives.
  pub step-keeps :
      (e : Event T) (s : Session T)
      → ((m : Message)
          → e ≡ receive m
          → field_as get_int 0 m ≡ ok (to_int welcome)
          → P (process_welcome m s).1)
      → P s
      → P (step e s).1
  unfolding process_pong
  step-keeps e s w v =
      let special : Special P e s = record {
        welcomes = w;
        pongs = λ m q c. k.pong true s v;
        transports = λ t q. k.transport t s v;
        beats = λ b q. beat-keeps b s.heartbeat s refl v;
      } in
      event-keeps parts e s special v

  -- What is kept by the parts and by a WELCOME holds in every session that is reached.
  pub Reach-keeps :
      ((m : Message) (s : Session T) → P s → P (process_welcome m s).1)
      → {s u : Session T} → Reach s u
      → P s
      → P u
  Reach-keeps w here v = v
  Reach-keeps w (next {t = t} e r a b p) v =
      let kept = Reach-keeps w r v in rw p (step-keeps e t (λ m q c. w m t kept) kept)
