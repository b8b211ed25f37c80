-- ===== src/Session/Sent.antt =====
-- What a session sends, as messages.
use barbarossa.Common.{
  ◌≡◌, ◌≢◌, ◌⊎◌, inl, inr, ℕ, refl, sym, String, List, [], ◌∷◌, ◌++◌, ℤ, Bool, true, false, arith,
}
use barbarossa.Json.{JsonLib}
use barbarossa.Message.{Message}
use barbarossa.Transport.{Transport, Caller}
use barbarossa.Session.Messages.{
  hello_fields, ping_fields, result_fields, error_fields, hello_message_lem, ping_message_lem,
}
use barbarossa.Session.{
  sleeping, awaiting, expired, finished, HeartbeatThread, Session, Task, not_started, send_hello,
  send_ping, ensure_state,
}
use barbarossa.Session.Handlers.{process_pong, process_welcome}
use barbarossa.Session.Join.{join_begin}
use barbarossa.Session.Heartbeat.{heartbeat_begin, heartbeat_check, heartbeat_expire}
use barbarossa.Session.Run.{beat, Event, attach, transport_becomes, step}
use barbarossa.Session.Parts.{Parts, Special, message_of, established_of, event-keeps}

module _ ⦃J : JsonLib⦄ where
  open J use {Json}

  -- The four messages that `Session` builds, and whether it sends them as an established session.
  pub data OfSession (m : Message) : Bool → Type 0 where
    asks_to_join : (realm : String) → m ≡ hello_fields realm → OfSession m false
    pings : m ≡ ping_fields → OfSession m true
    gives_result : (id : ℤ) (r : Json) → m ≡ result_fields id r → OfSession m true
    refuses : (id : ℤ) → m ≡ error_fields id → OfSession m true

  abbrev pub AllPosted : List Task → Type 0
  AllPosted [] = Unit {0}
  AllPosted (t ∷ ts) = OfSession (message_of t) (established_of t) × AllPosted ts

  AllPosted-append :
      (ts : List Task) (t : Task)
      → OfSession (message_of t) (established_of t)
      → AllPosted ts
      → AllPosted (ts ++ t ∷ [])
  AllPosted-append [] t m v = (m, tt)
  AllPosted-append (u ∷ ts) t m (n, v) = (n, AllPosted-append ts t m v)

  pub AllPosted-same : {ts us : List Task} → ts ≡ us → AllPosted ts → AllPosted us
  AllPosted-same p v = rw (← p) v

module _ ⦃J : JsonLib⦄ {T : Type 0} where
  -- The transport satisfies `Q` for the session's id, the handlers that wait send messages of the session,
  -- and a session with an id has started its heartbeat.
  pub record Speaks (Q : ℕ → T → Type 0) (s : Session T) : Type 0 where
    pub over : Q s.session_id s.transport
    pub waiting : AllPosted s.posted
    pub started : s.session_id ≢ 0 → s.heartbeat ≢ not_started

  -- A WELCOME changes the id only where no heartbeat was started, and nothing that was posted.
  process_welcome-id :
      (m : Message) (s : Session T)
      → let u = (process_welcome m s).1 in
        ((u.session_id ≡ s.session_id) ⊎ (s.heartbeat ≡ not_started))
        × (u.transport ≡ s.transport)
        × (u.posted ≡ s.posted)
        × (s.heartbeat ≢ not_started → u.heartbeat ≢ not_started)
        × (u.session_id ≢ s.session_id → u.heartbeat ≢ not_started)
  unfolding process_welcome
  process_welcome-id m s =
      (ground arith, ground arith, ground arith, λ h. ground arith, λ h. ground arith)

  module _ (Q : ℕ → T → Type 0) where
    join_begin-Speaks :
        (realm : String) (s : Session T) → Speaks Q s → Speaks Q (join_begin realm s).1
    unfolding join_begin ensure_state
    join_begin-Speaks realm s v =
        let w =
          AllPosted-append s.posted (send_hello (hello_fields realm)) (asks_to_join realm refl)
            v.waiting in
        rw (hello_message_lem realm) (record { over = v.over; waiting = w; started = v.started })

    heartbeat_begin-Speaks :
        (b : Bool) (s : Session T) → Speaks Q s → Speaks Q (heartbeat_begin b s).1
    unfolding heartbeat_begin
    heartbeat_begin-Speaks true s v = record {
      over = v.over;
      waiting = v.waiting;
      started = λ z q. cc;
    }
    heartbeat_begin-Speaks false s v =
        let w = AllPosted-append s.posted (send_ping ping_fields) (pings refl) v.waiting in
        rw ping_message_lem (ground (arith, v.over, w, v.started))

    heartbeat_check-Speaks : (s : Session T) → Speaks Q s → Speaks Q (heartbeat_check s).1
    unfolding heartbeat_check
    heartbeat_check-Speaks s v = ground (arith, v.over, v.waiting, v.started)

    heartbeat_expire-Speaks : (s : Session T) → Speaks Q s → Speaks Q (heartbeat_expire s).1
    unfolding heartbeat_expire
    heartbeat_expire-Speaks s v = ground (arith, v.over, v.waiting, v.started)

    at_zero : {id : ℕ} (t : T) → id ≡ 0 → Q id t → Q 0 t
    at_zero t z v = rw (← z) v

    beat-Speaks :
        (b : Bool) (h : HeartbeatThread) (s : Session T) → Speaks Q s → Speaks Q (beat b h s).1
    beat-Speaks b sleeping s v = heartbeat_begin-Speaks b s v
    beat-Speaks b awaiting s v = heartbeat_check-Speaks s v
    beat-Speaks b expired s v = heartbeat_expire-Speaks s v
    beat-Speaks b not_started s v = v
    beat-Speaks b finished s v = v

    -- Where `Q` of the id 0 is `Q` of every id.
    process_welcome-Speaks :
        ((id : ℕ) (t : T) → Q 0 t → Q id t)
        → (m : Message) (s : Session T) → Speaks Q s
        → Speaks Q (process_welcome m s).1
    process_welcome-Speaks n m s v =
        let (c, p, q, a, b) = process_welcome-id m s in
        record {
          over = rw p (elim c [
            | inl e ↦ rw e v.over
            | inr h ↦ n _ s.transport (at_zero s.transport (ground (arith, v.started, h)) v.over)
          ]);
          waiting = AllPosted-same (sym q) v.waiting;
          started = λ z. ground (arith, a, b, v.started, z);
        }

module _ ⦃J : JsonLib⦄ {T : Type 0} ⦃tr : Transport T⦄ where
  -- What a session asks of its transport to keep `Q`: that it sends one of the four messages, where a
  -- session with the id 0 sends only a HELLO, that it is disconnected, and that the session gets its id.
  pub record Carries (Q : ℕ → T → Type 0) : Type 0 where
    pub sends :
        (b : Bool) (m : Message) (id : ℕ) (t : T)
        → OfSession m b
        → (b ≡ true → id ≢ 0)
        → Q id t
        → Q id (tr.send_message m t).1
    pub closes : (c : Caller) (id : ℕ) (t : T) → Q id t → Q id (tr.disconnect c t).1
    pub named : (id : ℕ) (t : T) → Q 0 t → Q id t

module _ ⦃J : JsonLib⦄ {T : Type 0} ⦃tr : Transport T⦄ {Q : ℕ → T → Type 0} (k : Carries Q) where
  parts : Parts (λ b m. OfSession m b) (Speaks Q)
  parts = record {
    sends = λ b m s a c v. record {
      over = k.sends b m s.session_id s.transport a c.joined v.over;
      waiting = v.waiting;
      started = v.started;
    };
    closes = λ c s v. record {
      over = k.closes c s.session_id s.transport v.over;
      waiting = v.waiting;
      started = v.started;
    };
    results = λ id r. gives_result id r refl;
    errors = λ id. refuses id refl;
    taken = λ t ts s e v.
        let w = AllPosted-same e v.waiting in
        (w.0, record { over = v.over; waiting = w.1; started = v.started });
    attached = λ b s v. record { over = v.over; waiting = v.waiting; started = v.started };
    operations = λ m s v. record { over = v.over; waiting = v.waiting; started = v.started };
    unsent = λ e s v. ground (arith, v.over, v.waiting, v.started);
    joined = λ e s v. record { over = v.over; waiting = v.waiting; started = v.started };
    failed = λ e s v. record { over = v.over; waiting = v.waiting; started = v.started };
    left = λ s v. record { over = v.over; waiting = v.waiting; started = v.started };
    listened = λ s v. record { over = v.over; waiting = v.waiting; started = v.started };
    begins = join_begin-Speaks Q;
  }

  -- What a transport carries is kept by every event.
  pub step-Speaks :
      (e : Event T) (s : Session T)
      → ((t : T) → (e ≡ attach t) ⊎ (e ≡ transport_becomes t) → Q s.session_id t)
      → Speaks Q s
      → Speaks Q (step e s).1
  unfolding process_pong
  step-Speaks e s n v =
      let special : Special (Speaks Q) e s = record {
        welcomes = λ m p q. process_welcome-Speaks Q k.named m s v;
        pongs = λ m p q. record { over = v.over; waiting = v.waiting; started = v.started };
        transports = λ t p. record { over = n t p; waiting = v.waiting; started = v.started };
        beats = λ b p. beat-Speaks Q b s.heartbeat s v;
      } in
      event-keeps parts e s special v
