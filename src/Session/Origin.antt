-- ===== src/Session/Origin.antt =====
-- Where the id that `Join` returns comes from.
use barbarossa.Common.{
  ℕ, ◌≡◌, ◌≢◌, ◌⊎◌, inl, inr, refl, ap, ◌∙◌, sym, String, arith, Bool, true, false,
}
use barbarossa.Errors.{Exception}
use barbarossa.Errors.Outcome.{ok}
use barbarossa.Promise
use barbarossa.Promise.{Promise, Shared, value, not_ready, failure, is_ready}
use barbarossa.Json.{JsonLib}
use barbarossa.Message.{Message, field_as}
use barbarossa.MessageType.{to_int, welcome}
use barbarossa.Transport.{Transport}
use barbarossa.Session.State.{establishing}
use barbarossa.Session.Messages.{hello_message_lem, ping_message_lem}
use barbarossa.Session.{Session, initial, not_started, ensure_state}
use barbarossa.Session.Handlers.{process_welcome}
use barbarossa.Session.Join.{joined_result, join_begin, join_end}
use barbarossa.Session.Heartbeat.{heartbeat_begin, heartbeat_check, heartbeat_expire}
use barbarossa.Session.Keeping.{Keeping, step-keeps}
use barbarossa.Session.Settled.{keeping-Settled, process_welcome-Settled, starts-Settled}
use barbarossa.Session.Run.{Event, receive, step, Reach, here, next}

joined-set_exception :
    (e : Exception) (p : Promise ℕ) (id : ℕ)
    → (Promise.set_exception e p).1.shared ≡ value id
    → p.shared ≡ value id
joined-set_exception e p id h = ground arith

Shared-cases : (a : Shared ℕ) → (a ≡ not_ready) ⊎ (is_ready a ≡ true)
Shared-cases not_ready = inl refl
Shared-cases (value id) = inr refl
Shared-cases (failure e) = inr refl

gives_value : (a : Shared ℕ) {id : ℕ} → joined_result a ≡ ok id → a ≡ value id
gives_value a h = ground arith

waits_or_gives : {a : Shared ℕ} {id : ℕ} → a ≡ not_ready → a ≢ value id
waits_or_gives p q = cc

module _ ⦃J : JsonLib⦄ {T : Type 0} where
  open J use {get_int, get_uint}

  -- The message is a WELCOME with the given id, and the session waits for one.
  pub record IsWelcomedBy (s : Session T) (m : Message) (id : ℕ) : Type 0 where
    pub is_welcome : field_as get_int 0 m ≡ ok (to_int welcome)
    pub has_id : field_as get_uint 1 m ≡ ok id
    pub in_establishing : s.state ≡ establishing
    pub no_thread : s.heartbeat ≡ not_started

  -- The promise of `Join` has a value only if `G` allows it.
  Allowed : (ℕ → Type 0) → Session T → Type 0
  Allowed G s = (id : ℕ) → s.joined.shared ≡ value id → G id

  joined-join_begin :
      (realm : String) (s : Session T) → (join_begin realm s).1.joined.shared ≡ s.joined.shared
  unfolding join_begin ensure_state
  joined-join_begin realm s = rw (hello_message_lem realm) (ground arith)

  joined-heartbeat_begin :
      (b : Bool) (s : Session T) → (heartbeat_begin b s).1.joined.shared ≡ s.joined.shared
  unfolding heartbeat_begin
  joined-heartbeat_begin true s = ground arith
  joined-heartbeat_begin false s = rw ping_message_lem (ground arith)

  joined-heartbeat_check : (s : Session T) → (heartbeat_check s).1.joined.shared ≡ s.joined.shared
  unfolding heartbeat_check
  joined-heartbeat_check s = ground arith

  joined-heartbeat_expire : (s : Session T) → (heartbeat_expire s).1.joined.shared ≡ s.joined.shared
  unfolding heartbeat_expire
  joined-heartbeat_expire s = ground arith

  joined-process_welcome :
      (m : Message) (s : Session T) (id : ℕ)
      → s.joined.shared ≡ not_ready
      → (process_welcome m s).1.joined.shared ≡ value id
      → (field_as get_uint 1 m ≡ ok id) × (s.state ≡ establishing) × (s.heartbeat ≡ not_started)
  unfolding process_welcome
  joined-process_welcome m s id n h = ground arith

  keeping-Allowed : (G : ℕ → Type 0) → Keeping {T = T} (Allowed G)
  unfolding Allowed
  keeping-Allowed G = record {
    transport = λ t s v. v;
    attached = λ b s v. v;
    posted = λ ts s v. v;
    operations = λ m s v. v;
    pong = λ p s v. v;
    joined = λ e s v id h. v id (joined-set_exception e s.joined id h);
    failed = λ e s v. v;
    left = λ s v. v;
    listened = λ s v. v;
    begins = λ realm s v id h. v id (sym (joined-join_begin realm s) ∙ h);
    pinged = λ b s e v id h. v id (sym (joined-heartbeat_begin b s) ∙ h);
    checked = λ s e v id h. v id (sym (joined-heartbeat_check s) ∙ h);
    settled = λ s e v id h. v id (sym (joined-heartbeat_expire s) ∙ h);
  }

module _ ⦃J : JsonLib⦄ {T : Type 0} ⦃tr : Transport T⦄ where
  -- The event that gives the promise of `Join` its value is a WELCOME with that id.
  step-welcomed :
      (e : Event T) (s : Session T) (id : ℕ)
      → s.joined.shared ≡ not_ready
      → (step e s).1.joined.shared ≡ value id
      → (m : Message) × (e ≡ receive m) × IsWelcomedBy s m id
  unfolding Allowed
  step-welcomed e s id n h =
      step-keeps (keeping-Allowed λ i. (m : Message) × (e ≡ receive m) × IsWelcomedBy s m i) e s
        (λ m q c i v.
          let (u, st, th) = joined-process_welcome m s i n v in
          (m, q, record { is_welcome = c; has_id = u; in_establishing = st; no_thread = th }))
        (λ i v. elim (waits_or_gives n v) [ ]) id h

  -- A step from a promise that is ready leaves it so.
  step-ready :
      (e : Event T) (s : Session T)
      → is_ready s.joined.shared ≡ true
      → (step e s).1.joined.shared ≡ s.joined.shared
  step-ready e s h =
      let a = s.joined.shared in
      let b = s.leaved.shared in
      let kept =
        step-keeps (keeping-Settled a b) e s
          (λ m q c. process_welcome-Settled a b m s (starts-Settled s)) (starts-Settled s) in
      ground (arith, kept)

  -- A WELCOME with the id arrived between `t` and `u`.
  abbrev pub Welcomed : Session T → Session T → ℕ → Type 0
  Welcomed t u id =
      (s : Session T) × (m : Message) × Reach t s
      × IsWelcomedBy s m id
      × Reach (step (receive m) s).1 u

  Reach-equal : {t u : Session T} → u ≡ t → Reach t u
  Reach-equal p = rw p here

  Reach-value :
      {t u : Session T} (id : ℕ)
      → t.joined.shared ≡ not_ready
      → Reach t u
      → u.joined.shared ≡ value id
      → Welcomed t u id
  Reach-value id w here h = elim (waits_or_gives w h) [ ]
  Reach-value {u = u} id w (next {t = s} e r x y p) h =
      let given = sym (ap (λ (z : Session T). z.joined.shared) p) ∙ h in
      elim (Shared-cases s.joined.shared) [
        | inl n ↦
            let (m, q, by) = step-welcomed e s id n given in
            (s, m, r, by, Reach-equal (p ∙ ap (λ (e : Event T). (step e s).1) q))
        | inr n ↦
            let (s', m, before, by, after) = Reach-value id w r (sym (step-ready e s n) ∙ given) in
            (s', m, before, by, next e after x y p)
      ]

  -- Where `Join` of a session that began new gets an id, a WELCOME with that id has arrived on the way, in
  -- a state in which the session waited for a WELCOME and had no heartbeat thread: no other message, no
  -- error and no call gives `Join` an id.
  pub Reach-Welcomed :
      (t : T) {u : Session T} (id : ℕ)
      → Reach (initial t) u
      → join_end u ≡ ok id
      → Welcomed (initial t) u id
  unfolding join_end
  Reach-Welcomed t id r h = Reach-value id refl r (gives_value _ h)
