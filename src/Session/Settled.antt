-- ===== src/Session/Settled.antt =====
-- The futures of `Join` and `Listen` are settled once: no event changes what they give.
use barbarossa.Common.{ℕ, ◌≡◌, String, arith, Bool, true, false, refl}
use barbarossa.Promise.{Shared, not_ready, is_ready, value, failure}
use barbarossa.Json.{JsonLib}
use barbarossa.Message.{Message}
use barbarossa.Transport.{Transport}
use barbarossa.Session.Messages.{hello_message_lem, ping_message_lem}
use barbarossa.Session.{Session, listen_end, ensure_state}
use barbarossa.Session.Handlers.{process_welcome}
use barbarossa.Session.Join.{join_begin, join_end}
use barbarossa.Session.Heartbeat.{heartbeat_begin, heartbeat_check, heartbeat_expire}
use barbarossa.Session.Keeping.{Keeping, Reach-keeps, step-keeps, beat-keeps}
use barbarossa.Session.Run.{Reach, Event, step, beat}

-- A shared state that is ready stays as it is.
abbrev pub Stays : {A : Type 0} → Shared A → Shared A → Type 0
Stays not_ready now = Unit {0}
Stays old now = now ≡ old

pub Stays-same : {A : Type 0} (old now : Shared A) → is_ready old ≡ true → Stays old now → now ≡ old
Stays-same not_ready now h v = cc
Stays-same (value x) now h v = v
Stays-same (failure e) now h v = v

pub Stays-ready :
    {A : Type 0} (old now : Shared A) → is_ready old ≡ true → Stays old now → is_ready now ≡ true
Stays-ready old now h v = rw (Stays-same old now h v) h

module _ ⦃J : JsonLib⦄ {T : Type 0} where
  pub record Settled (a : Shared ℕ) (b : Shared Bool) (s : Session T) : Type 0 where
    pub joined_stays : Stays a s.joined.shared
    pub leaved_stays : Stays b s.leaved.shared

module _ ⦃J : JsonLib⦄ {T : Type 0} (a : Shared ℕ) (b : Shared Bool) where
  pub process_welcome-Settled :
      (m : Message) (s : Session T) → Settled a b s → Settled a b (process_welcome m s).1
  unfolding process_welcome
  process_welcome-Settled m s v = ground arith

  join_begin-Settled :
      (realm : String) (s : Session T) → Settled a b s → Settled a b (join_begin realm s).1
  unfolding join_begin ensure_state
  join_begin-Settled realm s v = rw (hello_message_lem realm) (ground arith)

  heartbeat_begin-Settled :
      (c : Bool) (s : Session T) → Settled a b s → Settled a b (heartbeat_begin c s).1
  unfolding heartbeat_begin
  heartbeat_begin-Settled true s v = ground arith
  heartbeat_begin-Settled false s v = rw ping_message_lem (ground arith)

  heartbeat_check-Settled : (s : Session T) → Settled a b s → Settled a b (heartbeat_check s).1
  unfolding heartbeat_check
  heartbeat_check-Settled s v = ground arith

  heartbeat_expire-Settled : (s : Session T) → Settled a b s → Settled a b (heartbeat_expire s).1
  unfolding heartbeat_expire
  heartbeat_expire-Settled s v = ground arith

  pub keeping-Settled : Keeping {T = T} (Settled a b)
  keeping-Settled = record {
    transport = λ t s v. ground arith;
    attached = λ c s v. ground arith;
    posted = λ ts s v. ground arith;
    operations = λ m s v. ground arith;
    pong = λ p s v. ground arith;
    joined = λ e s v. ground arith;
    failed = λ e s v. ground arith;
    left = λ s v. ground arith;
    listened = λ s v. ground arith;
    begins = join_begin-Settled;
    pinged = λ c s h. heartbeat_begin-Settled c s;
    checked = λ s h. heartbeat_check-Settled s;
    settled = λ s h. heartbeat_expire-Settled s;
  }

module _ ⦃J : JsonLib⦄ {T : Type 0} where
  pub starts-Settled : (s : Session T) → Settled s.joined.shared s.leaved.shared s
  starts-Settled s = ground arith

module _ ⦃J : JsonLib⦄ {T : Type 0} ⦃tr : Transport T⦄ where
  -- The future of `Listen` stays ready.
  pub step-ends :
      (e : Event T) (s : Session T)
      → is_ready s.leaved.shared ≡ true
      → is_ready (step e s).1.leaved.shared ≡ true
  step-ends e s h =
      let start = starts-Settled s in
      let kept =
        step-keeps (keeping-Settled s.joined.shared s.leaved.shared) e s
          (λ m q c. process_welcome-Settled s.joined.shared s.leaved.shared m s start) start in
      Stays-ready s.leaved.shared _ h kept.leaved_stays

  pub beat-ends :
      (b : Bool) (s : Session T)
      → is_ready s.leaved.shared ≡ true
      → is_ready (beat b s.heartbeat s).1.leaved.shared ≡ true
  beat-ends b s h =
      let kept =
        beat-keeps (keeping-Settled s.joined.shared s.leaved.shared) b s.heartbeat s refl
          (starts-Settled s) in
      Stays-ready s.leaved.shared _ h kept.leaved_stays

  Reach-Settled : {s u : Session T} → Reach s u → Settled s.joined.shared s.leaved.shared u
  Reach-Settled {s} r =
      Reach-keeps (keeping-Settled s.joined.shared s.leaved.shared)
        (process_welcome-Settled s.joined.shared s.leaved.shared) r (starts-Settled s)

  -- Whatever happens after `joined_` or `leaved_` is ready, what `Join` and `Listen` get stays the same: a
  -- second WELCOME, an ABORT, a second `Leave` or a heartbeat timeout never replaces an answer.
  pub Reach-results :
      {s u : Session T}
      → Reach s u
      → (is_ready s.joined.shared ≡ true → join_end u ≡ join_end s)
        × (is_ready s.leaved.shared ≡ true → listen_end u ≡ listen_end s)
  unfolding join_end listen_end
  Reach-results {s} {u} r =
      (λ h. ground (arith, Reach-Settled r), λ h. ground (arith, Reach-Settled r))
