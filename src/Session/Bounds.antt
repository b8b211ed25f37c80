-- ===== src/Session/Bounds.antt =====
-- The range of a session's id.
use barbarossa.Common.{
  ℕ, get_elem?, ◌<◌, ◌⊎◌, ◌^◌, ◌≡◌, inl, inr, String, Option-cases, arith, Bool, true, false,
}
use barbarossa.Errors.Outcome.{ok}
use barbarossa.Json.{JsonLib}
use barbarossa.Message.{Message, field_as}
use barbarossa.Transport.{Transport}
use barbarossa.Session.Messages.{hello_message_lem, ping_message_lem}
use barbarossa.Session.{Session, initial, ensure_state}
use barbarossa.Session.Handlers.{process_welcome}
use barbarossa.Session.Join.{join_begin, join_end}
use barbarossa.Session.Heartbeat.{heartbeat_begin, heartbeat_check, heartbeat_expire}
use barbarossa.Session.Keeping.{Keeping, Reach-keeps}
use barbarossa.Session.Invariant.{Reach-Inv}
use barbarossa.Session.Run.{Reach}

module _ ⦃J : JsonLib⦄ where
  open J use {get_uint, get_uint-bound}

  field_as-bound : (i : ℕ) (m : Message) (id : ℕ) → field_as get_uint i m ≡ ok id → id < 2 ^ 32
  unfolding field_as
  field_as-bound i m id h = elim (Option-cases (get_elem? m.fields i)) [
    | inl e ↦ ground arith
    | inr (v, e) ↦ ground (arith, get_uint-bound v id)
  ]

module _ ⦃J : JsonLib⦄ {T : Type 0} where
  open J use {get_uint}

  -- The id is a value of `uint32_t`.
  HasUint32 : Session T → Type 0
  HasUint32 s = s.session_id < 2 ^ 32

  process_welcome-session_id :
      (m : Message) (s : Session T)
      → let id = (process_welcome m s).1.session_id in
        (id ≡ s.session_id) ⊎ (field_as get_uint 1 m ≡ ok id)
  unfolding process_welcome
  process_welcome-session_id m s = ground arith

  process_welcome-HasUint32 :
      (m : Message) (s : Session T) → HasUint32 s → HasUint32 (process_welcome m s).1
  unfolding HasUint32
  process_welcome-HasUint32 m s v = elim (process_welcome-session_id m s) [
    | inl e ↦ rw e v
    | inr e ↦ field_as-bound 1 m _ e
  ]

  join_begin-HasUint32 :
      (realm : String) (s : Session T) → HasUint32 s → HasUint32 (join_begin realm s).1
  unfolding HasUint32 join_begin ensure_state
  join_begin-HasUint32 realm s v = rw (hello_message_lem realm) (ground arith)

  heartbeat_begin-HasUint32 :
      (b : Bool) (s : Session T) → HasUint32 s → HasUint32 (heartbeat_begin b s).1
  unfolding HasUint32 heartbeat_begin
  heartbeat_begin-HasUint32 true s v = ground arith
  heartbeat_begin-HasUint32 false s v = rw ping_message_lem (ground arith)

  heartbeat_check-HasUint32 : (s : Session T) → HasUint32 s → HasUint32 (heartbeat_check s).1
  unfolding HasUint32 heartbeat_check
  heartbeat_check-HasUint32 s v = ground arith

  heartbeat_expire-HasUint32 : (s : Session T) → HasUint32 s → HasUint32 (heartbeat_expire s).1
  unfolding HasUint32 heartbeat_expire
  heartbeat_expire-HasUint32 s v = ground arith

  keeping-HasUint32 : Keeping {T = T} HasUint32
  unfolding HasUint32
  keeping-HasUint32 = record {
    transport = λ t s v. v;
    attached = λ b s v. v;
    posted = λ ts s v. v;
    operations = λ m s v. v;
    pong = λ b s v. v;
    joined = λ e s v. v;
    failed = λ e s v. v;
    left = λ s v. v;
    listened = λ s v. v;
    begins = join_begin-HasUint32;
    pinged = λ b s h. heartbeat_begin-HasUint32 b s;
    checked = λ s h. heartbeat_check-HasUint32 s;
    settled = λ s h. heartbeat_expire-HasUint32 s;
  }

module _ ⦃J : JsonLib⦄ {T : Type 0} ⦃tr : Transport T⦄ where
  pub Reach-bound :
      (t : T) {u : Session T}
      → Reach (initial t) u
      → (u.session_id < 2 ^ 32) × ((id : ℕ) → join_end u ≡ ok id → id < 2 ^ 32)
  unfolding HasUint32 join_end
  Reach-bound t {u} r =
      let b = Reach-keeps keeping-HasUint32 process_welcome-HasUint32 r (omega arith) in
      (b, λ id e. ground (arith, Reach-Inv t r))
