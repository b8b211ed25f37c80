-- ===== src/Session/Refines.antt =====
-- The session of session.hpp keeps the contract of Session.Contract.
use barbarossa.Common.{ℕ, ◌≡◌, ◌≢◌, ◌⊎◌, inl, inr, String, arith, Bool, true, false, if◌then◌else◌}
use barbarossa.Errors.{Exception, timeout_error}
use barbarossa.Errors.Hierarchy.{copy_as_network_error}
use barbarossa.Errors.Outcome.{Outcome, ok, throws, undefined, terminates}
use barbarossa.Promise
use barbarossa.Promise.{Promise, Shared, value, failure}
use barbarossa.Json.{JsonLib}
use barbarossa.Message.{Message, field_as}
use barbarossa.Transport.{Transport}
use barbarossa.Session.State.{SessionState, is_establishing}
use barbarossa.Session.Messages.{hello_message_lem, ping_message_lem}
use barbarossa.Session.{
  Session, HeartbeatThread, not_started, sleeping, awaiting, expired, initial, ensure_state,
  on_joined, on_leaved,
}
use barbarossa.Session.Handlers.{process_welcome}
use barbarossa.Session.Join.{join_begin}
use barbarossa.Session.Heartbeat.{heartbeat_begin, heartbeat_check, heartbeat_expire}
use barbarossa.Session.Keeping.{Keeping, Reach-keeps}
use barbarossa.Session.Run.{Reach}
use barbarossa.Session.Contract.{
  Phase, idle, asked, begun, View, first, Move, asks, welcomes, garbles, refuses, leaves, breaks,
  Moves, still, after, Answered, Moves-Answered,
}

abbrev pub phase_of : HeartbeatThread → SessionState → Phase
phase_of not_started st = if is_establishing st then asked else idle
phase_of _ st = begun

move : {v w x : View} → Move v w → x ≡ w → Moves v x
move m p = rw p (after still m)

stay : {v x : View} → x ≡ v → Moves v x
stay p = rw p still

concat : {v w x : View} → Moves v w → Moves w x → Moves v x
concat ms still = ms
concat ms (after ns n) = after (concat ms ns) n

-- What a WELCOME does from the text of its id, and how the heartbeat's wait fails.
abbrev answered : Outcome ℕ → View → View
answered (ok id) v = record v { phase = begun; id = id; answer = first (value id) v.answer }
answered _ v = record v { phase = begun }

answered-Moves :
    (r : Outcome ℕ) (v : View) {x : View} → v.phase ≡ asked → x ≡ answered r v → Moves v x
answered-Moves (ok id) v q p = move (welcomes id q) p
answered-Moves (throws e) v q p = move (garbles q) p
answered-Moves undefined v q p = move (garbles q) p
answered-Moves terminates v q p = move (garbles q) p

abbrev wait_error : Shared Bool → Exception
wait_error (failure e) = copy_as_network_error e
wait_error _ = timeout_error

module _ ⦃J : JsonLib⦄ {T : Type 0} where
  open J use {get_uint}

  abbrev pub view : Session T → View
  view s = record {
    phase = phase_of s.heartbeat s.state;
    id = s.session_id;
    answer = s.joined.shared;
    ending = s.leaved.shared;
  }

  view-join_failed :
      (e : Exception) (s : Session T)
      → view (on_joined (Promise.set_exception e) s).1
        ≡ record (view s) { answer = first (failure e) s.joined.shared }
  view-join_failed e s = ground arith

  view-failed :
      (e : Exception) (s : Session T)
      → view (on_leaved (Promise.set_exception e) s).1
        ≡ record (view s) { ending = first (failure e) s.leaved.shared }
  view-failed e s = ground arith

  view-left :
      (s : Session T)
      → view (on_leaved (Promise.set_value true) s).1
        ≡ record (view s) { ending = first (value true) s.leaved.shared }
  view-left s = ground arith

  join_begin-cases :
      (realm : String) (s : Session T)
      → (view (join_begin realm s).1 ≡ view s)
        ⊎ ((phase_of s.heartbeat s.state ≢ begun)
            × (view (join_begin realm s).1 ≡ record (view s) { phase = asked }))
  unfolding join_begin ensure_state
  join_begin-cases realm s = rw (hello_message_lem realm) (ground arith)

  process_welcome-cases :
      (m : Message) (s : Session T)
      → (view (process_welcome m s).1 ≡ view s)
        ⊎ ((phase_of s.heartbeat s.state ≡ asked)
            × (view (process_welcome m s).1 ≡ answered (field_as get_uint 1 m) (view s)))
  unfolding process_welcome
  process_welcome-cases m s = ground arith

  heartbeat_begin-view :
      (b : Bool) (s : Session T) → s.heartbeat ≡ sleeping → view (heartbeat_begin b s).1 ≡ view s
  unfolding heartbeat_begin
  heartbeat_begin-view true s h = ground arith
  heartbeat_begin-view false s h = rw ping_message_lem (ground arith)

  heartbeat_check-cases :
      (s : Session T)
      → s.heartbeat ≡ awaiting
      → (view (heartbeat_check s).1 ≡ view s)
        ⊎ (view (heartbeat_check s).1 ≡ record (view s) {
          ending = first (failure (wait_error s.pong_received.shared)) s.leaved.shared;
        })
  unfolding heartbeat_check
  heartbeat_check-cases s h = ground arith

  heartbeat_expire-cases :
      (s : Session T)
      → s.heartbeat ≡ expired
      → (view (heartbeat_expire s).1 ≡ view s)
        ⊎ (view (heartbeat_expire s).1
            ≡ record (view s) { ending = first (failure timeout_error) s.leaved.shared })
  unfolding heartbeat_expire
  heartbeat_expire-cases s h = ground arith

  module _ (v : View) where
    Kept : Session T → Type 0
    Kept s = Moves v (view s)

    breaks_or_not :
        (e : Exception) (s u : Session T)
        → Kept s
        → (view u ≡ view s)
          ⊎ (view u ≡ record (view s) { ending = first (failure e) s.leaved.shared })
        → Kept u
    unfolding Kept
    breaks_or_not e s u h c = elim c [
      | inl p ↦ concat h (stay p)
      | inr p ↦ concat h (move (breaks e) p)
    ]

    join_begin-Kept : (realm : String) (s : Session T) → Kept s → Kept (join_begin realm s).1
    unfolding Kept
    join_begin-Kept realm s h = elim (join_begin-cases realm s) [
      | inl p ↦ concat h (stay p)
      | inr (q, p) ↦ concat h (move (asks q) p)
    ]

    process_welcome-Kept : (m : Message) (s : Session T) → Kept s → Kept (process_welcome m s).1
    unfolding Kept
    process_welcome-Kept m s h = elim (process_welcome-cases m s) [
      | inl p ↦ concat h (stay p)
      | inr (q, p) ↦ concat h (answered-Moves (field_as get_uint 1 m) (view s) q p)
    ]

    keeping-Kept : Keeping Kept
    unfolding Kept
    keeping-Kept = record {
      transport = λ t s h. h;
      attached = λ b s h. h;
      posted = λ ts s h. h;
      operations = λ m s h. h;
      pong = λ b s h. h;
      joined = λ e s h. concat h (move (refuses e) (view-join_failed e s));
      failed = λ e s h. concat h (move (breaks e) (view-failed e s));
      left = λ s h. concat h (move leaves (view-left s));
      listened = λ s h. concat h (stay (ground arith));
      begins = join_begin-Kept;
      pinged = λ b s e h. concat h (stay (heartbeat_begin-view b s e));
      checked = λ s e h. breaks_or_not _ s (heartbeat_check s).1 h (heartbeat_check-cases s e);
      settled = λ s e h. breaks_or_not _ s (heartbeat_expire s).1 h (heartbeat_expire-cases s e);
    }

module _ ⦃J : JsonLib⦄ {T : Type 0} ⦃tr : Transport T⦄ where
  -- The session keeps its contract: what its events do, seen as the phase, the id and the two answers, is
  -- a sequence of the contract's moves, from every session.
  pub Reach-Moves : {s u : Session T} → Reach s u → Moves (view s) (view u)
  unfolding Kept
  Reach-Moves {s} r = Reach-keeps (keeping-Kept (view s)) (process_welcome-Kept (view s)) r still

  -- So a new session gives `Join` an id only once it is welcomed, and the id is its own.
  pub Reach-Answered : (t : T) {u : Session T} → Reach (initial t) u → Answered (view u)
  unfolding Answered
  Reach-Answered t r = Moves-Answered (Reach-Moves r) λ n q. cc
