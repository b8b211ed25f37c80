-- ===== src/Session.antt =====
-- include/barbarossa/session.hpp and session.ipp: the state of a session, its constructor and its
-- simple methods. The modules below hold the other methods and what is proved.
pub mod State
pub mod Messages
pub mod Handlers
pub mod Join
pub mod Heartbeat
pub mod Run
pub mod Sending
pub mod Welcome
pub mod Calls
pub mod Dispatch
pub mod Joining
pub mod Pulse
pub mod Parts
pub mod Keeping
pub mod Invariant
pub mod Operations
pub mod Settled
pub mod Identity
pub mod Origin
pub mod Safe
pub mod Handling
pub mod Survival
pub mod Uses
pub mod Contract
pub mod Refines
pub mod Bounds
pub mod Destroy
pub mod Destroying
pub mod Sent
pub mod Racing
pub mod Timed
pub mod Silence
pub mod Elapsing
pub mod Waiting
pub mod Timely
pub mod SilenceTests
pub mod Quiet
mod Sample
mod Tests
mod HandlerTests
mod PulseTests
mod RacingTests
mod OriginTests
use barbarossa.Common.{
  ℕ, String, str_eq, Bool, true, false, not, ◌&&◌, Option, none, some, List, [], ◌∷◌, ◌++◌, ◌==◌,
  if◌then◌else◌,
}
use barbarossa.Errors.{no_transport_error, no_session_error, logic_error}
use barbarossa.Errors.ErrorMessages
use barbarossa.Errors.Outcome.{Outcome, ok, throws, undefined}
use barbarossa.Errors.Exec.{Action, ◌>>◌}
use barbarossa.Promise
use barbarossa.Promise.{Promise, Shared, not_ready, value, failure}
use barbarossa.Json.{JsonLib}
use barbarossa.Message.{Message}
use barbarossa.Transport.{Transport, Caller}
use State.{SessionState, closed}

-- The heartbeat thread: not started, in its 20 second wait, waiting for a pong, past that wait without a
-- pong, or past its loop. In all but the first state the `std::thread` is joinable.
pub data HeartbeatThread : Type 0 where
  not_started sleeping awaiting expired finished : HeartbeatThread

-- What a future that is waited for gives: `none` while it is not ready.
abbrev pub outcome_of : Shared Bool → Option (Outcome (Unit {0}))
outcome_of not_ready = none
outcome_of (value b) = some (ok tt)
outcome_of (failure e) = some (throws e)

module _ ⦃J : JsonLib⦄ where
  open J use {Json}

  abbrev pub Operation : Type 0
  Operation = Json → Outcome Json

  -- What the session hands to `asio::dispatch`.
  pub data Task : Type 0 where
    send_hello send_ping : Message → Task

  -- `posted` holds the handlers that the I/O context has not run yet; `transport` is the object that
  -- `transport_` points to where `attached` holds.
  pub record Session (T : Type 0) : Type 0 where
    pub state : SessionState
    pub session_id : ℕ
    pub attached : Bool
    pub transport : T
    pub joined : Promise ℕ
    pub leaved : Promise Bool
    pub heartbeat : HeartbeatThread
    pub pong_received : Promise Bool
    pub operations : List (String × Operation)
    pub posted : List Task

  -- `operations_[operation] = fn`
  pub insert : String → Operation → List (String × Operation) → List (String × Operation)
  insert k f [] = (k, f) ∷ []
  insert k f ((l, g) ∷ m) = if str_eq l k then (k, f) ∷ m else (l, g) ∷ insert k f m

  -- `operations_.find(operation)`
  unfoldable pub lookup : String → List (String × Operation) → Option Operation
  lookup k [] = none
  lookup k ((l, g) ∷ m) = if str_eq l k then some g else lookup k m

module _ ⦃J : JsonLib⦄ {T : Type 0} where
  -- The constructor, over a transport object that is not attached.
  abbrev pub initial : T → Session T
  initial t = record {
    state = closed;
    session_id = 0;
    attached = false;
    transport = t;
    joined = Promise.fresh;
    leaved = Promise.fresh;
    heartbeat = not_started;
    pong_received = Promise.fresh;
    operations = [];
    posted = [];
  }

  -- A call of a method of one of the promises.
  abbrev pub on_joined : Action (Promise ℕ) → Action (Session T)
  on_joined f s = let (r, p) = f s.joined in (r, record s { joined = p })

  abbrev pub on_leaved : Action (Promise Bool) → Action (Session T)
  on_leaved f s = let (r, p) = f s.leaved in (r, record s { leaved = p })

  abbrev pub on_pong : Action (Promise Bool) → Action (Session T)
  on_pong f s = let (r, p) = f s.pong_received in (r, record s { pong_received = p })

  -- `asio::dispatch` from a thread that does not run the I/O context.
  abbrev pub post : Task → Action (Session T)
  post t s = (ok tt, record s { posted = s.posted ++ t ∷ [] })

  -- `CurrentState`
  abbrev pub current_state : Session T → SessionState
  current_state s = s.state

  unfoldable pub ensure_state : SessionState → Action (Session T)
  ensure_state new s = (ok tt, record s { state = new })

  unfoldable pub on_attach : T → Action (Session T)
  on_attach t s =
      if s.attached
      then (throws (logic_error ErrorMessages.session_transport_already_attached), s)
      else (ok tt, record s { attached = true; transport = t })

  unfoldable pub on_detach : String → Action (Session T)
  on_detach reason s =
      if s.attached
      then (ok tt, record s { attached = false })
      else (throws (logic_error ErrorMessages.session_transport_already_detached), s)

  unfoldable pub register_operation : String → Operation → Action (Session T)
  register_operation name f s = (ok tt, record s { operations = insert name f s.operations })

  -- `Listen` retrieves the future, and then waits until it is ready: `none` where it still waits.
  unfoldable pub listen_begin : Action (Session T)
  listen_begin = on_leaved Promise.get_future

  unfoldable pub listen_end : Session T → Option (Outcome (Unit {0}))
  listen_end s = outcome_of s.leaved.shared

module _ ⦃J : JsonLib⦄ {T : Type 0} ⦃tr : Transport T⦄ where
  unfoldable pub transmit : Message → Action (Session T)
  transmit m s = let (r, t) = tr.send_message m s.transport in (r, record s { transport = t })

  unfoldable pub send_message : Message → Bool → Action (Session T)
  unfolding transmit
  send_message m established s =
      if not s.attached
      then (throws no_transport_error, s)
      else if not (tr.is_connected s.transport)
      then (throws no_transport_error, s)
      else if established && (s.session_id == 0)
      then (throws no_session_error, s)
      else transmit m s

  unfoldable pub disconnect : Caller → Action (Session T)
  disconnect c s =
      if s.attached
      then (let (r, t) = tr.disconnect c s.transport in (r, record s { transport = t }))
      else (undefined, s)

  -- A call through a null `transport_` is undefined behaviour.
  unfoldable pub leave : Caller → Action (Session T)
  unfolding disconnect
  leave c = on_leaved (Promise.set_value true) >> disconnect c
