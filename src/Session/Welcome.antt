-- ===== src/Session/Welcome.antt =====
-- session.ipp, `ProcessWelcomeMessage` and `ProcessAbortMessage`.
use barbarossa.Common.{ℕ, ◌≡◌, refl, String, true, arith}
use barbarossa.Errors.{
  Exception, abort_error, protocol_error, future_error, promise_already_satisfied,
}
use barbarossa.Errors.Outcome.{ok, throws}
use barbarossa.Promise.{not_ready, value, failure, is_ready}
use barbarossa.Json.{JsonLib}
use barbarossa.Message.{Message, field_as}
use barbarossa.Session.State.{establishing, established}
use barbarossa.Session.{Session, not_started, sleeping}
use barbarossa.Session.Handlers.{process_welcome, process_abort}

module _ ⦃J : JsonLib⦄ {T : Type 0} where
  open J use {Json, of_int, get_uint, get_string}

  -- The session that a WELCOME with the given id makes of `s`.
  abbrev pub welcomed : ℕ → Session T → Session T
  welcomed id s = record s {
    state = established;
    heartbeat = sleeping;
    session_id = id;
    joined = record s.joined { shared = value id };
  }

  -- A WELCOME with a readable id, in a session that waits for it, establishes the session under the id,
  -- starts the heartbeat and completes the join with the id, and changes nothing else.
  pub process_welcome_accepts :
      (m : Message) (id : ℕ) (s : Session T)
      → field_as get_uint 1 m ≡ ok id
      → s.state ≡ establishing
      → s.heartbeat ≡ not_started
      → s.joined.shared ≡ not_ready
      → process_welcome m s ≡ (ok tt, welcomed id s)
  unfolding process_welcome
  process_welcome_accepts m id s h e t j = ground arith

  pub process_welcome_malformed :
      (m : Message) (x : Exception) (s : Session T)
      → field_as get_uint 1 m ≡ throws x
      → s.state ≡ establishing
      → s.heartbeat ≡ not_started
      → let s' = record s { state = established; heartbeat = sleeping } in
        (process_welcome m s ≡ (throws x, s'))
        × ((m' : Message)
            → process_welcome m' s' ≡ (
              throws (
                  protocol_error "client received WELCOME message but session already established"),
              s',
            ))
  unfolding process_welcome
  process_welcome_malformed m x s h e t = (ground arith, λ m'. refl)

  -- An ABORT with a readable reason fails a join that waits with the reason; where the join is complete
  -- already it throws that the promise is satisfied. Nothing else changes in either case.
  pub process_abort_lem :
      (m : Message) (reason : String) (s : Session T)
      → field_as get_string 1 m ≡ ok reason
      → (s.joined.shared ≡ not_ready
          → process_abort m s ≡ (
            ok tt,
            record s { joined = record s.joined { shared = failure (abort_error reason) } },
          ))
        × (is_ready s.joined.shared ≡ true
            → process_abort m s ≡ (throws (future_error promise_already_satisfied), s))
  unfolding process_abort
  process_abort_lem m reason s h = (λ e. ground arith, λ e. ground arith)
