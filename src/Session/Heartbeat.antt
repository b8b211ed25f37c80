-- ===== src/Session/Heartbeat.antt =====
-- session.ipp, `HearbeatController`: one round of its loop in three steps, around the wait for
-- the pong.
use barbarossa.Common.{Bool, true, false}
use barbarossa.Errors.{Exception, timeout_error}
use barbarossa.Errors.Hierarchy.{is_network_error, copy_as_network_error}
use barbarossa.Errors.Outcome.{uncaught, Outcome, ok, undefined}
use barbarossa.Errors.Exec.{Action, throw, lift, ◌>>=◌, ◌>>◌}
use barbarossa.Promise
use barbarossa.Promise.{Promise, Shared, not_ready, value, failure}
use barbarossa.Json.{JsonLib}
use barbarossa.Session.Messages.{ping_message}
use barbarossa.Session.{
  Session, HeartbeatThread, sleeping, awaiting, expired, finished, send_ping, on_leaved, on_pong,
  post,
}

module _ ⦃J : JsonLib⦄ {T : Type 0} where
  abbrev pub turn : HeartbeatThread → Action (Session T)
  turn h s = (ok tt, record s { heartbeat = h })

  abbrev pub in_thread : Action (Session T) → Action (Session T)
  in_thread f s = let (r, s') = f s in (uncaught r, s')

  -- From the 20 second wait to the wait for the pong. The loop ends where the wait returns
  -- `no_timeout`: the condition variable was notified, or it woke spuriously.
  ping_round : Bool → Action (Session T)
  ping_round true = turn finished
  ping_round false = do
    m ← lift ping_message
    post (send_ping m)
    on_pong Promise.get_future
    turn awaiting

  unfoldable pub heartbeat_begin : Bool → Action (Session T)
  unfolding ping_round
  heartbeat_begin no_timeout = in_thread (ping_round no_timeout)

  -- `pong_received_ = std::promise<bool>()`
  reset_pong : Action (Session T)
  reset_pong s = (ok tt, record s { pong_received = Promise.fresh })

  abbrev next_round : Action (Session T)
  next_round = reset_pong >> turn sleeping

  -- `get()` on the future of the pong, with its `catch (const NetworkError& e)`.
  after_failure : Bool → Exception → Action (Session T)
  after_failure true e = do on_leaved (Promise.set_exception (copy_as_network_error e)); next_round
  after_failure false e = throw e

  -- The promise is ready here.
  after_wait : Shared Bool → Action (Session T)
  after_wait not_ready = lift undefined
  after_wait (value true) = next_round
  after_wait (value false) = do on_leaved (Promise.set_exception timeout_error); turn finished
  after_wait (failure e) = after_failure (is_network_error e) e

  pong_arrived : Session T → Outcome (Shared Bool) × Session T
  pong_arrived s = (ok s.pong_received.shared, s)

  -- The wait of 4 seconds, and where a pong came the rest of the round.
  after_pong : Shared Bool → Action (Session T)
  after_pong not_ready = turn expired
  after_pong found = after_wait found

  unfoldable pub heartbeat_check : Action (Session T)
  unfolding reset_pong after_failure after_wait pong_arrived after_pong
  heartbeat_check = in_thread (do found ← pong_arrived; after_pong found)

  -- Where no pong came the thread sets the promise itself, to `false`: the rest of the round.
  unfoldable pub heartbeat_expire : Action (Session T)
  unfolding reset_pong after_failure after_wait pong_arrived
  heartbeat_expire =
      in_thread (do on_pong (Promise.set_value false); now ← pong_arrived; after_wait now)

  abbrev finish : HeartbeatThread → Action (Session T)
  finish expired s = heartbeat_expire s
  finish _ s = (ok tt, s)

  settle_round : Action (Session T)
  settle_round s = finish s.heartbeat s

  -- Both steps, with nothing in between.
  unfoldable pub heartbeat_end : Action (Session T)
  unfolding heartbeat_check heartbeat_expire settle_round
  heartbeat_end = heartbeat_check >> settle_round
