-- ===== src/Session/Destroying.antt =====
-- session.ipp: which sessions can be destroyed.
use barbarossa.Common.{Bool, true, false, ◌≡◌, refl, arith, some}
use barbarossa.Errors.{timeout_error}
use barbarossa.Errors.Outcome.{ok, throws, terminates}
use barbarossa.Promise.{Shared, not_ready, value}
use barbarossa.Json.{JsonLib}
use barbarossa.Session.Messages.{ping_message, ping_fields, ping_message_lem}
use barbarossa.Session.{
  Session, HeartbeatThread, not_started, sleeping, awaiting, finished, listen_end,
}
use barbarossa.Session.Heartbeat.{heartbeat_end}
use barbarossa.Session.Destroy.{destroy}

module _ ⦃J : JsonLib⦄ {T : Type 0} where
  -- A session whose heartbeat sleeps.
  pub destroy-sleeping :
      (s : Session T)
      → s.heartbeat ≡ sleeping
      → ((destroy false s).0 ≡ terminates)
        × (destroy true s ≡ (ok tt, record s { heartbeat = finished }))
  unfolding destroy
  destroy-sleeping s h =
      let p : ping_message ≡ ok ping_fields = ping_message_lem in (ground (arith, p), ground arith)

  -- The session where its heartbeat is in the given place, and its promises for the pong and for `Listen`
  -- hold what is given.
  abbrev pub placed : HeartbeatThread → Shared Bool → Shared Bool → Session T → Session T
  placed h p l s = record s {
    heartbeat = h;
    pong_received = record s.pong_received { shared = p };
    leaved = record s.leaved { shared = l };
  }

  -- A session whose heartbeat was not started or is over is destroyed as it is. One whose heartbeat sleeps
  -- ends the process, unless the thread is woken before its wait ends: the thread asks for a pointer to a
  -- session that nobody owns. One whose heartbeat waits for a pong ends the process where the session was
  -- left before, and where the pong has come and the next wait is not woken; with no pong and no `Leave`
  -- the wait ends with a timeout for `Listen`, and the session is destroyed.
  pub destroy_lem :
      (s : Session T) (b : Bool) (p l : Shared Bool)
      → let idle = placed not_started p l s in
        let over = placed finished p l s in
        let asleep = placed sleeping p l s in
        let unanswered = placed awaiting not_ready not_ready s in
        (destroy b idle ≡ (ok tt, idle))
        × (destroy b over ≡ (ok tt, over))
        × ((destroy false asleep).0 ≡ terminates)
        × (destroy true asleep ≡ (ok tt, over))
        × ((destroy b (placed awaiting not_ready (value true) s)).0 ≡ terminates)
        × ((destroy false (placed awaiting (value true) l s)).0 ≡ terminates)
        × ((destroy b unanswered).0 ≡ ok tt)
        × (listen_end (destroy b unanswered).1 ≡ some (throws timeout_error))
  unfolding destroy heartbeat_end listen_end
  destroy_lem s b p l =
      let q : ping_message ≡ ok ping_fields = ping_message_lem in
      let (ends, woken) = destroy-sleeping (placed sleeping p l s) refl in
      (
        ground arith,
        ground arith,
        ends,
        woken,
        ground arith,
        ground (arith, q),
        ground arith,
        ground arith,
      )
