-- ===== src/Session/Pulse.antt =====
-- session.ipp, `HearbeatController` and `ProcessPongMessage`: how a round of the heartbeat ends.
use barbarossa.Common.{◌≡◌, refl, ◌⊎◌, some, [], ◌∷◌, ◌++◌, arith, true, false}
use barbarossa.Errors.{timeout_error, network_error, future_error, promise_already_satisfied}
use barbarossa.Errors.ErrorMessages
use barbarossa.Errors.Hierarchy.{is_network_error, copy_as_network_error}
use barbarossa.Errors.Outcome.{ok, throws, terminates}
use barbarossa.Promise.{not_ready, is_ready, fresh}
use barbarossa.Json.{JsonLib}
use barbarossa.Message.{Message}
use barbarossa.Transport.{Transport}
use barbarossa.Session.Messages.{ping_fields, ping_message_lem}
use barbarossa.Session.{Session, sleeping, awaiting, finished, send_ping, send_message, listen_end}
use barbarossa.Session.Sending.{CanSend}
use barbarossa.Session.Handlers.{process_pong}
use barbarossa.Session.Join.{run_task, run_posted}
use barbarossa.Session.Destroy.{destroy}
use barbarossa.Session.Heartbeat.{heartbeat_begin, heartbeat_check, heartbeat_expire, heartbeat_end}

module _ ⦃J : JsonLib⦄ {T : Type 0} where
  -- The session while the heartbeat waits for a pong.
  abbrev pub pinged : Session T → Session T
  pinged s = record s {
    heartbeat = awaiting;
    posted = s.posted ++ send_ping ping_fields ∷ [];
    pong_received = record s.pong_received { retrieved = true };
  }

  pub heartbeat_begin-pinged :
      (s : Session T)
      → s.pong_received.retrieved ≡ false
      → heartbeat_begin false s ≡ (ok tt, pinged s)
  unfolding heartbeat_begin
  heartbeat_begin-pinged s h = rw ping_message_lem (ground arith)

  -- A round in which a pong comes, before the ping or after it, ends with the thread asleep again and the
  -- promise renewed: the same ping is posted in both orders. A second pong in the round throws.
  pub pong_in_round :
      (m : Message) (s : Session T)
      → s.pong_received ≡ fresh
      → let after_ping = (process_pong m (heartbeat_begin false s).1).1 in
        let before_ping = (heartbeat_begin false (process_pong m s).1).1 in
        let slept = record s {
          heartbeat = sleeping;
          posted = s.posted ++ send_ping ping_fields ∷ [];
        } in
        (heartbeat_end after_ping ≡ (ok tt, slept))
        × (heartbeat_end before_ping ≡ (ok tt, slept))
        × ((process_pong m after_ping).0 ≡ throws (future_error promise_already_satisfied))
  unfolding process_pong heartbeat_begin heartbeat_end
  pong_in_round m s h =
      rw ping_message_lem (ground (arith, h), ground (arith, h), ground (arith, h))

  -- A round without a pong ends the heartbeat; the future of `Listen`, if it was not ready, fails with a
  -- timeout, and the session can be destroyed.
  pub silent_round :
      (s : Session T)
      → s.pong_received ≡ fresh
      → s.leaved.shared ≡ not_ready
      → let ended = heartbeat_end (heartbeat_begin false s).1 in
        (ended.0 ≡ ok tt)
        × (ended.1.heartbeat ≡ finished)
        × (listen_end ended.1 ≡ some (throws timeout_error))
        × (destroy false ended.1 ≡ (ok tt, ended.1))
  unfolding heartbeat_begin heartbeat_end listen_end destroy
  silent_round s h e = rw ping_message_lem (ground (arith, h, e))

  -- A pong that comes after the thread's wait has ended without one, and before the thread sets the promise,
  -- is taken by the session and then ends the process: the thread sets a promise that is ready.
  pub late_pong_terminates :
      (m : Message) (s : Session T)
      → s.pong_received.shared ≡ not_ready
      → let checked = heartbeat_check s in
        let late = process_pong m checked.1 in
        (checked.0 ≡ ok tt) × (late.0 ≡ ok tt) × ((heartbeat_expire late.1).0 ≡ terminates)
  unfolding process_pong heartbeat_check heartbeat_expire
  late_pong_terminates m s h = (ground arith, ground arith, ground arith)

  -- Once the session was left, a round without a pong ends the process: the thread sets the promise that
  -- `Leave` has set.
  pub silent_round_after_leave :
      (s : Session T)
      → s.pong_received ≡ fresh
      → is_ready s.leaved.shared ≡ true
      → (heartbeat_end (heartbeat_begin false s).1).0 ≡ terminates
  unfolding heartbeat_begin heartbeat_end
  silent_round_after_leave s h e = rw ping_message_lem (ground (arith, h, e))

module _ ⦃J : JsonLib⦄ {T : Type 0} ⦃tr : Transport T⦄ where
  -- The ping goes out over a transport that takes it.
  pub run_posted-pinged :
      (s : Session T) (t : T)
      → s.posted ≡ []
      → CanSend s true
      → tr.send_message ping_fields s.transport ≡ (ok tt, t)
      → run_posted true (pinged s) ≡ (ok tt, record (pinged s) { transport = t; posted = [] })
  unfolding run_posted run_task send_message
  run_posted-pinged s t idle can sent =
      ground (arith, idle, can.joined refl, can.attached, can.connected, sent)

  -- Where a ping cannot be sent for want of a connected transport, its handler fails the future of
  -- `Listen` with a network error and tells the heartbeat, which then sets the same promise once more:
  -- the exception leaves the thread and ends the process.
  pub unsent_ping_terminates :
      (s : Session T)
      → (s.attached ≡ false) ⊎ (tr.is_connected s.transport ≡ false)
      → s.pong_received.shared ≡ not_ready
      → s.leaved.shared ≡ not_ready
      → let tried = run_task (send_ping ping_fields) s in
        (tried.0 ≡ ok tt)
        × (listen_end tried.1 ≡ some (throws (network_error ErrorMessages.session_not_attached)))
        × ((heartbeat_end tried.1).0 ≡ terminates)
  unfolding run_task send_message heartbeat_end is_network_error copy_as_network_error listen_end
  unsent_ping_terminates s h p e = (ground arith, ground arith, ground arith)
