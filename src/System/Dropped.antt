-- ===== src/System/Dropped.antt =====
-- What becomes of the program when the peer closes the connection.
use barbarossa.Common.{◌≡◌, none, some, [], arith, true, false}
use barbarossa.Errors.{network_error}
use barbarossa.Errors.ErrorMessages
use barbarossa.Errors.Hierarchy.{is_network_error, copy_as_network_error}
use barbarossa.Errors.Outcome.{ok, throws, terminates}
use barbarossa.Promise.{not_ready, fresh}
use barbarossa.Json.{JsonLib}
use barbarossa.Session.{Session, sleeping, listen_end, send_message}
use barbarossa.Session.Messages.{ping_message_lem}
use barbarossa.Session.Join.{run_posted, next_task, run_task}
use barbarossa.Session.Heartbeat.{heartbeat_begin, heartbeat_check}
use barbarossa.WebSocket.{WebSocket, is_connected}
use barbarossa.WebSocket.Callbacks.{on_client_close}
use barbarossa.System.{system_step, closed, heartbeat_moves, context_runs}

module _ ⦃J : JsonLib⦄ where
  -- Where the peer closes the connection of a session whose heartbeat waits for its next ping, `Listen` does
  -- not learn of it. The ping then cannot be sent: the future of `Listen` fails with a network error, but the
  -- heartbeat thread sets the same promise once more, and the exception ends the process. At the start
  -- no handler is posted, the promise of the pong is fresh and the future of `Listen` is not ready.
  pub closed_terminates :
      (s : Session WebSocket)
      → s.heartbeat ≡ sleeping
      → s.posted ≡ []
      → s.pong_received ≡ fresh
      → s.leaved.shared ≡ not_ready
      → let closes = system_step closed s in
        let pings = system_step (heartbeat_moves false) closes.1 in
        let sends = system_step (context_runs true) pings.1 in
        let checks = system_step (heartbeat_moves false) sends.1 in
        (closes.0 ≡ ok tt)
        × (listen_end closes.1 ≡ none)
        × (pings.0 ≡ ok tt)
        × (sends.0 ≡ ok tt)
        × (listen_end sends.1 ≡ some (throws (network_error ErrorMessages.session_not_attached)))
        × (checks.0 ≡ terminates)
  unfolding is_connected system_step run_posted next_task run_task send_message heartbeat_begin
      heartbeat_check listen_end on_client_close is_network_error copy_as_network_error
  closed_terminates s h p f l =
      rw (h, p, f, l, ping_message_lem)
        (ground arith, ground arith, ground arith, ground arith, ground arith, ground arith)
