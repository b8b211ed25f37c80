-- ===== src/Main/Wiring.antt =====
-- src/main.cpp: the session and the transport wired together.
use barbarossa.Common.{◌≡◌, refl, true, false, arith}
use barbarossa.Errors.{logic_error}
use barbarossa.Errors.ErrorMessages
use barbarossa.Errors.Outcome.{ok, throws, terminates}
use barbarossa.Promise.{not_ready}
use barbarossa.Json.{JsonLib}
use barbarossa.Session.{Session, leave, on_attach, on_detach}
use barbarossa.WebSocket.{WebSocket, is_connected}
use barbarossa.WebSocket.Callbacks.{on_client_close}
use barbarossa.WebSocket.Receive.{attach, detach}
use barbarossa.WebSocket.Lifecycle.{disconnect_on_client_thread}
use barbarossa.Main.{web_transport, session_web, session_handler, on_signal}

module _ ⦃J : JsonLib⦄ where
  open J use {Json, array, dump, parse}

  -- `Attach` of a free transport to a free session links the two and changes nothing else, a second
  -- `Attach` throws and changes nothing, and `Detach` undoes the first and can then not be repeated.
  pub attach-detach :
      (s : Session WebSocket)
      → s.attached ≡ false
      → s.transport.has_handler ≡ false
      → let linked = record s {
        attached = true;
        transport = record s.transport { has_handler = true };
      } in
        (attach s ≡ (ok tt, linked))
        × (attach linked
            ≡ (throws (logic_error ErrorMessages.transport_handler_already_attached), linked))
        × (detach linked ≡ (ok tt, s))
        × (detach s ≡ (throws (logic_error ErrorMessages.transport_handler_already_detached), s))
  unfolding attach detach on_attach on_detach
  attach-detach s a b = (ground arith, refl, ground arith, ground arith)

  -- A signal that comes while the session's transport is connected and its client thread runs ends the
  -- process, if the session was not left before: the handler runs on the client's thread, which
  -- `Disconnect` then joins.
  pub on_signal_terminates :
      (s : Session WebSocket)
      → s.attached ≡ true
      → s.leaved.shared ≡ not_ready
      → is_connected s.transport ≡ true
      → s.transport.joinable ≡ true
      → (on_signal s).0 ≡ terminates
  unfolding on_signal leave
  on_signal_terminates s a l c j =
      ground (arith, disconnect_on_client_thread on_client_close s.transport c j)
