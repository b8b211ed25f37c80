-- ===== src/WebSocket/Connection.antt =====
-- websocket_transport.ipp, `Connect` and the callbacks that end its wait.
use barbarossa.Common.{◌≡◌, true, false, none, some, [], ◌∷◌, ◌++◌, arith}
use barbarossa.Errors.{
  logic_error, network_error, system_error, websocket_error, future_error, future_already_retrieved,
}
use barbarossa.Errors.ErrorMessages
use barbarossa.Errors.Outcome.{ok, throws}
use barbarossa.Promise.{fresh}
use barbarossa.WebSocket.{WebSocket, connect, connect_begin, connect_end, is_connected}
use barbarossa.WebSocket.Callbacks.{on_client_open, on_client_fail}

-- The first `Connect`, where the client accepts the address, asks for one connection and waits. The open
-- callback makes it return, with the transport connected; the fail callback makes it throw a network
-- error, and a later `Connect` throws that the future was retrieved: a transport connects at most once.
pub connect_answered :
    (w : WebSocket)
    → w.open_ ≡ false
    → w.done ≡ false
    → w.client.connection_error ≡ false
    → w.connected ≡ fresh
    → let waiting = (connect_begin w).1 in
      let opened = (on_client_open waiting).1 in
      let failed = (on_client_fail waiting).1 in
      (waiting.commands ≡ w.commands ++ connect ∷ [])
      × (connect_end waiting ≡ none)
      × (connect_end opened ≡ some (ok tt))
      × (is_connected opened ≡ true)
      × (connect_end failed
          ≡ some (throws (network_error ErrorMessages.transport_connection_failed)))
      × (is_connected failed ≡ false)
      × ((connect_begin failed).0 ≡ throws (future_error future_already_retrieved))
unfolding connect_begin connect_end on_client_open on_client_fail is_connected
connect_answered w o d c p = (
  ground arith,
  ground arith,
  ground arith,
  ground arith,
  ground arith,
  ground arith,
  ground arith,
)

-- A `Connect` of an open transport, or to an address that the client refuses, throws before anything is
-- asked of the client, and changes nothing.
pub connect_refused :
    (w : WebSocket)
    → (w.open_ ≡ true
        → connect_begin w ≡ (throws (logic_error ErrorMessages.transport_already_connected), w))
      × (w.open_ ≡ false
          → w.client.connection_error ≡ true
          → connect_begin w ≡ (throws (system_error websocket_error), w))
unfolding connect_begin
connect_refused w = (λ o. ground arith, λ o c. ground arith)
