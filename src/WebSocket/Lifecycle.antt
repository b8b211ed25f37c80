-- ===== src/WebSocket/Lifecycle.antt =====
-- websocket_transport.ipp, `Disconnect`, `StopClient` and the destructor, and what the callbacks keep.
use barbarossa.Common.{◌≡◌, true, false, List, [], ◌∷◌, ◌++◌, arith}
use barbarossa.Errors.{logic_error}
use barbarossa.Errors.ErrorMessages
use barbarossa.Errors.Outcome.{ok, throws, terminates}
use barbarossa.Errors.Exec.{Action}
use barbarossa.Promise.{is_ready}
use barbarossa.Transport.{Caller, client_thread, other_thread}
use barbarossa.WebSocket.{
  WebSocket, Client, stop_perpetual, close, create, is_connected, stop_client, disconnect,
  connect_begin, destroy,
}
use barbarossa.WebSocket.Callbacks.{on_client_open, on_client_close, on_client_fail}

-- A `Disconnect` from another thread than the client's, of a connected transport whose client closes
-- without an error and calls the close callback: the client is stopped and asked to close, the thread is joined, the transport is not
-- connected, a second `Disconnect` throws, and the destructor returns.
pub disconnect_connected :
    (w : WebSocket)
    → is_connected w ≡ true
    → w.joinable ≡ true
    → w.client.close_error ≡ false
    → let (r, w') = disconnect on_client_close other_thread w in
      (r ≡ ok tt)
      × (w'.commands ≡ (w.commands ++ stop_perpetual ∷ []) ++ close "disconnect" ∷ [])
      × (is_connected w' ≡ false)
      × (w'.joinable ≡ false)
      × (disconnect on_client_close other_thread w'
          ≡ (throws (logic_error ErrorMessages.transport_already_disconnected), w'))
      × ((destroy other_thread w').0 ≡ ok tt)
unfolding disconnect stop_client is_connected on_client_close destroy
disconnect_connected w c j e =
    (ground arith, ground arith, ground arith, ground arith, ground arith, ground arith)

-- A `Disconnect` on the client's own thread ends the process: the thread would join itself, and the
-- exception leaves a `noexcept` function.
pub disconnect_on_client_thread :
    (closing : Action WebSocket) (w : WebSocket)
    → is_connected w ≡ true
    → w.joinable ≡ true
    → (disconnect closing client_thread w).0 ≡ terminates
unfolding disconnect stop_client is_connected
disconnect_on_client_thread closing w c j = ground arith

-- Once the peer has closed the connection, `Disconnect` returns and does nothing, and the destructor does
-- not join the thread, so that destroying the joinable thread ends the process.
pub destroy_after_close :
    (closing : Action WebSocket) (c : Caller) (w : WebSocket)
    → w.open_ ≡ true
    → w.joinable ≡ true
    → let closed = (on_client_close w).1 in
      (disconnect closing c closed ≡ (ok tt, closed)) × ((destroy c closed).0 ≡ terminates)
unfolding disconnect stop_client on_client_close destroy
destroy_after_close closing c w o j = (ground arith, ground arith)

-- What happens to a transport: calls from another thread than the client's, and callbacks.
pub data WebEvent : Type 0 where
  opens closes fails connects disconnects : WebEvent

unfoldable pub web_step : WebEvent → Action WebSocket
web_step opens = on_client_open
web_step closes = on_client_close
web_step fails = on_client_fail
web_step connects = connect_begin
web_step disconnects = disconnect on_client_close other_thread

unfoldable pub web_run : WebSocket → List WebEvent → WebSocket
web_run w [] = w
web_run w (e ∷ es) = web_run (web_step e w).1 es

-- The promise of `Connect` is ready where the transport was opened, and a client that is done stays done.
pub record WebInv (w : WebSocket) : Type 0 where
  pub opened : w.open_ ≡ true → is_ready w.connected.shared ≡ true

step-WebInv : (e : WebEvent) (w : WebSocket) → WebInv w → WebInv (web_step e w).1
unfolding web_step on_client_open on_client_close on_client_fail connect_begin disconnect
    stop_client
step-WebInv opens w v = ground arith
step-WebInv closes w v = ground arith
step-WebInv fails w v = ground arith
step-WebInv connects w v = ground arith
step-WebInv disconnects w v = ground arith

step-done : (e : WebEvent) (w : WebSocket) → w.done ≡ true → (web_step e w).1.done ≡ true
unfolding web_step on_client_open on_client_close on_client_fail connect_begin disconnect
    stop_client
step-done opens w d = ground arith
step-done closes w d = ground arith
step-done fails w d = ground arith
step-done connects w d = ground arith
step-done disconnects w d = ground arith

run-done : (es : List WebEvent) (w : WebSocket) → w.done ≡ true → (web_run w es).done ≡ true
unfolding web_run
run-done [] w d = d
run-done (e ∷ es) w d = run-done es (web_step e w).1 (step-done e w d)

run-WebInv : (es : List WebEvent) (w : WebSocket) → WebInv w → WebInv (web_run w es)
unfolding web_run
run-WebInv [] w v = v
run-WebInv (e ∷ es) w v = run-WebInv es (web_step e w).1 (step-WebInv e w v)

create-WebInv : (c : Client) → WebInv (create c)
unfolding create
create-WebInv c = ground arith

-- After any callbacks and calls on a new transport, it is connected only if the wait of `Connect` is over;
-- and once it was closed or has failed, it is never connected again, whatever follows.
pub web_run_connected :
    (c : Client) (es fs : List WebEvent)
    → let w = web_run (create c) es in
      (is_connected w ≡ true → is_ready w.connected.shared ≡ true)
      × (w.done ≡ true → is_connected (web_run w fs) ≡ false)
unfolding is_connected
web_run_connected c es fs = (
  λ h. ground (arith, run-WebInv es (create c) (create-WebInv c)),
  λ d. ground (arith, run-done fs (web_run (create c) es) d),
)
