-- ===== src/WebSocket.antt =====
-- include/barbarossa/websocket_transport.hpp and websocket_transport.ipp: the transport over a
-- websocketpp client, which is not part of the repository and enters as what its calls give.
pub mod Callbacks
pub mod Receive
pub mod Connection
pub mod Lifecycle
pub mod Delivery
mod Tests
use barbarossa.Common.{
  ℕ, String, Bool, true, false, not, ◌&&◌, Option, none, some, List, [], ◌∷◌, ◌++◌, if◌then◌else◌,
}
use barbarossa.Errors.{
  Exception, logic_error, network_error, system_error, websocket_error, invalid_argument,
  resource_deadlock_would_occur,
}
use barbarossa.Errors.ErrorMessages
use barbarossa.Errors.Outcome.{uncaught, Outcome, ok, throws, undefined, terminates, or_throw}
use barbarossa.Errors.Exec.{Action, pure, throw, lift, ◌>>=◌, ◌>>◌}
use barbarossa.Promise
use barbarossa.Promise.{Promise, Shared, not_ready, value, failure}
use barbarossa.Json.{JsonLib, bad_type}
use barbarossa.Message.{Message, size, field_at}
use barbarossa.Transport.{Caller, client_thread, other_thread, TransportHandler}

-- What the client library decides: whether `get_connection(uri, ec)` gives an error code and `close`
-- throws, and the message of the error code that `send` gives.
pub record Client : Type 0 where
  pub connection_error : Bool
  pub close_error : Bool
  pub send_error : String → Option String

-- What was asked of the client library, in order.
pub data Command : Type 0 where
  start_perpetual stop_perpetual run : Command
  connect : Command
  send : String → Command
  close : String → Command

-- `joinable` is whether `thread_` is joinable.
pub record WebSocket : Type 0 where
  pub client : Client
  pub open_ : Bool
  pub done : Bool
  pub joinable : Bool
  pub has_handler : Bool
  pub connected : Promise (Unit {0})
  pub commands : List Command

abbrev pub command : Command → Action WebSocket
command c w = (ok tt, record w { commands = w.commands ++ c ∷ [] })

abbrev pub on_connected : Action (Promise (Unit {0})) → Action WebSocket
on_connected f w = let (r, p) = f w.connected in (r, record w { connected = p })

-- `StartClient`, without the setting of log channels and callbacks.
start_client : Action WebSocket
start_client w =
    (ok tt, record w { joinable = true; commands = w.commands ++ start_perpetual ∷ run ∷ [] })

abbrev blank : Client → WebSocket
blank c = record {
  client = c;
  open_ = false;
  done = false;
  joinable = false;
  has_handler = false;
  connected = Promise.fresh;
  commands = [];
}

-- The constructor.
unfoldable pub create : Client → WebSocket
unfolding start_client
create c = (start_client (blank c)).1

unfoldable pub is_connected : WebSocket → Bool
is_connected w = w.open_ && not w.done

unfoldable pub has_handler : WebSocket → Bool
has_handler w = w.has_handler

-- `thread_->join()`: a thread that joins itself, and a thread that is not joinable, are errors of the
-- standard library.
abbrev joins : Caller → Bool → Action WebSocket
joins client_thread true = throw (system_error resource_deadlock_would_occur)
joins other_thread true = λ w. (ok tt, record w { joinable = false })
joins c false = throw (system_error invalid_argument)

join_thread : Caller → Action WebSocket
join_thread c w = joins c w.joinable w

abbrev set_open : Bool → Action WebSocket
set_open b w = (ok tt, record w { open_ = b })

-- `client_.close(hdl_, code, reason)`, which reports an error by an exception.
closes : Bool → Action WebSocket
closes true = throw (system_error websocket_error)
closes false = pure tt

close_connection : String → Action WebSocket
unfolding closes
close_connection reason = command (close reason) >> λ w. closes w.client.close_error w

-- The part of `StopClient` below its check. The callbacks that run while the thread is joined are steps
-- of their own, and `closing` stands for them.
stop_running : Action WebSocket → String → Caller → Action WebSocket
unfolding join_thread close_connection
stop_running closing reason c = do
  command stop_perpetual
  close_connection reason
  join_thread c
  closing
  set_open false

unfoldable pub stop_client : Action WebSocket → String → Caller → Action WebSocket
unfolding stop_running
stop_client closing reason c w =
    if w.done
    then (ok tt, w)
    else (let (r, w') = stop_running closing reason c w in (uncaught r, w'))

unfoldable pub disconnect : Action WebSocket → Caller → Action WebSocket
disconnect closing c w =
    if not w.open_
    then (throws (logic_error ErrorMessages.transport_already_disconnected), w)
    else stop_client closing "disconnect" c w

-- `Connect` up to its wait.
unfoldable pub connect_begin : Action WebSocket
connect_begin w =
    if w.open_
    then (throws (logic_error ErrorMessages.transport_already_connected), w)
    else if w.client.connection_error
    then (throws (system_error websocket_error), w)
    else (command connect >> on_connected Promise.get_future) w

abbrev connected_result : Shared (Unit {0}) → Option (Outcome (Unit {0}))
connected_result not_ready = none
connected_result (value u) = some (ok u)
connected_result (failure e) = some (throws e)

-- `Connect` after its wait: `none` where it still waits.
unfoldable pub connect_end : WebSocket → Option (Outcome (Unit {0}))
connect_end w = connected_result w.connected.shared

-- The members are destroyed after the body of the destructor, and a joinable `std::thread` ends the
-- process then.
abbrev drop_thread : Bool → Action WebSocket
drop_thread true w = (terminates, w)
drop_thread false w = (ok tt, w)

release : Action WebSocket
release w = drop_thread w.joinable w

join_unless_done : Caller → Action WebSocket
unfolding join_thread
join_unless_done c w = if w.done then (ok tt, w) else join_thread c w

-- The destructor, which is `noexcept`.
unfoldable pub destroy : Caller → Action WebSocket
unfolding join_unless_done release
destroy c w = let (r, w') = (join_unless_done c >> release) w in (uncaught r, w')
