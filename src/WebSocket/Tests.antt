-- ===== src/WebSocket/Tests.antt =====
-- The theorems on the transport at concrete transports.
use barbarossa.Common.{◌≡◌, refl, pos, String, Bool, true, false, none, some, List, [], ◌∷◌, ◌++◌}
use barbarossa.Errors.{
  logic_error, network_error, future_error, future_already_retrieved, json_error, parse_error,
}
use barbarossa.Errors.ErrorMessages
use barbarossa.Errors.Outcome.{ok, throws, terminates}
use barbarossa.Promise.{value, is_ready, fresh}
use barbarossa.Json.{bad_type}
use barbarossa.Json.Sample.{Value, num, obj, no_members, sample_json}
use barbarossa.Message.{Message, from_fields}
use barbarossa.Transport.{TransportHandler, other_thread}
use barbarossa.WebSocket.{
  WebSocket, Client, send, connect, stop_perpetual, close, create, is_connected, disconnect,
  connect_begin, connect_end, destroy,
}
use barbarossa.WebSocket.Callbacks.{on_client_open, on_client_close, on_client_fail, send_message}
use barbarossa.WebSocket.Receive.{HasWebSocket, on_client_message}
use barbarossa.WebSocket.Delivery.{
  send_message_lem, recv_message-send_message, on_client_message_dropped,
}
use barbarossa.WebSocket.Connection.{connect_answered}
use barbarossa.WebSocket.Lifecycle.{
  opens, closes, connects, web_run, disconnect_connected, destroy_after_close, web_run_connected,
}

abbrev client : Client
client = record { connection_error = false; close_error = false; send_error = λ text. none }

abbrev new_socket : WebSocket
new_socket = record {
  client = client;
  open_ = false;
  done = false;
  joinable = true;
  has_handler = true;
  connected = fresh;
  commands = [];
}

abbrev open_socket : WebSocket
open_socket = record new_socket {
  open_ = true;
  connected = record { shared = value tt; retrieved = true };
}

-- A handler that keeps what it receives.
record Inbox : Type 0 where
  socket : WebSocket
  received : List Message

instance abbrev inbox_web : HasWebSocket Inbox
inbox_web = record {
  web = λ s. s.socket;
  put = λ w s. record s { socket = w };
  web-put = λ w s. refl;
  put-put = λ v w s. refl;
}

instance abbrev inbox_handler : TransportHandler Inbox
inbox_handler = record {
  on_attach = λ s. (ok tt, s);
  on_detach = λ reason s. (ok tt, s);
  on_message = λ m s. (ok tt, record s { received = s.received ++ m ∷ [] });
}

abbrev inbox : Inbox
inbox = record { socket = open_socket; received = [] }

abbrev pong_message : Message
pong_message = from_fields (num (pos 5) ∷ obj no_members ∷ [])

recv_message-send_message_example :
    ((send_message pong_message open_socket).1.commands
      ≡ open_socket.commands ++ send "[5,{}]" ∷ [])
    × (on_client_message true "[5,{}]" inbox ≡ inbox_handler.on_message pong_message inbox)
recv_message-send_message_example =
    recv_message-send_message pong_message "[5,{}]" open_socket inbox refl refl refl

send_to_client :
    ((text : String)
      → sample_json.dump (sample_json.array pong_message.fields) ≡ some text
      → let sent = record open_socket { commands = open_socket.commands ++ send text ∷ [] } in
        (open_socket.client.send_error text ≡ none
          → send_message pong_message open_socket ≡ (ok tt, sent))
        × ((reason : String)
            → open_socket.client.send_error text ≡ some reason
            → send_message pong_message open_socket ≡ (throws (network_error reason), sent)))
    × (sample_json.dump (sample_json.array pong_message.fields) ≡ none
        → send_message pong_message open_socket ≡ (throws bad_type, open_socket))
send_to_client = send_message_lem pong_message open_socket

dropped_text :
    ((inbox_web.web inbox).has_handler ≡ false → on_client_message true "hi" inbox ≡ (ok tt, inbox))
    × (◌≡◌ {A = Bool} true false → on_client_message true "hi" inbox ≡ (ok tt, inbox))
    × ((j : Value)
        → sample_json.parse "hi" ≡ some j
        → sample_json.elements j ≡ none
        → on_client_message true "hi" inbox ≡ (ok tt, inbox))
    × (◌≡◌ {A = Bool} true true
        → (inbox_web.web inbox).has_handler ≡ true
        → sample_json.parse "hi" ≡ none
        → on_client_message true "hi" inbox ≡ (throws (json_error parse_error), inbox))
dropped_text = on_client_message_dropped true "hi" inbox

connect_returns :
    let waiting = (connect_begin new_socket).1 in
    let opened = (on_client_open waiting).1 in
    let failed = (on_client_fail waiting).1 in
    (waiting.commands ≡ new_socket.commands ++ connect ∷ [])
    × (connect_end waiting ≡ none)
    × (connect_end opened ≡ some (ok tt))
    × (is_connected opened ≡ true)
    × (connect_end failed ≡ some (throws (network_error ErrorMessages.transport_connection_failed)))
    × (is_connected failed ≡ false)
    × ((connect_begin failed).0 ≡ throws (future_error future_already_retrieved))
connect_returns = connect_answered new_socket refl refl refl refl

disconnect_returns :
    let (r, w') = disconnect on_client_close other_thread open_socket in
    (r ≡ ok tt)
    × (w'.commands ≡ (open_socket.commands ++ stop_perpetual ∷ []) ++ close "disconnect" ∷ [])
    × (is_connected w' ≡ false)
    × (w'.joinable ≡ false)
    × (disconnect on_client_close other_thread w'
        ≡ (throws (logic_error ErrorMessages.transport_already_disconnected), w'))
    × ((destroy other_thread w').0 ≡ ok tt)
unfolding is_connected
disconnect_returns = disconnect_connected open_socket refl refl refl

destroy_after_close_example :
    let closed = (on_client_close open_socket).1 in
    (disconnect on_client_close other_thread closed ≡ (ok tt, closed))
    × ((destroy other_thread closed).0 ≡ terminates)
destroy_after_close_example = destroy_after_close on_client_close other_thread open_socket refl refl

cut_transport_stays_cut :
    let w = web_run (create client) (connects ∷ opens ∷ closes ∷ []) in
    (is_connected w ≡ true → is_ready w.connected.shared ≡ true)
    × (w.done ≡ true → is_connected (web_run w (opens ∷ [])) ≡ false)
cut_transport_stays_cut = web_run_connected client (connects ∷ opens ∷ closes ∷ []) (opens ∷ [])
