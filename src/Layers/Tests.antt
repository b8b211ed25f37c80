-- ===== src/Layers/Tests.antt =====
-- The theorems on the two layers at concrete messages.
use barbarossa.Common.{pos, IsInt32, ◌≡◌, refl, none, true, false, arith}
use barbarossa.Errors.Outcome.{ok, undefined, ◌>>=◌}
use barbarossa.MessageType.{MessageType, to_ℕ}
use barbarossa.Json.Sample.{null, obj, no_members, sample_json}
use barbarossa.Protocol.Hello
use barbarossa.Protocol.Ping
use barbarossa.Protocol.Error
use barbarossa.Protocol.Welcome
use barbarossa.Protocol.Codec.{AnyMessage, welcome}
use barbarossa.Session.{Session}
use barbarossa.Session.Messages.{hello_message, ping_message, error_message}
use barbarossa.WebSocket.{WebSocket, Client}
use barbarossa.WebSocket.Receive.{on_client_message}
use barbarossa.Main.{session_web, session_handler}
use barbarossa.Main.Phases.{waiting_session}
use barbarossa.Layers.Outgoing.{sent, session_messages}
use barbarossa.Layers.Incoming.{reaction, on_client_message-encode}

session_messages_example :
    let refusal = Error.create (to_ℕ MessageType.call) (pos 3) "ERR_NO_SUCH_OPERATION" in
    (sent ping_message ≡ Ping.to_json null Ping.create)
    × ((do j ← sent ping_message; Ping.from_json j) ≡ ok Ping.create)
    × (sent (error_message (pos 3)) ≡ Error.to_json null refusal)
    × (IsInt32 (pos 3) → (do j ← sent (error_message (pos 3)); Error.from_json j) ≡ ok refusal)
    × ((do j ← sent (hello_message "test"); Hello.from_json j) ≡ undefined)
session_messages_example = session_messages "test" (pos 3)

abbrev silent_client : Client
silent_client = record { connection_error = false; close_error = false; send_error = λ text. none }

abbrev asking : Session WebSocket
asking = waiting_session silent_client "[1,\"test\"]"

abbrev answer : AnyMessage
answer = welcome (record { session_id = pos 7; details = obj no_members })

on_client_message-encode_example : on_client_message true "[2,7,{}]" asking ≡ reaction answer asking
on_client_message-encode_example =
    on_client_message-encode answer _ "[2,7,{}]" asking
      (Welcome.to_json_lem (record { session_id = pos 7; details = obj no_members })) refl refl
      (record { in_establishing = refl; no_thread = refl; no_answer = refl }, omega arith)
