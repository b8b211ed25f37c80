-- ===== src/System/Tests.antt =====
-- The theorems on the running program at a program that connects, asks to join and loses its connection.
use barbarossa.Common.{some, ◌≡◌, refl, false, none, true}
use barbarossa.Errors.{network_error}
use barbarossa.Session.State.{established}
use barbarossa.Errors.Outcome.{throws}
use barbarossa.System.Dropped.{closed_terminates}
use barbarossa.Errors.ErrorMessages
use barbarossa.Json.Sample.{sample_json}
use barbarossa.Session.{
  sleeping, listen_end, initial, Session, register_operation, on_attach, ensure_state, send_message,
}
use barbarossa.Session.Messages.{hello_message}
use barbarossa.Message.{set_field, sized, size, field_at}
use barbarossa.Session.Join.{join_begin, run_posted, run_task}
use barbarossa.Session.Run.{Reach}
use barbarossa.WebSocket.{WebSocket, Client, create, connect_begin, is_connected}
use barbarossa.WebSocket.Callbacks
use barbarossa.WebSocket.Callbacks.{to_array, collect, on_client_open, on_client_close}
use barbarossa.WebSocket.Receive.{attach}
use barbarossa.Main.{web_transport}
use barbarossa.Main.Program.{start}
use barbarossa.System.{
  ok, heartbeat_moves, terminates, system_step, SystemEvent, SystemReach, here, SystemReach-returns,
  attaching, connecting, opened, joining, closed, context_runs, received,
}
use barbarossa.System.Simulation.{SystemReach-Reach}
use barbarossa.MessageType.{from_int}
use barbarossa.System.Frames.{frame_result, received-frame_result}
use barbarossa.System.Wire.{AllWritten, SystemReach-AllWritten}
use barbarossa.System.Closing.{sent_texts, SystemReach-sent}

abbrev any_client : Client
any_client = record { connection_error = false; close_error = false; send_error = λ text. none }

abbrev after : SystemEvent → Session WebSocket → Session WebSocket
after e s = (system_step e s).1

abbrev linked : Session WebSocket
linked = after attaching (start any_client)

abbrev open_session : Session WebSocket
open_session = after opened (after connecting linked)

abbrev asking : Session WebSocket
asking = after (joining "test") open_session

linked-SystemReach : SystemReach (start any_client) linked
unfolding system_step attach on_attach start register_operation create
linked-SystemReach = SystemReach-returns (start any_client) attaching here refl

open_session-SystemReach : SystemReach (start any_client) open_session
unfolding system_step attach on_attach start register_operation create connect_begin on_client_open
open_session-SystemReach =
    SystemReach-returns (after connecting linked) opened
      (SystemReach-returns linked connecting linked-SystemReach refl) refl

asking-SystemReach : SystemReach (start any_client) asking
unfolding system_step attach on_attach start register_operation create connect_begin on_client_open
    join_begin ensure_state hello_message set_field sized
asking-SystemReach = SystemReach-returns open_session (joining "test") open_session-SystemReach refl

SystemReach-Reach_example : Reach (start any_client) asking
SystemReach-Reach_example = SystemReach-Reach asking-SystemReach

-- The HELLO is posted when the connection closes.
abbrev cut_off : Session WebSocket
cut_off = after closed asking

late_hello : SystemReach cut_off (after (context_runs true) cut_off)
unfolding system_step attach on_attach start register_operation create connect_begin on_client_open
    on_client_close join_begin hello_message set_field sized ensure_state run_posted run_task
    send_message is_connected
late_hello = SystemReach-returns cut_off (context_runs true) here refl

SystemReach-sent_example :
    let s = after (context_runs true) cut_off in
    (sent_texts s.transport.commands ≡ sent_texts cut_off.transport.commands)
    × (is_connected s.transport ≡ false)
unfolding system_step on_client_close
SystemReach-sent_example = SystemReach-sent late_hello refl

-- The HELLO is posted while the connection is open.
greeted : SystemReach (start any_client) (after (context_runs true) asking)
unfolding system_step attach on_attach start register_operation create connect_begin on_client_open
    join_begin hello_message set_field sized ensure_state run_posted run_task send_message
    is_connected Callbacks.send_message to_array collect size field_at
greeted = SystemReach-returns asking (context_runs true) asking-SystemReach refl

SystemReach-AllWritten_example :
    let s = after (context_runs true) asking in AllWritten s.session_id s.transport.commands
unfolding start register_operation create
SystemReach-AllWritten_example = SystemReach-AllWritten greeted refl refl tt

received-frame_result_example :
    (system_step (received true "[2,7,{}]") linked).0
    ≡ frame_result (sample_json.parse "[2,7,{}]") linked
unfolding system_step attach start register_operation create on_attach
received-frame_result_example = received-frame_result "[2,7,{}]" linked refl

-- A WELCOME that comes before `Join` ends the process.
early_welcome_ends : frame_result (sample_json.parse "[2,7,{}]") linked ≡ terminates
unfolding system_step attach on_attach start register_operation create from_int
early_welcome_ends = refl

-- A session that joined over an open connection and is idle.
abbrev idle_session : Session WebSocket
idle_session =
    record (initial
      (record (create any_client) { open_ = true; joinable = true; has_handler = true })) {
        attached = true;
        state = established;
        session_id = 7;
        heartbeat = sleeping;
      }

closed_terminates_example :
    let closes = system_step closed idle_session in
    let pings = system_step (heartbeat_moves false) closes.1 in
    let sends = system_step (context_runs true) pings.1 in
    let checks = system_step (heartbeat_moves false) sends.1 in
    (closes.0 ≡ ok tt)
    × (listen_end closes.1 ≡ none)
    × (pings.0 ≡ ok tt)
    × (sends.0 ≡ ok tt)
    × (listen_end sends.1 ≡ some (throws (network_error ErrorMessages.session_not_attached)))
    × (checks.0 ≡ terminates)
closed_terminates_example = closed_terminates idle_session refl refl refl refl
