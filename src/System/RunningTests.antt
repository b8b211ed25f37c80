-- ===== src/System/RunningTests.antt =====
-- The theorem on the runs of `main` at a run in which the session is joined and `Listen` waits.
use barbarossa.Common.{◌<◌, ◌^◌, ◌≡◌, refl, true, false, Option, none, [], ◌∷◌, List}
use barbarossa.Errors.Outcome.{Outcome}
use barbarossa.Message.{set_field, sized, size, field_as, field_at}
use barbarossa.MessageType.{from_int}
use barbarossa.Json.Sample.{sample_json}
use barbarossa.Session.{
  initial, register_operation, on_attach, ensure_state, send_message, transmit, listen_begin,
  listen_end,
}
use barbarossa.Session.Messages.{hello_message}
use barbarossa.Session.Join.{join_begin, join_end, run_posted, run_task}
use barbarossa.Session.Handlers.{on_message, dispatch, process_welcome}
use barbarossa.Session.Invariant.{Inv}
use barbarossa.Session.Contract.{Moves}
use barbarossa.Session.Refines.{view}
use barbarossa.WebSocket.{Client, create, connect_begin, connect_end, is_connected}
use barbarossa.WebSocket.Callbacks
use barbarossa.WebSocket.Callbacks.{on_client_open, to_array, collect}
use barbarossa.WebSocket.Receive.{attach, on_client_message, recv_message, from_array, fill}
use barbarossa.Main.{web_transport, session_web, session_handler, after_try}
use barbarossa.Main.Program.{run_main, try_block, start}
use barbarossa.System.{SystemEvent, system_step, SystemReach, opened, context_runs, received}
use barbarossa.System.Wire.{AllWritten}
use barbarossa.System.Running.{GoesOn, happen, meantime, run_main-SystemReach}

abbrev client : Client
client = record { connection_error = false; close_error = false; send_error = λ text. none }

abbrev greeted : List SystemEvent
greeted = context_runs true ∷ received true "[2,7,{}]" ∷ []

still_listens : (run_main (meantime (opened ∷ []) greeted []) "test" (start client)).0 ≡ none
unfolding run_main try_block happen system_step attach on_attach start register_operation create
    connect_begin connect_end on_client_open join_begin join_end ensure_state hello_message
    set_field sized run_posted run_task send_message transmit is_connected on_client_message
    recv_message from_array fill on_message dispatch process_welcome listen_begin listen_end
    after_try field_as size from_int Callbacks.send_message to_array collect field_at
still_listens = refl

waiting_GoesOn : {r : Option (Outcome (Unit {0}))} → r ≡ none → GoesOn r
waiting_GoesOn p = (λ q. cc, λ q. cc)

run_main-SystemReach_example :
    let (r, s) = run_main (meantime (opened ∷ []) greeted []) "test" (start client) in
    SystemReach (initial (create client)) s
    × Inv s
    × Moves (view (initial (create client))) (view s)
    × (s.session_id < 2 ^ 32)
    × AllWritten s.session_id s.transport.commands
run_main-SystemReach_example =
    run_main-SystemReach (opened ∷ []) greeted [] "test" client (waiting_GoesOn still_listens)
