-- ===== src/Main/EndingTests.antt =====
-- The theorems on the runs of `main` at a client that takes everything.
use barbarossa.Common.{
  Bool, false, ℕ, ◌≤◌, ◌<◌, ◌^◌, ◌≢◌, List, Option, length, ◌≡◌, refl, String, true, false, some,
  none, [], ◌∷◌, arith,
}
use barbarossa.Errors.Outcome.{Outcome, ok, terminates}
use barbarossa.Errors.Exec.{Action, pure}
use barbarossa.Json.Sample.{Value, obj, no_members, sample_json}
use barbarossa.Session.{Session, finished}
use barbarossa.Session.Messages.{hello_fields, ping_fields}
use barbarossa.Session.Joining.{abort_fields, welcome_fields}
use barbarossa.WebSocket.{WebSocket, Client, start_perpetual, run, connect, send}
use barbarossa.WebSocket.Callbacks.{on_client_fail}
use barbarossa.WebSocket.Receive.{on_client_message}
use barbarossa.Main.{session_web, session_handler, on_signal}
use barbarossa.Main.Program.{Others, on_transport, run_main, start}
use barbarossa.Main.Phases.{others, opens_and_answers}
use barbarossa.Main.Unjoined.{EndsUnjoined, run_main_unjoined}
use barbarossa.Main.Exit.{main}
use barbarossa.Main.Exiting.{exits, leaves_after_close, main_lem}
use barbarossa.Main.Joined.{silent, run_main_joined}

abbrev open_client : Client
open_client = record { connection_error = false; close_error = false; send_error = λ text. none }

abbrev receives : String → Action (Session WebSocket)
receives text = on_client_message true text

run_main_joined_example :
    ((ping : String)
      → sample_json.dump (sample_json.array ping_fields.fields) ≡ some ping
      → open_client.send_error ping ≡ none
      → let (r, s) =
          run_main (opens_and_answers (receives "[2,7,{}]") silent) "test" (start open_client) in
        (r ≡ some (ok tt))
        × (s.attached ≡ false)
        × (s.heartbeat ≡ finished)
        × (s.transport.commands
            ≡ start_perpetual ∷ run ∷ connect ∷ send "[1,\"test\"]" ∷ send ping ∷ []))
    × ((run_main (opens_and_answers (receives "[2,7,{}]") (pure tt)) "test" (start open_client)).0
        ≡ none)
    × ((run_main (opens_and_answers (receives "[2,7,{}]") on_signal) "test" (start open_client)).0
        ≡ some terminates)
run_main_joined_example =
    run_main_joined open_client "test" "[1,\"test\"]" "[2,7,{}]" 7 (obj no_members) (omega arith)
      (omega arith) refl refl refl refl

run_main_unjoined_example :
    let o = opens_and_answers (pure tt) on_signal in
    (open_client.connection_error ≡ true
      → (run_main o "test" (start open_client)).0 ≡ some terminates)
    × (open_client.connection_error ≡ false
        → EndsUnjoined (
            run_main
              (others (on_transport on_client_fail) o.joining o.listening)
              "test"
              (start open_client)))
    × ((hello : String)
        → open_client.connection_error ≡ false
        → sample_json.dump (sample_json.array (hello_fields "test").fields) ≡ some hello
        → open_client.send_error hello ≡ none
        → EndsUnjoined
            (run_main (opens_and_answers (pure tt) o.listening) "test" (start open_client))
          × ((text reason : String) (details : Value)
              → sample_json.parse text
                ≡ some (sample_json.array (abort_fields reason details).fields)
              → EndsUnjoined (
                  run_main
                    (opens_and_answers (receives text) o.listening)
                    "test"
                    (start open_client))))
run_main_unjoined_example =
    run_main_unjoined open_client "test" (opens_and_answers (pure tt) on_signal)

abbrev clients : String → Client
clients uri = open_client

-- The exit of the program at the address "wss://peer" and the realm "test".
abbrev exits_test : Others → Option (Outcome ℕ)
exits_test = exits clients "barbarossa" "wss://peer" "test" [] false (pure tt)

main_example :
    ((o : Others) (f : Action (Session WebSocket)) (b : Bool) (argv : List String)
      → length argv ≤ 2
      → main clients o f b argv ≡ some (ok 1))
    × ((j : Action (Session WebSocket))
        → exits_test (others (on_transport on_client_fail) j (pure tt)) ≡ some terminates)
    × ((hello : String)
        → sample_json.dump (sample_json.array (hello_fields "test").fields) ≡ some hello
        → open_client.send_error hello ≡ none
        → (exits_test (opens_and_answers (pure tt) (pure tt)) ≡ some (ok 0))
          × ((text reason : String) (details : Value)
              → sample_json.parse text
                ≡ some (sample_json.array (abort_fields reason details).fields)
              → exits_test (opens_and_answers (receives text) (pure tt)) ≡ some (ok 0))
          × ((text ping : String) (id : ℕ) (details : Value)
              → id < 2 ^ 32
              → id ≢ 0
              → sample_json.parse text ≡ some (sample_json.array (welcome_fields id details).fields)
              → sample_json.dump (sample_json.array ping_fields.fields) ≡ some ping
              → open_client.send_error ping ≡ none
              → exits_test (opens_and_answers (receives text) silent) ≡ some (ok 0))
          × ((text : String) (id : ℕ) (details : Value)
              → id < 2 ^ 32
              → sample_json.parse text ≡ some (sample_json.array (welcome_fields id details).fields)
              → exits_test (opens_and_answers (receives text) leaves_after_close)
                ≡ some terminates))
main_example = main_lem clients "barbarossa" "wss://peer" "test" [] false (pure tt) refl
