-- ===== src/Spike/Endpoint/Tests.antt =====
-- The theorems on the endpoint at concrete endpoints.
use barbarossa.Common.{Bool, List, ◌∷◌, ◌++◌, none, some, ◌≤◌, ◌≡◌, refl, ◌⊎◌, String, false, []}
use barbarossa.Errors.Outcome.{ok}
use barbarossa.MessageType.{MessageType, to_ℕ}
use barbarossa.Json.Sample.{sample_json}
use barbarossa.Spike.Endpoint.{
  Endpoint, registered, greeted, on_message, on_open, round, create, destroy, stop_perpetual, join,
}
use barbarossa.Protocol.{parse_message, get_message_type, member}
use barbarossa.Protocol.Hello
use barbarossa.Protocol.Welcome.{from_json}
use barbarossa.Spike.Endpoint.Running.{
  EndpointEvent, opens, closes, fails, turns, receives, happens, handler, run, connects,
}
use barbarossa.Spike.Endpoint.Returning.{late, gone, run_returns}
use barbarossa.Spike.Endpoint.Bounds.{timeout-run}
use barbarossa.Spike.Endpoint.Phases.{type_of, enters_registered}

abbrev registered_endpoint : Endpoint
registered_endpoint = record {
  state = registered;
  timeout = 0;
  send_fails = λ text. false;
  connection_error = λ uri. false;
  commands = [];
}

abbrev greeted_endpoint : Endpoint
greeted_endpoint = record registered_endpoint { state = greeted }

welcome_text : (happens (receives "[2,7,{}]") greeted_endpoint).1.state ≡ registered
unfolding happens on_message parse_message get_message_type from_json member
welcome_text = refl

registered_by_welcome :
    (greeted_endpoint.state ≡ registered)
    ⊎ ((greeted_endpoint.state ≡ greeted)
        × (text : String) × (receives "[2,7,{}]" ≡ receives text)
        × (type_of text ≡ ok (to_ℕ MessageType.welcome)))
registered_by_welcome = enters_registered (receives "[2,7,{}]") greeted_endpoint welcome_text

abbrev no_failure : String → Bool
no_failure text = false

abbrev meeting : List EndpointEvent
meeting = opens ∷ turns ∷ receives "[2,7,{}]" ∷ turns ∷ []

meeting_waits : (run "wss://peer" meeting (create no_failure no_failure)).0 ≡ none
unfolding run handler happens on_open on_message round parse_message get_message_type from_json
    member create Hello.to_json connects
meeting_waits = refl

run_returns_example :
    let e = (run "wss://peer" meeting (create no_failure no_failure)).1 in
    (run "wss://peer" (meeting ++ closes ∷ late ("[5,{}]" ∷ []) []) (create no_failure no_failure)
      ≡ (some (ok tt), gone e))
    × (run "wss://peer" (meeting ++ fails ∷ late ("[5,{}]" ∷ []) []) (create no_failure no_failure)
        ≡ (some (ok tt), gone e))
    × ((destroy (gone e)).1.commands ≡ (e.commands ++ stop_perpetual ∷ []) ++ join ∷ [])
unfolding parse_message
run_returns_example =
    run_returns "wss://peer" meeting ("[5,{}]" ∷ []) [] (create no_failure no_failure) meeting_waits
      ((_, refl), tt)

counter_in_range : (run "wss://peer" meeting (create no_failure no_failure)).1.timeout ≤ 30
counter_in_range = timeout-run no_failure no_failure "wss://peer" meeting
