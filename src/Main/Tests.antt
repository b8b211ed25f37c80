-- ===== src/Main/Tests.antt =====
-- The theorems on `main` at concrete inputs.
use barbarossa.Common.{◌≡◌, refl, ◌↔◌, ◌⊎◌, inl, String, true, false, none, some, []}
use barbarossa.Errors.{logic_error, timeout_error, no_transport_error}
use barbarossa.Errors.ErrorMessages
use barbarossa.Errors.Hierarchy.{is_abort_error, is_network_error, is_protocol_error}
use barbarossa.Errors.Outcome.{ok, throws, terminates}
use barbarossa.Promise.{value, fresh}
use barbarossa.Json.{bad_type}
use barbarossa.Json.Sample.{Value, str, obj, no_members, entry, sample_json}
use barbarossa.Session.{Session, initial}
use barbarossa.Session.Join.{join_begin, join_end, run_posted}
use barbarossa.Session.Joining.{IsNew}
use barbarossa.WebSocket.{WebSocket, is_connected}
use barbarossa.WebSocket.Receive.{attach, detach}
use barbarossa.Main.{
  web_transport, session_web, session_handler, greeting, say_hello, on_signal, after_try,
}
use barbarossa.Main.Program.{discard}
use barbarossa.Main.Wiring.{attach-detach, on_signal_terminates}
use barbarossa.Main.Greeting.{say_hello_lem}
use barbarossa.Main.Catching.{after_try_iff, join_without_transport_terminates}

abbrev socket : WebSocket
socket = record {
  client = record { connection_error = false; close_error = false; send_error = λ text. none };
  open_ = false;
  done = false;
  joinable = true;
  has_handler = false;
  connected = fresh;
  commands = [];
}

abbrev free_session : Session WebSocket
free_session = initial socket

links_once :
    let linked = record free_session {
      attached = true;
      transport = record free_session.transport { has_handler = true };
    } in
    (attach free_session ≡ (ok tt, linked))
    × (attach linked
        ≡ (throws (logic_error ErrorMessages.transport_handler_already_attached), linked))
    × (detach linked ≡ (ok tt, free_session))
    × (detach free_session
        ≡ (throws (logic_error ErrorMessages.transport_handler_already_detached), free_session))
links_once = attach-detach free_session refl refl

abbrev running_session : Session WebSocket
running_session = record free_session {
  attached = true;
  transport = record socket {
    open_ = true;
    has_handler = true;
    connected = record { shared = value tt; retrieved = true };
  };
}

on_signal_terminates_example : (on_signal running_session).0 ≡ terminates
unfolding is_connected
on_signal_terminates_example = on_signal_terminates running_session refl refl refl refl

abbrev named : Value
named = obj (entry "name" (str "Ann") no_members)

say_hello_to_ann :
    (sample_json.find_key named "name" ≡ none
      → (r : Value) × (say_hello named ≡ ok r)
        × (sample_json.find_key r "say_hello" ≡ some (str "Hello World!")))
    × ((v : Value) (name : String)
        → sample_json.find_key named "name" ≡ some v
        → sample_json.get_string v ≡ some name
        → (r : Value) × (say_hello named ≡ ok r)
          × (sample_json.find_key r "say_hello" ≡ some (str (greeting name))))
    × ((v : Value)
        → sample_json.find_key named "name" ≡ some v
        → sample_json.get_string v ≡ none
        → say_hello named ≡ throws bad_type)
say_hello_to_ann = say_hello_lem named

timeout_after_try :
    ((after_try (throws timeout_error) ≡ ok tt)
      ↔ ((is_abort_error timeout_error ≡ true) ⊎ (is_network_error timeout_error ≡ true)))
    × (is_protocol_error timeout_error ≡ true → after_try (throws timeout_error) ≡ terminates)
timeout_after_try = after_try_iff timeout_error

free_session-IsNew : IsNew free_session
free_session-IsNew = record { no_id = refl; no_thread = refl; waits = refl; idle = refl }

join_without_transport_terminates_example :
    (after_try (discard (join_end (run_posted true (join_begin "test" free_session).1).1))
      ≡ terminates)
    × (after_try (throws no_transport_error) ≡ ok tt)
join_without_transport_terminates_example =
    join_without_transport_terminates "test" free_session free_session-IsNew (inl refl)
