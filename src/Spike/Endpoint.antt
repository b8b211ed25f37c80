-- ===== src/Spike/Endpoint.antt =====
-- spikes/statemachine/websocket.hpp: the experiment with a client endpoint, its callbacks and one round of
-- its loop. The websocketpp client enters as what its calls give; the zmq socket, which is only bound, and
-- what is printed are left out.
pub mod Running
pub mod Returning
pub mod Bounds
pub mod Pinging
pub mod Phases
mod Tests
use barbarossa.Common.{
  ℕ, suc, ◌+◌, String, Bool, true, false, Option, none, some, List, [], ◌∷◌, ◌++◌, ◌==◌,
  if◌then◌else◌,
}
use barbarossa.Errors.{Exception}
use barbarossa.Errors.Outcome.{Outcome, ok, throws, or_throw}
use barbarossa.Errors.Exec.{Action, pure, lift, ◌>>=◌, ◌>>◌}
use barbarossa.MessageType.{MessageType, to_ℕ}
use barbarossa.Json.{JsonLib, bad_type}
use barbarossa.Protocol.{parse_message, get_message_type, BasicMessage}
use barbarossa.Protocol.Hello
use barbarossa.Protocol.Welcome
use barbarossa.Protocol.Abort
use barbarossa.Protocol.Ping

pub data ControlChannelState : Type 0 where
  open_ connected greeted registered disconnected : ControlChannelState

-- What was asked of the client, in order. `run` starts its thread and `join` waits for it.
pub data Command : Type 0 where
  start_perpetual run stop_perpetual close join : Command
  connect send : String → Command

-- `timeout` is the variable of `Handler`; `send_fails` is whether the client reports an error for a text, and
-- `connection_error` whether it reports one for an URI.
pub record Endpoint : Type 0 where
  pub state : ControlChannelState
  pub timeout : ℕ
  pub send_fails : String → Bool
  pub connection_error : String → Bool
  pub commands : List Command

abbrev pub command : Command → Action Endpoint
command c e = (ok tt, record e { commands = e.commands ++ c ∷ [] })

-- `Close`
abbrev pub initiate_close : Action Endpoint
initiate_close = command close

abbrev pub set_timeout : ℕ → Action Endpoint
set_timeout n e = (ok tt, record e { timeout = n })

-- `state()`
abbrev current_of : Endpoint → ControlChannelState
current_of e = e.state

abbrev pub set_state : ControlChannelState → Action Endpoint
set_state s e = (ok tt, record e { state = s })

-- The constructor.
unfoldable pub create : (String → Bool) → (String → Bool) → Endpoint
create send_fails connection_error = record {
  state = open_;
  timeout = 0;
  send_fails = send_fails;
  connection_error = connection_error;
  commands = start_perpetual ∷ run ∷ [];
}

abbrev is_disconnected : ControlChannelState → Bool
is_disconnected disconnected = true
is_disconnected _ = false

-- The destructor asks for the end of the client's thread and joins it.
unfoldable pub destroy : Action Endpoint
destroy e =
    if is_disconnected (current_of e)
    then (command stop_perpetual >> command join) e
    else (command stop_perpetual >> command close >> command join) e

unfoldable pub on_open : Action Endpoint
on_open = set_state connected

unfoldable pub on_close : Action Endpoint
on_close = set_state disconnected

unfoldable pub on_fail : Action Endpoint
on_fail = set_state disconnected

-- How a round of `Handler` ends: it sleeps for a second, or it leaves the loop on an error or at the end.
pub data Verdict : Type 0 where
  sleeps send_error finishes : Verdict

abbrev checked : Bool → Verdict
checked true = send_error
checked false = sleeps

module _ ⦃J : JsonLib⦄ where
  open J use {Json, null, dump}

  -- `endpoint_.send(hdl_, j.dump(), text, ec)`: whether `ec` is set.
  send_json : Json → Endpoint → Outcome Bool × Endpoint
  send_json j = do
    text ← lift (or_throw bad_type (dump j))
    command (send text)
    λ e. (ok (e.send_fails text), e)

  greet : Endpoint → Outcome Verdict × Endpoint
  unfolding send_json
  greet = do
    j ← lift (Hello.to_json null (Hello.create "barbarossa@test"))
    failed ← send_json j
    set_state greeted
    pure (checked failed)

  send_ping : Endpoint → Outcome Verdict × Endpoint
  unfolding send_json
  send_ping = do
    j ← lift (Ping.to_json null Ping.create)
    failed ← send_json j
    set_timeout 0
    pure (checked failed)

  count : Endpoint → Outcome Verdict × Endpoint
  unfolding send_ping
  count e =
      if e.timeout == 30 then send_ping e else (ok sleeps, record e { timeout = e.timeout + 1 })

  -- The `switch` of `Handler`.
  process : ControlChannelState → Endpoint → Outcome Verdict × Endpoint
  unfolding greet count
  process open_ e = (ok sleeps, e)
  process connected e = greet e
  process greeted e = (ok sleeps, e)
  process registered e = count e
  process disconnected e = (ok finishes, e)

  -- One round of the loop of `Handler`.
  unfoldable pub round : Endpoint → Outcome Verdict × Endpoint
  unfolding process
  round e = process (current_of e) e

  -- The `switch` of `OnMessage` on the message's type.
  answer : ℕ → BasicMessage → Action Endpoint
  answer t m =
      if t == to_ℕ MessageType.welcome
      then (lift (Welcome.from_json m.j) >> set_state registered)
      else if t == to_ℕ MessageType.abort
      then (lift (Abort.from_json m.j) >> initiate_close)
      else initiate_close

  unfoldable pub answer_greeted : BasicMessage → Action Endpoint
  unfolding answer
  answer_greeted m = do r ← lift (get_message_type m); answer r.0 r.1

  react : ControlChannelState → BasicMessage → Action Endpoint
  unfolding answer_greeted
  react greeted m = answer_greeted m
  react _ m = pure tt

  react_now : BasicMessage → Action Endpoint
  unfolding react
  react_now m e = react (current_of e) m e

  -- `OnMessage`
  unfoldable pub on_message : String → Action Endpoint
  unfolding react_now
  on_message payload = do m ← lift (parse_message payload); react_now m
