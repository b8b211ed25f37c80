-- ===== src/Spike/Endpoint/Running.antt =====
-- spikes/statemachine/websocket.hpp, `Run`: the thread of `Handler` beside the client's thread.
use barbarossa.Common.{String, Option, none, some, List, [], ◌∷◌, if◌then◌else◌}
use barbarossa.Errors.Outcome.{uncaught, Outcome, ok, throws, undefined, terminates}
use barbarossa.Errors.Exec.{Action, ◌>>◌}
use barbarossa.Json.{JsonLib}
use barbarossa.Spike.Endpoint.{
  Endpoint, Verdict, sleeps, connect, command, set_timeout, on_open, on_close, on_fail, on_message,
  round,
}

-- What happens while `Handler` runs: a callback of the client, or a round of the loop.
pub data EndpointEvent : Type 0 where
  opens closes fails turns : EndpointEvent
  receives : String → EndpointEvent

-- The loop goes on after a callback that returned.
abbrev goes_on : Outcome (Unit {0}) → Outcome Verdict
goes_on (ok u) = ok sleeps
goes_on (throws e) = throws e
goes_on undefined = undefined
goes_on terminates = terminates

abbrev called : Outcome (Unit {0}) × Endpoint → Outcome Verdict × Endpoint
called (r, e) = (goes_on r, e)

module _ ⦃J : JsonLib⦄ where
  abbrev attempt : EndpointEvent → Endpoint → Outcome Verdict × Endpoint
  attempt opens e = called (on_open e)
  attempt closes e = called (on_close e)
  attempt fails e = called (on_fail e)
  attempt turns e = round e
  attempt (receives text) e = called (on_message text e)

  -- An event, and whether the loop goes on after it.
  unfoldable pub happens : EndpointEvent → Endpoint → Outcome Verdict × Endpoint
  happens v e = let (r, e') = attempt v e in (uncaught r, e')

  abbrev pub unless_over :
      Outcome Verdict
      → Option (Outcome Verdict) × Endpoint
      → Endpoint
      → Option (Outcome Verdict) × Endpoint
  unless_over (ok sleeps) rest e = rest
  unless_over r rest e = (some r, e)

  -- `Handler` while the events happen: `none` where the loop still runs after the last.
  unfoldable pub handler : List EndpointEvent → Endpoint → Option (Outcome Verdict) × Endpoint
  handler [] e = (none, e)
  handler (v ∷ vs) e =
      let (r, e') = happens v e in let rest = handler vs e' in unless_over r rest e'

  abbrev pub returns : Option (Outcome Verdict) → Option (Outcome (Unit {0}))
  returns none = none
  returns (some (ok v)) = some (ok tt)
  returns (some (throws e)) = some (throws e)
  returns (some undefined) = some undefined
  returns (some terminates) = some terminates

  -- `Run` up to its wait for the thread of `Handler`.
  unfoldable pub connects : String → Action Endpoint
  connects uri = command (connect uri) >> set_timeout 0

  -- `Run`: `none` where it still waits after the last event.
  unfoldable pub run :
      String → List EndpointEvent → Endpoint → Option (Outcome (Unit {0})) × Endpoint
  run uri vs e =
      if e.connection_error uri
      then (some (ok tt), e)
      else (let (r, e') = handler vs (connects uri e).1 in (returns r, e'))
