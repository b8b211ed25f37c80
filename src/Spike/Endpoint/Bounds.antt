-- ===== src/Spike/Endpoint/Bounds.antt =====
-- The range of the counter of `Handler`.
use barbarossa.Common.{◌≤◌, Bool, String, Option, List, [], ◌∷◌, arith}
use barbarossa.Errors.Outcome.{Outcome}
use barbarossa.Json.{JsonLib}
use barbarossa.Spike.Endpoint.{
  Endpoint, Verdict, create, on_open, on_close, on_fail, on_message, round,
}
use barbarossa.Spike.Endpoint.Running.{
  EndpointEvent, opens, closes, fails, turns, receives, happens, unless_over, handler, run,
  connects,
}

module _ ⦃J : JsonLib⦄ where
  -- The counter of `Handler` is at most 30.
  Counted : Endpoint → Type 0
  Counted e = e.timeout ≤ 30

  round-Counted : (e : Endpoint) → Counted e → Counted (round e).1
  unfolding Counted round
  round-Counted e h = ground arith

  on_message-Counted : (t : String) (e : Endpoint) → Counted e → Counted (on_message t e).1
  unfolding Counted on_message
  on_message-Counted t e h = ground arith

  happens-Counted : (v : EndpointEvent) (e : Endpoint) → Counted e → Counted (happens v e).1
  unfolding Counted happens on_open on_close on_fail
  happens-Counted opens e h = h
  happens-Counted closes e h = h
  happens-Counted fails e h = h
  happens-Counted turns e h = round-Counted e h
  happens-Counted (receives t) e h = on_message-Counted t e h

  unless_over-Counted :
      (r : Outcome Verdict) (rest : Option (Outcome Verdict) × Endpoint) (e : Endpoint)
      → Counted rest.1
      → Counted e
      → Counted (unless_over r rest e).1
  unfolding Counted
  unless_over-Counted r rest e h k = ground arith

  handler-Counted : (vs : List EndpointEvent) (e : Endpoint) → Counted e → Counted (handler vs e).1
  unfolding handler
  handler-Counted [] e h = h
  handler-Counted (v ∷ vs) e h =
      let k = happens-Counted v e h in
      unless_over-Counted (happens v e).0 (handler vs (happens v e).1) (happens v e).1
        (handler-Counted vs (happens v e).1 k) k

  connects-Counted : (uri : String) (e : Endpoint) → Counted (connects uri e).1
  unfolding Counted connects
  connects-Counted uri e = omega arith

  -- Whatever happens while `Run` of a new endpoint waits, the counter of `Handler` stays within the 30 at
  -- which it starts again.
  pub timeout-run :
      (send_fails connection_error : String → Bool) (uri : String) (vs : List EndpointEvent)
      → (run uri vs (create send_fails connection_error)).1.timeout ≤ 30
  unfolding Counted run create
  timeout-run f g uri vs =
      let e = create f g in
      ground (arith, handler-Counted vs (connects uri e).1 (connects-Counted uri e))
