-- ===== src/Spike/Endpoint/Returning.antt =====
-- When `Run` of the endpoint returns.
use barbarossa.Common.{
  ◌≡◌, refl, ◌∙◌, false, String, Option, none, some, List, [], ◌∷◌, ◌++◌, arith,
}
use barbarossa.Errors.Outcome.{Outcome, ok}
use barbarossa.Json.{JsonLib}
use barbarossa.Protocol.{parse_message, BasicMessage}
use barbarossa.Spike.Endpoint.{
  Endpoint, Verdict, sleeps, finishes, disconnected, destroy, stop_perpetual, join, on_close,
  on_fail, on_message, round,
}
use barbarossa.Spike.Endpoint.Running.{
  EndpointEvent, closes, fails, turns, receives, happens, unless_over, handler, run, connects,
  returns,
}

module _ ⦃J : JsonLib⦄ where
  over_or_not :
      (r : Outcome Verdict) (rest : Option (Outcome Verdict) × Endpoint) (e : Endpoint)
      → (unless_over r rest e).0 ≡ none
      → (r ≡ ok sleeps) × (rest.0 ≡ none)
  over_or_not r rest e h = ground arith

  handler_append :
      (vs ws : List EndpointEvent) (e : Endpoint)
      → (handler vs e).0 ≡ none
      → handler (vs ++ ws) e ≡ handler ws (handler vs e).1
  unfolding handler
  handler_append [] ws e h = refl
  handler_append (v ∷ vs) ws e h =
      let (p, q) = over_or_not (happens v e).0 (handler vs (happens v e).1) (happens v e).1 h in
      rw p (handler_append vs ws (happens v e).1 q)

  -- Every text is JSON.
  abbrev pub AllParse : List String → Type 0
  AllParse [] = Unit {0}
  AllParse (t ∷ ts) = ((m : BasicMessage) × (parse_message t ≡ ok m)) × AllParse ts

  abbrev pub arrive : List String → List EndpointEvent
  arrive [] = []
  arrive (t ∷ ts) = receives t ∷ arrive ts

  text_ignored :
      (t : String) (m : BasicMessage) (e : Endpoint)
      → parse_message t ≡ ok m
      → e.state ≡ disconnected
      → happens (receives t) e ≡ (ok sleeps, e)
  unfolding happens on_message
  text_ignored t m e p d = rw (p, d) refl

  last_round : (e : Endpoint) → e.state ≡ disconnected → happens turns e ≡ (ok finishes, e)
  unfolding happens round
  last_round e d = rw d refl

  abbrev pub gone : Endpoint → Endpoint
  gone e = record e { state = disconnected }

  connection_ends :
      (e : Endpoint)
      → (happens closes e ≡ (ok sleeps, gone e)) × (happens fails e ≡ (ok sleeps, gone e))
  unfolding happens on_close on_fail
  connection_ends e = (refl, refl)

  loop_left :
      (ts : List String) (ws : List EndpointEvent) (e : Endpoint)
      → AllParse ts
      → e.state ≡ disconnected
      → handler (arrive ts ++ turns ∷ ws) e ≡ (some (ok finishes), e)
  unfolding handler
  loop_left [] ws e p d = rw (last_round e d) refl
  loop_left (t ∷ ts) ws e ((m, q), p) d = rw (text_ignored t m e q d) (loop_left ts ws e p d)

  -- The events after the end of the connection: texts that still arrive, a round, and any others.
  abbrev pub late : List String → List EndpointEvent → List EndpointEvent
  late ts ws = arrive ts ++ turns ∷ ws

  left_after :
      (ts : List String) (ws : List EndpointEvent) (e : Endpoint)
      → AllParse ts
      → (handler (closes ∷ late ts ws) e ≡ (some (ok finishes), gone e))
        × (handler (fails ∷ late ts ws) e ≡ (some (ok finishes), gone e))
  unfolding handler
  left_after ts ws e p =
      let l = loop_left ts ws (gone e) p refl in let (c, f) = connection_ends e in (rw c l, rw f l)

  handler_ends :
      (vs : List EndpointEvent) (ts : List String) (ws : List EndpointEvent) (e : Endpoint)
      → (handler vs e).0 ≡ none
      → AllParse ts
      → (handler (vs ++ closes ∷ late ts ws) e ≡ (some (ok finishes), gone (handler vs e).1))
        × (handler (vs ++ fails ∷ late ts ws) e ≡ (some (ok finishes), gone (handler vs e).1))
  handler_ends vs ts ws e h p =
      let (c, f) = left_after ts ws (handler vs e).1 p in
      (
        handler_append vs (closes ∷ late ts ws) e h ∙ c,
        handler_append vs (fails ∷ late ts ws) e h ∙ f,
      )

  run_waits :
      (uri : String) (vs : List EndpointEvent) (e : Endpoint)
      → (run uri vs e).0 ≡ none
      → (e.connection_error uri ≡ false) × ((handler vs (connects uri e).1).0 ≡ none)
  unfolding run
  run_waits uri vs e h = ground arith

  run_connected :
      (uri : String) (vs : List EndpointEvent) (e : Endpoint)
      → e.connection_error uri ≡ false
      → run uri vs e
        ≡ (returns (handler vs (connects uri e).1).0, (handler vs (connects uri e).1).1)
  unfolding run
  run_connected uri vs e b = rw b refl

  pub run_returns :
      (uri : String) (vs : List EndpointEvent) (ts : List String) (ws : List EndpointEvent)
      (e : Endpoint)
      → (run uri vs e).0 ≡ none
      → AllParse ts
      → (run uri (vs ++ closes ∷ late ts ws) e ≡ (some (ok tt), gone (run uri vs e).1))
        × (run uri (vs ++ fails ∷ late ts ws) e ≡ (some (ok tt), gone (run uri vs e).1))
        × ((destroy (gone (run uri vs e).1)).1.commands
            ≡ ((run uri vs e).1.commands ++ stop_perpetual ∷ []) ++ join ∷ [])
  unfolding handler destroy
  run_returns uri vs ts ws e h p =
      let (b, q) = run_waits uri vs e h in
      let (c, f) = handler_ends vs ts ws (connects uri e).1 q p in
      rw (run_connected uri vs e b) (
        run_connected uri (vs ++ closes ∷ late ts ws) e b ∙ rw c refl,
        run_connected uri (vs ++ fails ∷ late ts ws) e b ∙ rw f refl,
        refl,
      )
