-- ===== src/Spike/Machine/Tests.antt =====
-- The run of `main`, and a run that overflows.
use barbarossa.Common.{◌+◌, ◌≡◌, refl, pos, none, some, List, [], ◌∷◌, arith}
use barbarossa.Errors.Outcome.{ok, undefined}
use barbarossa.Spike.Machine.{
  Event, event_a, event_b, Context, State, a, transition, invoke, run, inc,
}
use barbarossa.Spike.Machine.Counting.{changes, last, grown, run_lem}

abbrev events : List Event
events =
    event_b (pos 0)
    ∷ event_a none
    ∷ event_b (pos 0)
    ∷ event_b (pos 10)
    ∷ event_a none
    ∷ event_a (some "Hello, world!")
    ∷ []

abbrev start_state : State
start_state = record { func = a }

abbrev start_context : Context
start_context = record { counter = 0 }

run_example :
    (run start_state start_context events).0
    ≡ grown (last start_state.func events) (start_context.counter + changes start_state.func events)
run_example = run_lem start_state start_context events (omega arith)

four_changes : (run start_state start_context events).0 ≡ ok (start_state, record { counter = 4 })
unfolding run invoke transition inc
four_changes = refl

overflows : (run start_state (record { counter = 2147483647 }) (event_b (pos 0) ∷ [])).0 ≡ undefined
unfolding run invoke transition inc
overflows = refl
