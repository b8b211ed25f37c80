-- ===== src/Spike/Machine.antt =====
-- spikes/statemachine/main.cpp: a state machine of two states with a counter.
pub mod Counting
mod Tests
use barbarossa.Common.{
  ℕ, ◌+◌, ◌^◌, ltb, ℤ, String, Option, none, some, List, [], ◌∷◌, ◌++◌, if◌then◌else◌,
}
use barbarossa.Errors.Outcome.{Outcome, ok, throws, undefined, terminates, ◌>>=◌}

-- `EventA` has a message or a null pointer, `EventB` a number.
pub data Event : Type 0 where
  event_a : Option String → Event
  event_b : ℤ → Event

-- `counter` is an `int` of 32 bits that starts at 0 and is never lowered.
pub record Context : Type 0 where
  pub counter : ℕ

-- The bound of an `int`.
abbrev pub int_bound : ℕ
int_bound = 2 ^ 31

-- `Context::Inc`: undefined where the sum does not fit.
unfoldable pub inc : Context → Outcome Context
inc c = if ltb (c.counter + 1) int_bound then ok (record { counter = c.counter + 1 }) else undefined

-- The functions `A` and `B`, as pointers.
pub data Func : Type 0 where
  a b : Func

-- `SelfReturning`
pub record State : Type 0 where
  pub func : Func

-- What is printed.
pub data Line : Type 0 where
  in_state : Func → ℕ → Line
  a_message : String → Line
  a_nullptr : Line
  b_number : ℤ → Line

abbrev message_line : Option String → Line
message_line none = a_nullptr
message_line (some text) = a_message text

-- What a state returns, with the lines printed.
abbrev pub Printed : Type 0 → Type 0
Printed R = Outcome R × List Line

-- `make_pair(f, ctx.Inc())`
unfoldable pub enter : Func → Context → Outcome (State × Context)
unfolding inc
enter f c = do d ← inc c; ok (record { func = f }, d)

-- The functions `A` and `B`: the next state and context.
unfoldable pub transition : Func → Context → Event → Printed (State × Context)
unfolding enter
transition a c (event_a msg) =
    (ok (record { func = a }, c), in_state a c.counter ∷ message_line msg ∷ [])
transition a c (event_b n) = (enter b c, in_state a c.counter ∷ [])
transition b c (event_a msg) = (enter a c, in_state b c.counter ∷ [])
transition b c (event_b n) = (ok (record { func = b }, c), in_state b c.counter ∷ b_number n ∷ [])

-- `SelfReturning::operator()`
unfoldable pub invoke : State → Context → Event → Printed (State × Context)
unfolding transition
invoke s c e = transition s.func c e

abbrev pub proceed :
    (State → Context → Printed (State × Context))
    → List Line
    → Outcome (State × Context)
    → Printed (State × Context)
proceed f out (ok (s, c)) = let (r, rest) = f s c in (r, out ++ rest)
proceed f out (throws x) = (throws x, out)
proceed f out undefined = (undefined, out)
proceed f out terminates = (terminates, out)

-- The loop of `main`.
unfoldable pub run : State → Context → List Event → Printed (State × Context)
run s c [] = (ok (s, c), [])
run s c (e ∷ es) = let (r, out) = invoke s c e in proceed (λ t d. run t d es) out r
