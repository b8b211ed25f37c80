-- ===== src/Spike/Machine/Counting.antt =====
-- What the counter of the state machine counts.
use barbarossa.Common.{
  ℕ, ◌+◌, ◌<◌, ◌≡◌, refl, List, [], ◌∷◌, arith, Bool-cases, inl, inr, ltb, if◌then◌else◌,
}
use barbarossa.Errors.Outcome.{Outcome, ok, undefined}
use barbarossa.Spike.Machine.{
  Event, event_a, event_b, Context, State, Func, a, b, transition, invoke, run, inc, enter,
  int_bound,
}

-- The state that an event names.
abbrev pub named : Event → Func
named (event_a m) = a
named (event_b n) = b

abbrev differ : Func → Func → ℕ
differ a b = 1
differ b a = 1
differ _ _ = 0

-- How often the events, from the state `s` on, name another state than the one before.
abbrev pub changes : Func → List Event → ℕ
changes s [] = 0
changes s (e ∷ es) = differ s (named e) + changes (named e) es

abbrev pub last : Func → List Event → Func
last s [] = s
last s (e ∷ es) = last (named e) es

add_zero : (n : ℕ) → n + 0 ≡ n
add_zero n = omega arith

add_assoc : (m n k : ℕ) → (m + n) + k ≡ m + (n + k)
add_assoc m n k = omega arith

-- A state and a context whose counter has grown, where it still is an `int`.
abbrev pub grown : Func → ℕ → Outcome (State × Context)
grown f n = if ltb n int_bound then ok (record { func = f }, record { counter = n }) else undefined

-- A state moves to the one that the event names and counts whether that is another.
transition_lem :
    (f : Func) (c : Context) (e : Event)
    → c.counter < int_bound
    → (transition f c e).0 ≡ grown (named e) (c.counter + differ f (named e))
unfolding transition enter inc
transition_lem a c (event_a m) h = ground arith
transition_lem a c (event_b n) h = ground arith
transition_lem b c (event_a m) h = ground arith
transition_lem b c (event_b n) h = ground arith

-- A run from a counter that is an `int` overflows, which is undefined, exactly where the counter and the
-- number of events that change the state add up to more than an `int` holds. Otherwise it ends in the state
-- that the last event names, with that sum in the counter.
pub run_lem :
    (s : State) (c : Context) (es : List Event)
    → c.counter < int_bound
    → (run s c es).0 ≡ grown (last s.func es) (c.counter + changes s.func es)
unfolding run invoke
run_lem s c [] h = ground arith
run_lem s c (e ∷ es) h = elim (Bool-cases (ltb (c.counter + differ s.func (named e)) int_bound)) [
  | inl p ↦
      let rest =
        run_lem (record { func = named e })
          (record { counter = c.counter + differ s.func (named e) }) es (ground arith) in
      rw
        (
          transition_lem s.func c e h,
          p,
          rest,
          add_assoc c.counter (differ s.func (named e)) (changes (named e) es),
        )
        refl
  | inr p ↦ rw (transition_lem s.func c e h, p) (ground arith)
]
