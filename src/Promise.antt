-- ===== src/Promise.antt =====
-- `std::promise` and the `std::future` that it hands out, as the program uses them.
use barbarossa.Common.{Bool, true, false}
use barbarossa.Errors.{Exception, future_error, promise_already_satisfied, future_already_retrieved}
use barbarossa.Errors.Outcome.{Outcome, ok, throws}
use barbarossa.Errors.Exec.{Action}

-- The shared state.
pub data Shared (A : Type 0) : Type 0 where
  not_ready : Shared A
  value : A → Shared A
  failure : Exception → Shared A

pub record Promise (A : Type 0) : Type 0 where
  pub shared : Shared A
  pub retrieved : Bool

module _ {A : Type 0} where
  abbrev pub fresh : Promise A
  fresh = record { shared = not_ready; retrieved = false }

  abbrev pub is_ready : Shared A → Bool
  is_ready not_ready = false
  is_ready _ = true

  abbrev pub settle : Shared A → Shared A → Bool → Outcome (Unit {0}) × Promise A
  settle new not_ready b = (ok tt, record { shared = new; retrieved = b })
  settle new old b =
      (throws (future_error promise_already_satisfied), record { shared = old; retrieved = b })

  abbrev pub set_value : A → Action (Promise A)
  set_value a p = settle (value a) p.shared p.retrieved

  abbrev pub set_exception : Exception → Action (Promise A)
  set_exception e p = settle (failure e) p.shared p.retrieved

  abbrev pub retrieve : Bool → Shared A → Outcome (Unit {0}) × Promise A
  retrieve false s = (ok tt, record { shared = s; retrieved = true })
  retrieve true s =
      (throws (future_error future_already_retrieved), record { shared = s; retrieved = true })

  abbrev pub get_future : Action (Promise A)
  get_future p = retrieve p.retrieved p.shared
