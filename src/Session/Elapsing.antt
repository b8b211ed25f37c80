-- ===== src/Session/Elapsing.antt =====
-- What the moments of a timed session keep.
use barbarossa.Common.{true, false, Bool, if◌then◌else◌, List, [], ◌∷◌, ◌≢◌, refl}
use barbarossa.Errors.Outcome.{ok, throws, Outcome, terminates, undefined}
use barbarossa.Errors.Exec.{continue, ◌>>◌}
use barbarossa.Session.Run.{here, Reach, next, step, heartbeat_turn}
use barbarossa.Session.Timed.{
  timed_run, Timed, Moment, second, thread_turn, occurs, one_less, is_due, moves, thread_runs,
  elapse, timed_step,
}
use barbarossa.Errors.Keeps.{keeps_then, keeps_if}
use barbarossa.Json.{JsonLib}
use barbarossa.Message.{Message}
use barbarossa.Transport.{Transport}
use barbarossa.Session.{Session}
use barbarossa.Session.Handlers.{process_welcome}
use barbarossa.Session.Keeping.{Keeping, step-keeps, beat-keeps}

-- The process goes on after a call.
abbrev pub GoesOn : Outcome (Unit {0}) → Type 0
GoesOn r = (r ≢ terminates) × (r ≢ undefined)

module _ {S : Type 0} (P : S → Type 0) where
  goes_on-continue :
      (r : Outcome (Unit {0})) (g : S → Outcome (Unit {0}) × S) (s : S)
      → (GoesOn r → P s)
      → ((u : S) → P u → GoesOn (g u).0 → P (g u).1)
      → GoesOn (continue r (λ _. g) s).0
      → P (continue r (λ _. g) s).1
  goes_on-continue (ok a) g s h k q = k s (h ((λ e. cc), (λ e. cc))) q
  goes_on-continue (throws e) g s h k q = h q
  goes_on-continue undefined g s h k q = h q
  goes_on-continue terminates g s h k q = h q

  goes_on-then :
      (f g : S → Outcome (Unit {0}) × S) (s : S)
      → (GoesOn (f s).0 → P (f s).1)
      → ((u : S) → P u → GoesOn (g u).0 → P (g u).1)
      → GoesOn ((f >> g) s).0
      → P ((f >> g) s).1
  goes_on-then f g s h k q = goes_on-continue (f s).0 g (f s).1 h k q

module _ ⦃J : JsonLib⦄ {T : Type 0} where
  pub elapse-keeps :
      (P : Timed T → Type 0) (t : Timed T)
      → P (thread_runs (one_less t)).1
      → ((u : Timed T) → P u → P (thread_runs u).1)
      → P (elapse t).1
  unfolding elapse
  elapse-keeps P t h k =
      keeps_then P (thread_runs >> thread_runs) thread_runs (one_less t)
        (keeps_then P thread_runs thread_runs (one_less t) h k) k

module _ ⦃J : JsonLib⦄ {T : Type 0} ⦃tr : Transport T⦄ {P : Session T → Type 0}
    (k : Keeping P) where
  thread_runs-keeps : (t : Timed T) → P t.session → P (thread_runs t).1.session
  unfolding thread_runs moves
  thread_runs-keeps t v =
      keeps_if (λ (u : Timed T). P u.session) (is_due t) _ _
        (beat-keeps k false t.session.heartbeat t.session refl v) v

  -- What the parts of the events and a WELCOME keep, every moment keeps.
  pub timed_step-keeps :
      ((m : Message) (s : Session T) → P s → P (process_welcome m s).1)
      → (m : Moment T) (t : Timed T) → P t.session
      → P (timed_step m t).1.session
  unfolding timed_step
  timed_step-keeps w second t v =
      elapse-keeps (λ u. P u.session) t (thread_runs-keeps (one_less t) v) thread_runs-keeps
  timed_step-keeps w thread_turn t v = thread_runs-keeps t v
  timed_step-keeps w (occurs e) t v = step-keeps k e t.session (λ m q c. w m t.session v) v

module _ ⦃J : JsonLib⦄ {T : Type 0} ⦃tr : Transport T⦄ where
  turns-Reach :
      {s : Session T} (b : Bool) (t : Timed T)
      → GoesOn (if b then moves t else (ok tt, t)).0
      → Reach s t.session
      → Reach s (if b then moves t else (ok tt, t)).1.session
  unfolding moves step
  turns-Reach true t g r = next (heartbeat_turn false) r g.0 g.1 refl
  turns-Reach false t g r = r

  thread_runs-Reach :
      {s : Session T} (t : Timed T)
      → GoesOn (thread_runs t).0
      → Reach s t.session
      → Reach s (thread_runs t).1.session
  unfolding thread_runs
  thread_runs-Reach t g r = turns-Reach (is_due t) t g r

  timed_step-Reach :
      {s : Session T} (m : Moment T) (t : Timed T)
      → GoesOn (timed_step m t).0
      → Reach s t.session
      → Reach s (timed_step m t).1.session
  unfolding timed_step elapse
  timed_step-Reach {s} second t g r =
      let P : Timed T → Type 0 = λ u. Reach s u.session in
      goes_on-then P (thread_runs >> thread_runs) thread_runs (one_less t)
        (λ h.
          goes_on-then P thread_runs thread_runs (one_less t)
            (λ k. thread_runs-Reach (one_less t) k r) (λ u q k. thread_runs-Reach u k q) h)
        (λ u q k. thread_runs-Reach u k q) g
  timed_step-Reach thread_turn t g r = thread_runs-Reach t g r
  timed_step-Reach (occurs e) t g r = next e r g.0 g.1 refl

  -- Every step goes on.
  abbrev pub AllGoOn : List (Moment T) → Timed T → Type 0
  AllGoOn [] t = Unit {0}
  AllGoOn (m ∷ ms) t = GoesOn (timed_step m t).0 × AllGoOn ms (timed_step m t).1

  timed_run-reached :
      {s : Session T} (ms : List (Moment T)) (t : Timed T)
      → AllGoOn ms t
      → Reach s t.session
      → Reach s (timed_run ms t).session
  unfolding timed_run
  timed_run-reached [] t g r = r
  timed_run-reached (m ∷ ms) t g r =
      timed_run-reached ms (timed_step m t).1 g.1 (timed_step-Reach m t g.0 r)

  pub timed_run-Reach :
      (ms : List (Moment T)) (t : Timed T) → AllGoOn ms t → Reach t.session (timed_run ms t).session
  timed_run-Reach ms t g = timed_run-reached ms t g here
