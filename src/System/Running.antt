-- ===== src/System/Running.antt =====
-- The runs of `main`, where what happens in its waits are steps of the program, are runs of the program.
use barbarossa.Common.{◌<◌, ◌^◌, String, ◌≢◌, refl, ap, Option, some, none, List, [], ◌∷◌, arith}
use barbarossa.Errors.Outcome.{uncaught, Outcome, ok, throws, terminates, undefined}
use barbarossa.Errors.Exec.{Action, pure, continue, ◌>>◌}
use barbarossa.Json.{JsonLib}
use barbarossa.Session.{Session, initial, register_operation, listen_begin, listen_end}
use barbarossa.Session.Join.{join_begin, join_end}
use barbarossa.Session.Invariant.{Inv, Reach-Inv}
use barbarossa.Session.Contract.{Moves}
use barbarossa.Session.Refines.{view, Reach-Moves}
use barbarossa.Session.Bounds.{Reach-bound}
use barbarossa.System.Wire.{AllWritten, SystemReach-AllWritten}
use barbarossa.System.Simulation.{SystemReach-Reach}
use barbarossa.WebSocket.{WebSocket, Client, create, connect_begin, connect_end}
use barbarossa.WebSocket.Receive.{attach, detach}
use barbarossa.Main.{web_transport, session_web, session_handler, after_try, say_hello}
use barbarossa.Main.Program.{
  discard, on_transport, Run, Others, go_on, calls, meanwhile, waits, done, run_main, try_block,
  then_join, then_listen, after_try_block, start,
}
use barbarossa.Main.Phases.{others}
use barbarossa.System.{
  SystemEvent, system_step, SystemReach, here, next, attaching, detaching, connecting, joining,
  listening, registering,
}

module _ ⦃J : JsonLib⦄ where
  -- Steps in a row, up to the first that does not return.
  unfoldable pub happen : List SystemEvent → Action (Session WebSocket)
  happen [] = pure tt
  happen (e ∷ es) = system_step e >> happen es

  -- Neither the end of the process nor undefined behaviour.
  abbrev pub Goes : Outcome (Unit {0}) → Type 0
  Goes r = (r ≢ terminates) × (r ≢ undefined)

  abbrev pub GoesOn : Option (Outcome (Unit {0})) → Type 0
  GoesOn r = (r ≢ some terminates) × (r ≢ some undefined)

  -- What happens in the three waits of `main`.
  abbrev pub meantime : List SystemEvent → List SystemEvent → List SystemEvent → Others
  meantime cs js ls = others (happen cs) (happen js) (happen ls)

  module _ (s₀ : Session WebSocket) where
    -- A run from a session of the program ends in one.
    Stays : Run → Type 0
    Stays f = (s : Session WebSocket) → SystemReach s₀ s → GoesOn (f s).0 → SystemReach s₀ (f s).1

    step-reached :
        (e : SystemEvent) (s : Session WebSocket)
        → SystemReach s₀ s
        → Goes (system_step e s).0
        → SystemReach s₀ (system_step e s).1
    step-reached e s r (a, b) = next e r a b refl

    continue-reached :
        (r : Outcome (Unit {0})) (f : Action (Session WebSocket)) (s : Session WebSocket)
        → (Goes r → SystemReach s₀ s)
        → (SystemReach s₀ s → Goes (f s).0 → SystemReach s₀ (f s).1)
        → Goes (continue r (λ _. f) s).0
        → SystemReach s₀ (continue r (λ _. f) s).1
    continue-reached (ok u) f s h k g = k (h (λ q. cc, λ q. cc)) g
    continue-reached (throws e) f s h k g = h g
    continue-reached undefined f s h k g = h g
    continue-reached terminates f s h k g = h g

    happen-reached :
        (es : List SystemEvent) (s : Session WebSocket)
        → SystemReach s₀ s
        → Goes (happen es s).0
        → SystemReach s₀ (happen es s).1
    unfolding happen
    happen-reached [] s r g = r
    happen-reached (e ∷ es) s r g =
        continue-reached (system_step e s).0 (happen es) (system_step e s).1 (step-reached e s r)
          (happen-reached es (system_step e s).1) g

    go_on-reached :
        (r : Option (Outcome (Unit {0}))) (f : Run) (s : Session WebSocket)
        → Stays f
        → (GoesOn r → SystemReach s₀ s)
        → GoesOn (go_on r f s).0
        → SystemReach s₀ (go_on r f s).1
    unfolding Stays
    go_on-reached (some (ok u)) f s k h g = k s (h (λ q. cc, λ q. cc)) g
    go_on-reached (some (throws e)) f s k h g = h g
    go_on-reached (some undefined) f s k h g = h g
    go_on-reached (some terminates) f s k h g = h g
    go_on-reached none f s k h g = h g

    calls-Stays :
        (f : Action (Session WebSocket)) (k : Run)
        → ((s : Session WebSocket) → SystemReach s₀ s → Goes (f s).0 → SystemReach s₀ (f s).1)
        → Stays k
        → Stays (calls f k)
    unfolding Stays
    calls-Stays f k h n s r g =
        go_on-reached (some (f s).0) k (f s).1 n
          (λ c. h s r (λ q. c.0 (ap some q), λ q. c.1 (ap some q))) g

    meanwhile-Stays :
        (f : Action (Session WebSocket)) (k : Run)
        → ((s : Session WebSocket) → SystemReach s₀ s → Goes (f s).0 → SystemReach s₀ (f s).1)
        → Stays k
        → Stays (meanwhile f k)
    unfolding Stays
    meanwhile-Stays f k h n s r g =
        go_on-reached (some (uncaught (f s).0)) k (f s).1 n
          (λ c. h s r (λ q. ground (arith, c.0), λ q. ground (arith, c.1))) g

    waits-Stays :
        (result : Session WebSocket → Option (Outcome (Unit {0}))) (k : Run)
        → Stays k
        → Stays (waits result k)
    unfolding Stays
    waits-Stays result k n s r g = go_on-reached (result s) k s n (λ c. r) g

    done-Stays : Stays done
    unfolding Stays
    done-Stays s r g = r

    detach-Stays : Stays (meanwhile detach done)
    unfolding system_step
    detach-Stays = meanwhile-Stays detach done (step-reached detaching) done-Stays

    after_try_block-reached :
        (r : Option (Outcome (Unit {0}))) (s : Session WebSocket)
        → (GoesOn r → SystemReach s₀ s)
        → GoesOn (after_try_block (r, s)).0
        → SystemReach s₀ (after_try_block (r, s)).1
    unfolding after_try
    after_try_block-reached none s h g = h g
    after_try_block-reached (some (ok u)) s h g =
        go_on-reached (some (ok u)) (meanwhile detach done) s detach-Stays h g
    after_try_block-reached (some (throws e)) s h g =
        go_on-reached (some (after_try (throws e))) (meanwhile detach done) s detach-Stays
          (λ c. h (λ q. cc, λ q. cc)) g
    after_try_block-reached (some undefined) s h g = h g
    after_try_block-reached (some terminates) s h g = h g

    module _ (cs js ls : List SystemEvent) (realm : String) where
      abbrev m : Others
      m = meantime cs js ls

      then_listen-Stays : Stays (then_listen m)
      unfolding system_step
      then_listen-Stays = calls-Stays listen_begin _ (step-reached listening) (
          meanwhile-Stays (happen ls) _ (happen-reached ls)
            (waits-Stays listen_end done done-Stays))

      then_join-Stays : Stays (then_join m realm)
      unfolding system_step
      then_join-Stays = calls-Stays (join_begin realm) _ (step-reached (joining realm)) (
          meanwhile-Stays (happen js) _ (happen-reached js)
            (waits-Stays (λ s. some (discard (join_end s))) (then_listen m) then_listen-Stays))

      try_block-Stays : Stays (try_block m realm)
      unfolding try_block system_step
      try_block-Stays = calls-Stays (on_transport connect_begin) _ (step-reached connecting) (
          meanwhile-Stays (happen cs) _ (happen-reached cs)
            (waits-Stays (λ s. connect_end s.transport) (then_join m realm) then_join-Stays))

      run_main-Stays : Stays (run_main m realm)
      unfolding run_main system_step Stays
      run_main-Stays = meanwhile-Stays attach _ (step-reached attaching) λ s r.
          after_try_block-reached (try_block m realm s).0 (try_block m realm s).1
            (try_block-Stays s r)

  start-SystemReach : (c : Client) → SystemReach (initial (create c)) (start c)
  unfolding start system_step register_operation
  start-SystemReach c = next (registering "say_hello" say_hello) here (λ q. cc) (λ q. cc) refl

  -- A run of `main` in whose three waits any callbacks, posted handlers, heartbeat rounds, signals and calls
  -- happen in any order, and which neither ends the process nor is undefined, is a run of the program. So
  -- the session keeps its invariant and its contract, its id is a 32-bit number, and every text that it gave
  -- to the client is a message of the session written out, with nothing but HELLOs before it has an id.
  pub run_main-SystemReach :
      (cs js ls : List SystemEvent) (realm : String) (c : Client)
      → let (r, s) = run_main (meantime cs js ls) realm (start c) in
        GoesOn r
        → SystemReach (initial (create c)) s
          × Inv s
          × Moves (view (initial (create c))) (view s)
          × (s.session_id < 2 ^ 32)
          × AllWritten s.session_id s.transport.commands
  unfolding Stays create
  run_main-SystemReach cs js ls realm c g =
      let reached =
        run_main-Stays (initial (create c)) cs js ls realm (start c) (start-SystemReach c) g in
      let r = SystemReach-Reach reached in
      (
        reached,
        Reach-Inv (create c) r,
        Reach-Moves r,
        (Reach-bound (create c) r).0,
        SystemReach-AllWritten reached refl refl tt,
      )
