-- ===== src/Main/Exit.antt =====
-- src/main.cpp: the check of the arguments, the handler for TLS, and the end of `main`.
use barbarossa.Common.{ℕ, String, Bool, true, false, Option, none, some, List, ◌∷◌}
use barbarossa.Errors.Outcome.{Outcome, ok, throws, undefined, terminates}
use barbarossa.Errors.Exec.{Action}
use barbarossa.Json.{JsonLib}
use barbarossa.Transport.{other_thread}
use barbarossa.Session.{Session}
use barbarossa.Session.Destroy.{destroy as destroy_session}
use barbarossa.WebSocket.{WebSocket, Client, destroy as destroy_transport}
use barbarossa.Main.Program.{Run, Others, go_on, meanwhile, done, on_transport, run_main, start}

-- The handler that gives the client its TLS context: whether the options are set, from how `set_options`
-- ended. Every exception of the model is a `std::exception`.
unfoldable pub tls_init : Outcome (Unit {0}) → Outcome Bool
tls_init (ok u) = ok true
tls_init (throws e) = ok false
tls_init undefined = undefined
tls_init terminates = terminates

module _ ⦃J : JsonLib⦄ where
  -- The objects are destroyed in the reverse of their order: the session, then the transport. `no_timeout` is
  -- what the heartbeat's next wait returns.
  unfoldable pub destroy_objects : Bool → Run
  destroy_objects no_timeout =
      meanwhile (destroy_session no_timeout)
        (meanwhile (on_transport (destroy_transport other_thread)) done)

  -- What follows `Detach`, where `finishing` is what happens during `io_context.run()`.
  unfoldable pub end_main : Action (Session WebSocket) → Bool → Run
  unfolding destroy_objects
  end_main finishing no_timeout = meanwhile finishing (destroy_objects no_timeout)

  abbrev pub exit_code : Option (Outcome (Unit {0})) → Option (Outcome ℕ)
  exit_code none = none
  exit_code (some (ok u)) = some (ok 0)
  exit_code (some (throws e)) = some (throws e)
  exit_code (some undefined) = some undefined
  exit_code (some terminates) = some terminates

  finished_run :
      Action (Session WebSocket)
      → Bool
      → Option (Outcome (Unit {0})) × Session WebSocket
      → Option (Outcome ℕ)
  unfolding end_main
  finished_run finishing no_timeout (r, s) = exit_code (go_on r (end_main finishing no_timeout) s).0

  -- `main` with its arguments, the first of which is the name of the program. `clients` gives the client
  -- library's answers for an address.
  unfoldable pub main :
      (String → Client)
      → Others
      → Action (Session WebSocket)
      → Bool
      → List String
      → Option (Outcome ℕ)
  unfolding finished_run
  main clients o finishing no_timeout (program ∷ uri ∷ realm ∷ rest) =
      finished_run finishing no_timeout (run_main o realm (start (clients uri)))
  main clients o finishing no_timeout _ = some (ok 1)
