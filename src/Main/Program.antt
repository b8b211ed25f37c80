-- ===== src/Main/Program.antt =====
-- src/main.cpp: `main` from the registration of the operation to its end, without the TLS handler and the
-- check of the arguments.
use barbarossa.Common.{ℕ, String, Option, none, some}
use barbarossa.Errors.Outcome.{uncaught, Outcome, ok, throws, undefined, terminates}
use barbarossa.Errors.Exec.{Action}
use barbarossa.Json.{JsonLib}
use barbarossa.Session.{Session, initial, register_operation, listen_begin, listen_end}
use barbarossa.Session.Join.{join_begin, join_end}
use barbarossa.WebSocket.{WebSocket, Client, create, connect_begin, connect_end}
use barbarossa.WebSocket.Receive.{attach, detach}
use barbarossa.Main.{web_transport, session_web, session_handler, say_hello, after_try}

-- The value of a call is not used.
abbrev pub discard : Outcome ℕ → Outcome (Unit {0})
discard (ok n) = ok tt
discard (throws e) = throws e
discard undefined = undefined
discard terminates = terminates

module _ ⦃J : JsonLib⦄ where
  -- What `main` does gives an outcome, or `none` where it still waits.
  abbrev pub Run : Type 0
  Run = Session WebSocket → Option (Outcome (Unit {0})) × Session WebSocket

  abbrev pub go_on : Option (Outcome (Unit {0})) → Run → Run
  go_on (some (ok u)) next s = next s
  go_on r next s = (r, s)

  -- A call, and then the rest of the program.
  abbrev pub calls : Action (Session WebSocket) → Run → Run
  calls f next s = let (r, s') = f s in go_on (some r) next s'

  -- What the other threads do while `main` waits.
  abbrev pub meanwhile : Action (Session WebSocket) → Run → Run
  meanwhile f next s = let (r, s') = f s in go_on (some (uncaught r)) next s'

  -- The end of a wait, which gives its result or goes on waiting.
  abbrev pub waits : (Session WebSocket → Option (Outcome (Unit {0}))) → Run → Run
  waits result next s = go_on (result s) next s

  abbrev pub on_transport : Action WebSocket → Action (Session WebSocket)
  on_transport f s = let (r, w) = f s.transport in (r, record s { transport = w })

  -- What happens on other threads during the three waits of `main`.
  pub record Others : Type 0 where
    pub connecting : Action (Session WebSocket)
    pub joining : Action (Session WebSocket)
    pub listening : Action (Session WebSocket)

  abbrev pub done : Run
  done s = (some (ok tt), s)

  -- The `try` block: its last call, its last two, and all three.
  abbrev pub then_listen : Others → Run
  then_listen o = calls listen_begin (meanwhile o.listening (waits listen_end done))

  abbrev pub then_join : Others → String → Run
  then_join o realm =
      calls (join_begin realm)
        (meanwhile o.joining (waits (λ s. some (discard (join_end s))) (then_listen o)))

  unfoldable pub try_block : Others → String → Run
  try_block o realm =
      calls (on_transport connect_begin)
        (meanwhile o.connecting (waits (λ s. connect_end s.transport) (then_join o realm)))

  abbrev caught : Option (Outcome (Unit {0})) → Option (Outcome (Unit {0}))
  caught none = none
  caught (some r) = some (after_try r)

  -- The `catch` clauses and what follows them, from how the `try` block ended.
  abbrev pub after_try_block :
      Option (Outcome (Unit {0})) × Session WebSocket
      → Option (Outcome (Unit {0})) × Session WebSocket
  after_try_block (r, s) = go_on (caught r) (meanwhile detach done) s

  abbrev handled : Others → String → Run
  handled o realm s = after_try_block (try_block o realm s)

  -- `main` once its objects exist.
  unfoldable pub run_main : Others → String → Run
  run_main o realm = meanwhile attach (handled o realm)

  -- The objects of `main`, with the operation registered.
  unfoldable pub start : Client → Session WebSocket
  start c = (register_operation "say_hello" say_hello (initial (create c))).1
