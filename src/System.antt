-- ===== src/System.antt =====
-- The running program: the session over the transport of the repository, with every callback, call and
-- thread as a step, in any order.
pub mod Simulation
pub mod Keeping
pub mod Closing
pub mod Wire
pub mod Frames
pub mod Dropped
pub mod Replies
pub mod Running
mod Tests
mod RunningTests
use barbarossa.Common.{String, Bool, ◌≡◌, ◌≢◌, refl}
use barbarossa.Errors.Outcome.{uncaught, Outcome, ok, terminates, undefined}
use barbarossa.Errors.Exec.{Action}
use barbarossa.Json.{JsonLib}
use barbarossa.Session.{Session, Operation, register_operation, listen_begin}
use barbarossa.Session.Join.{join_begin, run_posted}
use barbarossa.Session.Run.{beat}
use barbarossa.WebSocket.{WebSocket, connect_begin}
use barbarossa.WebSocket.Callbacks.{on_client_open, on_client_close, on_client_fail}
use barbarossa.WebSocket.Receive.{attach, detach, on_client_message}
use barbarossa.Main.{web_transport, session_web, session_handler, on_signal}
use barbarossa.Main.Program.{on_transport}

module _ ⦃J : JsonLib⦄ where
  -- The callbacks of the client, the calls of `main`, a signal, a handler that the I/O context runs, and a
  -- move of the heartbeat thread.
  pub data SystemEvent : Type 0 where
    opened closed failed : SystemEvent
    received : Bool → String → SystemEvent
    attaching detaching connecting listening signalled : SystemEvent
    joining : String → SystemEvent
    registering : String → Operation → SystemEvent
    context_runs heartbeat_moves : Bool → SystemEvent

  -- A handler that the I/O context runs, on the client's thread: that thread's function is `client_t::run`,
  -- which lets the exceptions of handlers pass.
  abbrev pub on_client_thread : Action (Session WebSocket) → Action (Session WebSocket)
  on_client_thread f s = let (r, s') = f s in (uncaught r, s')

  unfoldable pub system_step : SystemEvent → Action (Session WebSocket)
  system_step opened s = on_client_thread (on_transport on_client_open) s
  system_step closed s = on_client_thread (on_transport on_client_close) s
  system_step failed s = on_client_thread (on_transport on_client_fail) s
  system_step (received is_text text) s = on_client_thread (on_client_message is_text text) s
  system_step attaching s = attach s
  system_step detaching s = detach s
  system_step connecting s = on_transport connect_begin s
  system_step listening s = listen_begin s
  system_step signalled s = on_client_thread on_signal s
  system_step (joining realm) s = join_begin realm s
  system_step (registering name f) s = register_operation name f s
  system_step (context_runs alive) s = on_client_thread (run_posted alive) s
  system_step (heartbeat_moves no_timeout) s = beat no_timeout s.heartbeat s

  -- `u` comes about from `s` by steps of which none ended the process or was undefined.
  pub data SystemReach (s : Session WebSocket) : Session WebSocket → Type 0 where
    here : SystemReach s s
    next :
        {t u : Session WebSocket} (e : SystemEvent)
        → SystemReach s t
        → (system_step e t).0 ≢ terminates
        → (system_step e t).0 ≢ undefined
        → u ≡ (system_step e t).1
        → SystemReach s u

  -- A step whose call returns.
  pub SystemReach-returns :
      {s : Session WebSocket} (t : Session WebSocket) (e : SystemEvent)
      → SystemReach s t
      → (system_step e t).0 ≡ ok tt
      → SystemReach s (system_step e t).1
  SystemReach-returns t e r p = next e r (λ q. cc) (λ q. cc) refl
