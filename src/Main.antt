-- ===== src/Main.antt =====
-- src/main.cpp: the wiring of the session and the transport, the operation `say_hello`, the signal
-- handler and the `catch` clauses.
pub mod Program
pub mod Wiring
pub mod Phases
pub mod Unjoined
pub mod Joined
pub mod Greeting
pub mod Catching
pub mod Exit
pub mod Exiting
mod Tests
mod EndingTests
use Prim.Native.String.{◌++◌ as text_append}
use barbarossa.Common.{refl, String, Bool, true, false, Option, none, some, if◌then◌else◌}
use barbarossa.Errors.{Exception}
use barbarossa.Errors.Hierarchy.{is_abort_error, is_timeout_error, is_network_error}
use barbarossa.Errors.Outcome
use barbarossa.Errors.Outcome.{Outcome, ok, throws, undefined, terminates, or_throw}
use barbarossa.Errors.Exec.{Action}
use barbarossa.Json.{JsonLib, bad_type}
use barbarossa.Transport.{Transport, TransportHandler, Caller, client_thread}
use barbarossa.Session.{Session, Operation}
use barbarossa.Session
use barbarossa.Session.Handlers
use barbarossa.WebSocket.{WebSocket, is_connected, disconnect}
use barbarossa.WebSocket.Callbacks
use barbarossa.WebSocket.Receive.{HasWebSocket}

module _ ⦃J : JsonLib⦄ where
  open J use {Json, object, of_string, get_string, find_key, set_key}

  abbrev pub greeting : String → String
  greeting name = text_append "Hello " (text_append name "!")

  abbrev greet : Option Json → Outcome Json
  greet none = set_key object "say_hello" (of_string "Hello World!")
  greet (some v) =
      Outcome.◌>>=◌ (or_throw bad_type (get_string v))
        λ name. set_key object "say_hello" (of_string (greeting name))

  unfoldable pub say_hello : Operation
  say_hello arguments = greet (find_key arguments "name")

  -- The transport that the session uses, and the handler that the transport calls. The client calls the
  -- close callback while its thread is joined.
  instance abbrev pub web_transport : Transport WebSocket
  web_transport = record {
    is_connected = is_connected;
    send_message = Callbacks.send_message;
    disconnect = disconnect Callbacks.on_client_close;
  }

  instance abbrev pub session_web : HasWebSocket (Session WebSocket)
  session_web = record {
    web = λ s. s.transport;
    put = λ w s. record s { transport = w };
    web-put = λ w s. refl;
    put-put = λ v w s. refl;
  }

  instance abbrev pub session_handler : TransportHandler (Session WebSocket)
  session_handler = record {
    on_attach = λ s. Session.on_attach s.transport s;
    on_detach = Session.on_detach;
    on_message = Handlers.on_message;
  }

  -- The handler of SIGINT and SIGTERM, which the I/O context runs: on the client's thread.
  unfoldable pub on_signal : Action (Session WebSocket)
  on_signal = Session.leave client_thread

-- The clauses behind the `try` of `main`, in their order.
pub data Caught : Type 0 where
  abort_clause timeout_clause network_clause : Caught

unfoldable pub catch_clause : Exception → Option Caught
catch_clause e =
    if is_abort_error e
    then some abort_clause
    else if is_timeout_error e
    then some timeout_clause
    else if is_network_error e
    then some network_clause
    else none

-- How the `try` block ends: `main` goes on to detach the transport, or the process ends because no clause
-- takes the exception.
abbrev go_on : Option Caught → Outcome (Unit {0})
go_on (some c) = ok tt
go_on none = terminates

unfoldable pub after_try : Outcome (Unit {0}) → Outcome (Unit {0})
after_try (ok u) = ok tt
after_try (throws e) = go_on (catch_clause e)
after_try undefined = undefined
after_try terminates = terminates
