-- ===== src/Lib.antt =====
-- A model of barbarossa, a client of a control channel over WebSocket, and what is proved of it.
--
-- The program. main (src/main.cpp) builds a transport and a session, attaches the session to the
-- transport as its handler, connects, joins a realm and waits until the session ends. The session
-- (include/barbarossa/session.hpp, session.ipp) sends HELLO, waits for WELCOME, answers CALL messages
-- with registered operations and keeps a heartbeat thread that pings the peer. The transport
-- (include/barbarossa/websocket_transport.hpp, websocket_transport.ipp) turns messages into JSON texts
-- and runs the websocketpp client on a thread of its own, whose callbacks reach the session.
--
-- The files.
--   Errors         errors.hpp: the exceptions as one data type. Errors.Outcome is what a call gives: a
--                  value, an exception, the end of the process (`terminates`), or undefined behaviour.
--                  Errors.Exec is an action on a state that gives an outcome; the state stays as the
--                  action left it where it throws.
--   Promise        std::promise and std::future: a shared state, and whether the future was retrieved.
--   Json           nlohmann::json, which is not in the repository, as a record of operations and of laws
--                  that its documentation states. Json.Sample is a concrete instance.
--   MessageType    message_type.hpp: the codes and the printer.
--   Message        message.hpp, message.ipp: a message is its list of fields.
--   Transport      transport.hpp, transport_handler.hpp: the two interfaces, as records.
--   Session        session.hpp, session.ipp, session_state.hpp. Session.Handlers is OnMessage and what it
--                  calls, Session.Join and Session.Heartbeat are the two methods that wait, and
--                  Session.Run is the life of a session as steps in any order. Session.Parts carries a
--                  predicate through every step, given what the parts of the steps do with it, and
--                  Session.Keeping is the case that does not look at the transport. Session.Destroy is
--                  the destructor, whose Boolean is whether the heartbeat's next wait is woken.
--                  Session.Contract is what a session promises, as a view of it and the moves of the
--                  view, and Session.Refines that its steps are such moves. Session.Timed adds the
--                  seconds of the heartbeat's waits and Session.Waiting those of Join; Session.Racing
--                  adds what other threads do inside SendMessage.
--   WebSocket      websocket_transport.hpp, websocket_transport.ipp. WebSocket.Callbacks is what the client
--                  calls and SendMessage, WebSocket.Receive is what calls the handler.
--   Main           src/main.cpp: the operation say_hello, the signal handler, the catch clauses, and the
--                  transport and the session as instances of each other's interfaces. Main.Program is
--                  the program from its objects to its end; what other threads do while it waits is an
--                  argument, and `none` is a run that still waits. Main.Exit is the check of the
--                  arguments before it and the destructors after it.
--   Protocol       protocol.hpp, protocol_details.hpp: the message classes and their JSON conversions.
--                  Protocol.Codec puts the six classes together, Protocol.Typed is their details as
--                  types of the caller, Protocol.Reading what they make of any value.
--   System         The two together: the session over the transport of the repository, as steps in any
--                  order. System.Simulation makes its runs runs of the session, and System.Keeping
--                  carries a predicate through every step. An exception of a handler on the client's
--                  thread ends the process there; System.Frames says which texts raise one, with
--                  System.Replies for a CALL.
--   Layers         The classes of protocol.hpp against the messages that the session builds and reads.
--   Spike          spikes/statemachine/main.cpp (Spike.Machine) and websocket.hpp (Spike.Endpoint, with
--                  its two threads in Spike.Endpoint.Running).
--
-- How code becomes definitions. An operation is an action on the record of its object's members.
-- A call that waits is two definitions, `_begin` up to the wait and `_end` after it, and what the
-- other threads do in between are steps between the two. `Join` and the heartbeat wait for a time
-- that has no length in Session.Run: the wait ends with the promise ready or not, and a wait that found
-- it not ready is the timeout. In Session.Timed and Session.Waiting the waits have their lengths, and a
-- thread goes on in the second in which its wait ends. A heartbeat round is three steps: up to the
-- wait for the pong, the end of that wait, and where no pong came the thread's own setting of the
-- promise; `heartbeat_end` is the last two with nothing in between. `asio::dispatch` is called off the context's threads and
-- is a queue of handlers; whether `weak_self.lock()` finds the session is an argument. The
-- Boolean of `heartbeat_begin` is whether the wait returned `no_timeout`, notified or spuriously.
-- In `disconnect`, the argument `closing` stands for the callbacks that run while the thread is
-- joined, and Caller says whether the call is made on the client's thread. An exception that
-- leaves a thread's function or a `noexcept` function, a joinable thread that is assigned or
-- destroyed: each is `terminates`.
--
-- Bounds. No definition runs on fuel: every loop is structural recursion. A session id is what the JSON
-- library reads as a number without a sign, request ids and codes are read as 32-bit integers with a
-- sign, and the ids of the message classes are integers that a round trip asks to be 32-bit. The counter
-- of the state machine is an `int` whose overflow is undefined, and seconds are natural numbers.
--
-- Not modelled: mutexes, as every step is atomic, with SendMessage in Session.Racing the exception;
-- logging, except for `dump` calls that can throw; how long the destructors wait; the connection
-- handle, as a transport has one connection; log channels; what is printed; the options of the TLS
-- context, of which only the handler's catch is modelled; the zmq socket of the experiment's endpoint,
-- which is only bound.
mod Common
pub mod Errors
pub mod Promise
pub mod Json
pub mod MessageType
pub mod Message
pub mod Transport
pub mod Session
pub mod WebSocket
pub mod Main
pub mod Protocol
pub mod Spike
pub mod Layers
pub mod System
