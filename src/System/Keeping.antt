-- ===== src/System/Keeping.antt =====
-- What the steps of the program keep: those of the session, and what the transport does besides.
use barbarossa.Common.{String, Bool, ◌≢◌, inl, inr}
use barbarossa.Json.{JsonLib}
use barbarossa.Transport.{client_thread}
use barbarossa.Session.{Session}
use barbarossa.Session.Run.{
  Event, attach, transport_becomes, join, register, listen, leaves, receive, run_next,
  heartbeat_turn, step,
}
use barbarossa.WebSocket.{WebSocket, connect_begin}
use barbarossa.WebSocket.Callbacks.{on_client_open, on_client_close, on_client_fail}
use barbarossa.WebSocket.Receive
use barbarossa.WebSocket.Receive.{on_client_message}
use barbarossa.Main.{web_transport, session_web, session_handler, on_signal}
use barbarossa.Main.Program.{on_transport}
use barbarossa.System.{
  SystemEvent, system_step, SystemReach, here, next, opened, closed, failed, received, attaching,
  detaching, connecting, listening, signalled, joining, registering, context_runs, heartbeat_moves,
}
use barbarossa.System.Simulation.{received-cases}

module _ ⦃J : JsonLib⦄ where
  -- What `P` asks: that it is kept by the callbacks and by `Connect`, by `Attach` and `Detach`, and by the
  -- events of a session whose transport stays the same object.
  pub record SystemKeeping (P : Session WebSocket → Type 0) : Type 0 where
    pub opens : (s : Session WebSocket) → P s → P (on_transport on_client_open s).1
    pub closes : (s : Session WebSocket) → P s → P (on_transport on_client_close s).1
    pub fails : (s : Session WebSocket) → P s → P (on_transport on_client_fail s).1
    pub begins_connect : (s : Session WebSocket) → P s → P (on_transport connect_begin s).1
    pub attaches : (s : Session WebSocket) → P s → P (Receive.attach s).1
    pub detaches : (s : Session WebSocket) → P s → P (Receive.detach s).1
    pub events :
        (e : Event WebSocket) (s : Session WebSocket)
        → ((w : WebSocket) → e ≢ attach w)
        → ((w : WebSocket) → e ≢ transport_becomes w)
        → P s
        → P (step e s).1

  module _ {P : Session WebSocket → Type 0} (k : SystemKeeping P) where
    received-keeps :
        (is_text : Bool) (text : String) (s : Session WebSocket)
        → P s
        → P (on_client_message is_text text s).1
    unfolding step
    received-keeps is_text text s v = elim (received-cases is_text text s) [
      | inl p ↦ rw p v
      | inr (m, p) ↦ rw p (k.events (receive m) s (λ w q. cc) (λ w q. cc) v)
    ]

    system_step-keeps : (e : SystemEvent) (s : Session WebSocket) → P s → P (system_step e s).1
    unfolding system_step step on_signal
    system_step-keeps opened s v = k.opens s v
    system_step-keeps closed s v = k.closes s v
    system_step-keeps failed s v = k.fails s v
    system_step-keeps connecting s v = k.begins_connect s v
    system_step-keeps attaching s v = k.attaches s v
    system_step-keeps detaching s v = k.detaches s v
    system_step-keeps (received b text) s v = received-keeps b text s v
    system_step-keeps listening s v = k.events listen s (λ w q. cc) (λ w q. cc) v
    system_step-keeps signalled s v = k.events (leaves client_thread) s (λ w q. cc) (λ w q. cc) v
    system_step-keeps (joining realm) s v = k.events (join realm) s (λ w q. cc) (λ w q. cc) v
    system_step-keeps (registering name f) s v =
        k.events (register name f) s (λ w q. cc) (λ w q. cc) v
    system_step-keeps (context_runs alive) s v =
        k.events (run_next alive) s (λ w q. cc) (λ w q. cc) v
    system_step-keeps (heartbeat_moves b) s v =
        k.events (heartbeat_turn b) s (λ w q. cc) (λ w q. cc) v

    -- What is kept by the steps holds in every session of the program that is reached.
    pub SystemReach-keeps : {s u : Session WebSocket} → SystemReach s u → P s → P u
    SystemReach-keeps here v = v
    SystemReach-keeps (next {t = t} e r a b p) v =
        rw p (system_step-keeps e t (SystemReach-keeps r v))
