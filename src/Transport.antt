-- ===== src/Transport.antt =====
-- include/barbarossa/transport.hpp and transport_handler.hpp: the two interfaces between the session and
-- the transport.
use barbarossa.Common.{String, Bool}
use barbarossa.Errors.Exec.{Action}
use barbarossa.Json.{JsonLib}
use barbarossa.Message.{Message}

-- The threads that call into the transport: its own websocket client thread, and any other.
pub data Caller : Type 0 where
  client_thread other_thread : Caller

module _ ⦃J : JsonLib⦄ where
  -- `class Transport`, as the session uses it, over the state `T` of the transport.
  pub record Transport (T : Type 0) : Type 0 where
    pub is_connected : T → Bool
    pub send_message : Message → Action T
    pub disconnect : Caller → Action T

  -- `class TransportHandler`, as the transport uses it, over the state `H` that a handler changes.
  pub record TransportHandler (H : Type 0) : Type 0 where
    pub on_attach : Action H
    pub on_detach : String → Action H
    pub on_message : Message → Action H
