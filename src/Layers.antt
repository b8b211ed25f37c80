-- ===== src/Layers.antt =====
-- The two layers that know the messages: the classes of protocol.hpp, and the session with its transport,
-- which builds and reads messages field by field.
pub mod Outgoing
pub mod Incoming
mod Tests
