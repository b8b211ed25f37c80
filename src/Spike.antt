-- ===== src/Spike.antt =====
-- spikes/statemachine: two experiments with state machines.
pub mod Machine
pub mod Endpoint
