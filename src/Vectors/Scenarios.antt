-- ===== src/Vectors/Scenarios.antt =====
-- The scenarios of tools/interop/mqtt_mosquitto_vectors.py, one function each, with the arguments
-- of the source: the broker's executable and Mosquitto's modules.
pub mod Acks
pub mod Capabilities
pub mod Limits
pub mod ExactlyOnce
pub mod Persistence
pub mod Retained
pub mod Aliases
pub mod Routing
pub mod FlowControl
pub mod Replays
pub mod Assigned
