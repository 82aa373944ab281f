-- ===== src/Vectors/Transcripts.antt =====
-- What the scenarios of tools/interop/mqtt_mosquitto_vectors.py require of the broker: the traces of
-- the runs that return, as conversations.
pub mod Rules
pub mod Acks
pub mod Capabilities
pub mod Limits
pub mod ExactlyOnce
pub mod Persistence
pub mod Retained
pub mod Aliases
pub mod Routing
pub mod FlowControl
pub mod Replays
pub mod Assigned
pub mod Identifier
