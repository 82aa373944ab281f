-- ===== src/Vectors.antt =====
-- tools/interop/mqtt_mosquitto_vectors.py
pub mod World
pub mod Socket
pub mod Mosquitto
pub mod Harness
pub mod Broker
pub mod Runs
pub mod Ends
pub mod Scenarios
pub mod Transcripts
pub mod Heard
pub mod Deliveries
pub mod Failures
pub mod Main
pub mod Starts
mod Samples
