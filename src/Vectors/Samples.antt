-- ===== src/Vectors/Samples.antt =====
-- Runs of tools/interop/mqtt_mosquitto_vectors.py on given packets.
pub mod Modules
pub mod Delivery
pub mod Replies
pub mod Streams
pub mod Sessions
pub mod Programs
