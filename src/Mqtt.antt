-- ===== src/Mqtt.antt =====
-- The MQTT codec and topic filters, src/mqtt/mod.zig.
pub mod Error
pub mod RemainingLength
pub mod TopicFilter
mod Samples
