-- ===== src/Mqtt.antt =====
-- internal/mqtt: the MQTT client.
pub mod Match
pub mod Client
pub mod Options
