-- ===== src/Mqtt.antt =====
-- The MQTT side of the firmware: Core/mqtt_user.c.
pub mod Topics
pub mod Context
pub mod Session
pub mod AppThread
pub mod Device
pub mod Commands
pub mod Client
pub mod Runs
pub mod Subscriptions
