-- ===== src/Iot.antt =====
-- The sensor and the actuator: IoTCatalog.h, IoTCommand.h, IoTState.h and IoTService.h.
pub mod Catalog
pub mod Command
pub mod Config
pub mod Rule
pub mod Hours
pub mod Service
pub mod Saved
pub mod Sensor
pub mod Control
mod Tests
