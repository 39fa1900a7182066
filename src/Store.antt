-- ===== src/Store.antt =====
-- ConfigStore.h: the configuration in the file /config.json.
pub mod Table
pub mod File
pub mod Back
pub mod Rows
pub mod Read
pub mod Whole
mod Tests
