-- ===== src/HomeAssistant.antt =====
-- The package homeassistant: the discovery messages of the boiler's entities.
pub mod Config
pub mod Build
pub mod Entities
pub mod Discovery
pub mod Topics
pub mod Controls
pub mod Availability
mod Examples
