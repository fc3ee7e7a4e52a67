-- ===== src/Nbe.antt =====
-- The package nbe: the protocol's values, its frames and their readers and writers.
pub mod Types
pub mod Action
pub mod Helpers
pub mod Payload
pub mod Response
pub mod Request
pub mod Mock
pub mod Client
pub mod Fixtures
mod Examples
