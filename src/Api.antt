-- ===== src/Api.antt =====
-- The API server, api/internal.
pub mod Keys
pub mod Flows
pub mod Schemas
pub mod Service
pub mod Server
pub mod Registry
pub mod Config
pub mod Auth
mod Tests
