-- ===== src/Controller.antt =====
-- The controller, controller/internal.
pub mod Kube
pub mod Shelves
pub mod RateLimiting
pub mod Queue
pub mod Flows
pub mod Runtime
pub mod Seed
pub mod Reconcile
pub mod System
pub mod Leading
pub mod Concrete
pub mod Config
mod Tests
