-- ===== src/Specs.antt =====
-- The library on flow specs, pkg/flow.
pub mod Validate
pub mod Normalize
pub mod Diff
mod Tests
