-- ===== src/Core.antt =====
-- src/picket/core: the values and the domain models.
pub mod Json
pub mod Models
pub mod Errors
pub mod Steps
pub mod Validate
pub mod WatchSpec
pub mod Specs
