-- ===== src/Config.antt =====
-- sandbox/sandbox/config: the configuration and what `Validate` accepts.
pub mod Types
pub mod Environment
pub mod Capability
pub mod Remote
pub mod Binds
pub mod Validate
mod Tests
