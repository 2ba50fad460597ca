-- ===== src/Isolation.antt =====
-- sandbox/sandbox/fs/isolation.go: the mounts of the sandbox, made through descriptors.
pub mod Calls
pub mod Mounts
pub mod Targets
pub mod Devices
pub mod Sources
pub mod Balance
pub mod Balanced
pub mod Walked
pub mod Released
pub mod Stage
pub mod Held
pub mod Trusted
pub mod Staged
pub mod Owned
pub mod Steps
pub mod Filled
pub mod Overlay
mod Tests
