-- ===== src/Resources.antt =====
-- sandbox/sandbox/resources: the file-size limit and the cgroup.
pub mod Storage
pub mod Files
pub mod Cgroup
pub mod Lifecycle
pub mod Released
pub mod Delegation
pub mod Settings
pub mod Prepared
mod Tests
