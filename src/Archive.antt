-- ===== src/Archive.antt =====
-- sandbox/sandbox/rootfs/extract.go: which entries of an archive are extracted, and where to.
pub mod Names
pub mod Disk
pub mod Extract
pub mod Files
pub mod Inside
pub mod Limits
pub mod Bounds
pub mod Within
mod Tests
