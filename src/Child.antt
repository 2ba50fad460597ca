-- ===== src/Child.antt =====
-- sandbox/sandbox/child/child.go: the process in the new namespaces.
pub mod Capabilities
pub mod Start
