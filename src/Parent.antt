-- ===== src/Parent.antt =====
-- sandbox/sandbox/parent: the process that sets everything up, starts the child and cleans up.
pub mod Environment
pub mod Steps
pub mod Run
pub mod Held
pub mod Ends
pub mod Released
pub mod Result
pub mod Settled
pub mod Sent
mod Tests
