-- ===== src/Network.antt =====
-- sandbox/sandbox/network: the bridge configuration, the host side of the bridge, the firewall and the
-- child's interface.
pub mod Address
pub mod Types
pub mod Host
pub mod State
pub mod Firewall
pub mod Bridge
pub mod Loopback
pub mod Exported
mod Tests
