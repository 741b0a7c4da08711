-- ===== src/Daemon.antt =====
-- internal/daemon: the node's parts that use the registry, and their wiring.
pub mod Peers
pub mod Store
pub mod Proxy
pub mod Api
pub mod Node
pub mod Running
pub mod Agreement
