-- ===== src/Commands/Client.antt =====
-- cmd/corenet/main.go and cmd/corenet/connect.go: the command line interface.
pub mod Options
pub mod Ending
pub mod Parsing
pub mod Requests
pub mod Showing
pub mod Asking
pub mod Files
pub mod Connecting
pub mod Atomic
pub mod Dispatch
pub mod Connected
pub mod Tests
pub mod Resolver
pub mod Socket
