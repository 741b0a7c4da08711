-- ===== src/Commands.antt =====
-- The two commands, cmd/corenetd and cmd/corenet.
pub mod Corenetd
pub mod Client
