-- ===== src/Discovery.antt =====
-- internal/discovery: running Docker containers as services.
pub mod Container
pub mod Polling
