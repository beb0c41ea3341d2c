-- ===== src/Transport.antt =====
-- internal/transport: what carries the connections of a mode.
pub mod Plain
pub mod Ssh
