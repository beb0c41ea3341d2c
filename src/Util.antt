-- ===== src/Util.antt =====
-- util: the copy loops of a connection, and the logger.
pub mod Copy
pub mod Logger
