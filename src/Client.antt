-- ===== src/Client.antt =====
-- client/: reliable sending, and the order and deduplication of what is received.
pub mod Reliability
pub mod MessageProcessor
