-- ===== src/Net.antt =====
-- util/net: the ring buffer under each connection, and the WebSocket protocol over it.
pub mod RingBuffer
pub mod Utf8
pub mod WebSocket
