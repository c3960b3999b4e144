-- ===== src/Message.antt =====
-- The package message: the 128-bit identifiers of messages, their generator, the envelopes and their codec.
pub mod GlobalId
pub mod Generator
pub mod Envelope
pub mod Codec
