-- ===== src/Tests.antt =====
-- Runs of the models on concrete inputs, and the theorems at inputs that meet their hypotheses.
pub mod Ids
pub mod Buffer
pub mod Rooms
pub mod Balancing
pub mod Codec
pub mod Sending
pub mod Frames
pub mod Guaranteeing
pub mod Live
pub mod Connections
pub mod Receiving
