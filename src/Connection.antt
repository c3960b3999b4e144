-- ===== src/Connection.antt =====
-- connection/: the rooms, connections and reliability layer of a connection server.
pub mod RoomManager
pub mod Guarantor
pub mod MemberManager
pub mod ConnectionManager
pub mod LiveRoomManager
