-- ===== src/Message/Envelope.antt =====
-- message/message.proto: the envelope and its one-of. A Go string or byte slice is the list of its
-- bytes, an enum is its number, a pointer that the code may find nil is an option.
use live_chat_room.Prelude.{ℕ, Bool, Option, List}

abbrev pub Bytes : Type 0
Bytes = List ℕ

pub record CreateRoom : Type 0 where
  pub room_id : ℕ
  pub name : Bytes
  pub max_members : ℕ
  pub password : Bytes

pub record JoinRoom : Type 0 where
  pub password : Bytes

pub record ChatMessage : Type 0 where
  pub content : Bytes
  pub message_type : ℕ
  pub reply_to : ℕ

-- The acknowledgements of a room: they name the room, and no message.
pub record RoomAck : Type 0 where
  pub room_id : ℕ
  pub status : ℕ
  pub reason : Bytes

pub record MessageFetchRequest : Type 0 where
  pub message_id : Bytes
  pub timestamp : ℕ

pub record MessageFetchResponse : Type 0 where
  pub message_id : Bytes
  pub exists : Bool
  pub status : ℕ
  pub reason : Bytes

pub record RoomMessageFetchRequest : Type 0 where
  pub room_id : ℕ
  pub before_message_id : ℕ
  pub limit : ℕ
  pub since_timestamp : ℕ

pub record Heartbeat : Type 0 where
  pub timestamp : ℕ

-- `MessageStatus_MESSAGE_STATUS_SUCCESS`
abbrev pub message_status_success : ℕ
message_status_success = 3

pub data Content : Type 0 where
  allocate_room_id : Content
  allocate_room_id_ack : RoomAck → Content
  create_room : Option CreateRoom → Content
  create_room_ack : RoomAck → Content
  join_room : Option JoinRoom → Content
  join_room_ack : RoomAck → Content
  leave_room : Content
  leave_room_ack : RoomAck → Content
  close_room : Content
  close_room_ack : RoomAck → Content
  chat_message : Option ChatMessage → Content
  chat_message_ack : RoomAck → Content
  message_fetch_request : Option MessageFetchRequest → Content
  message_fetch_response : MessageFetchResponse → Content
  room_message_fetch_request : Option RoomMessageFetchRequest → Content
  room_message_fetch_response : RoomAck → Content
  heartbeat : Option Heartbeat → Content
  heartbeat_ack : Content

pub record Envelope : Type 0 where
  pub connection_seq_id : ℕ
  pub message_id : Bytes
  pub message : Option Content
