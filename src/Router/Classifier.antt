-- ===== src/Router/Classifier.antt =====
-- router/message_classifier.go: which messages are kept in Kafka, and why.
pub mod Consistent
use live_chat_room.Prelude.{ℕ, ◌+◌, Bool, true, false, Option, none, some}
use live_chat_room.Message.Envelope.{
  Content, allocate_room_id, allocate_room_id_ack, create_room, create_room_ack, join_room,
  join_room_ack, leave_room, leave_room_ack, close_room, close_room_ack, chat_message,
  chat_message_ack, message_fetch_request, message_fetch_response, room_message_fetch_request,
  room_message_fetch_response, heartbeat, heartbeat_ack, Envelope,
}
use live_chat_room.Message.Codec.{content_of}

-- `MessageType`
pub data MessageType : Type 0 where
  chat_message_type system_message_type : MessageType

pub record MessageClassifier : Type 0 where
  pub chat_messages_classified : ℕ
  pub system_messages_classified : ℕ

unfoldable pub new_message_classifier : MessageClassifier
new_message_classifier = record { chat_messages_classified = 0; system_messages_classified = 0 }

count_chat : MessageClassifier → MessageType × MessageClassifier
count_chat mc =
    (chat_message_type, record mc { chat_messages_classified = mc.chat_messages_classified + 1 })

count_system : MessageClassifier → MessageType × MessageClassifier
count_system mc = (
  system_message_type,
  record mc { system_messages_classified = mc.system_messages_classified + 1 },
)

-- The switch of `ClassifyMessage`; a nil envelope and a nil content are not counted.
unfoldable pub classify_content :
    Option Content → MessageClassifier → MessageType × MessageClassifier
unfolding count_chat count_system
classify_content none mc = (system_message_type, mc)
classify_content (some (chat_message m)) mc = count_chat mc
classify_content (some (create_room m)) mc = count_chat mc
classify_content (some (join_room m)) mc = count_chat mc
classify_content (some leave_room) mc = count_chat mc
classify_content (some close_room) mc = count_chat mc
classify_content (some (heartbeat m)) mc = count_system mc
classify_content (some heartbeat_ack) mc = count_system mc
classify_content (some (message_fetch_request m)) mc = count_system mc
classify_content (some (message_fetch_response m)) mc = count_system mc
classify_content (some (room_message_fetch_request m)) mc = count_system mc
classify_content (some (room_message_fetch_response m)) mc = count_system mc
classify_content (some (chat_message_ack m)) mc = count_system mc
classify_content (some (create_room_ack m)) mc = count_system mc
classify_content (some (join_room_ack m)) mc = count_system mc
classify_content (some (leave_room_ack m)) mc = count_system mc
classify_content (some (close_room_ack m)) mc = count_system mc
classify_content (some allocate_room_id) mc = count_system mc
classify_content (some (allocate_room_id_ack m)) mc = count_system mc

-- `ClassifyMessage`
unfoldable pub classify_message :
    Option Envelope → MessageClassifier → MessageType × MessageClassifier
unfolding classify_content
classify_message e mc = classify_content (content_of e) mc

is_chat_type : MessageType → Bool
is_chat_type chat_message_type = true
is_chat_type system_message_type = false

-- `ShouldPersistToKafka`, which counts the message too.
unfoldable pub should_persist_to_kafka :
    Option Envelope → MessageClassifier → Bool × MessageClassifier
unfolding classify_message is_chat_type
should_persist_to_kafka e mc = let (t, mc') = classify_message e mc in (is_chat_type t, mc')

-- The reasons of `GetClassificationReason`, a constructor to each text.
pub data Reason : Type 0 where
  nil_envelope_or_message user_chat_message : Reason
  room_creation room_join room_leave room_close : Reason
  heartbeat_signal heartbeat_response : Reason
  fetch_request fetch_response room_fetch_request room_fetch_response : Reason
  ack_confirmation room_id_allocation room_id_allocation_ack : Reason

-- `GetClassificationReason`
unfoldable pub get_classification_reason : Option Content → Reason
get_classification_reason none = nil_envelope_or_message
get_classification_reason (some (chat_message m)) = user_chat_message
get_classification_reason (some (create_room m)) = room_creation
get_classification_reason (some (join_room m)) = room_join
get_classification_reason (some leave_room) = room_leave
get_classification_reason (some close_room) = room_close
get_classification_reason (some (heartbeat m)) = heartbeat_signal
get_classification_reason (some heartbeat_ack) = heartbeat_response
get_classification_reason (some (message_fetch_request m)) = fetch_request
get_classification_reason (some (message_fetch_response m)) = fetch_response
get_classification_reason (some (room_message_fetch_request m)) = room_fetch_request
get_classification_reason (some (room_message_fetch_response m)) = room_fetch_response
get_classification_reason (some (chat_message_ack m)) = ack_confirmation
get_classification_reason (some (create_room_ack m)) = ack_confirmation
get_classification_reason (some (join_room_ack m)) = ack_confirmation
get_classification_reason (some (leave_room_ack m)) = ack_confirmation
get_classification_reason (some (close_room_ack m)) = ack_confirmation
get_classification_reason (some allocate_room_id) = room_id_allocation
get_classification_reason (some (allocate_room_id_ack m)) = room_id_allocation_ack

-- `IsRoomManagementMessage`
unfoldable pub is_room_management_message : Option Content → Bool
is_room_management_message (some (create_room m)) = true
is_room_management_message (some (join_room m)) = true
is_room_management_message (some leave_room) = true
is_room_management_message (some close_room) = true
is_room_management_message _ = false

-- `IsChatContentMessage`
unfoldable pub is_chat_content_message : Option Content → Bool
is_chat_content_message (some (chat_message m)) = true
is_chat_content_message _ = false

-- `IsSystemQueryMessage`
unfoldable pub is_system_query_message : Option Content → Bool
is_system_query_message (some (message_fetch_request m)) = true
is_system_query_message (some (room_message_fetch_request m)) = true
is_system_query_message _ = false

-- `IsHeartbeatMessage`
unfoldable pub is_heartbeat_message : Option Content → Bool
is_heartbeat_message (some (heartbeat m)) = true
is_heartbeat_message (some heartbeat_ack) = true
is_heartbeat_message _ = false
