-- ===== src/Router/Classifier/Consistent.antt =====
-- router/message_classifier.go: the classification of a message, its reason, its counters and its four tests.
use live_chat_room.Prelude.{
  ℕ, ◌+◌, ◌≡◌, refl, Bool, true, false, ◌||◌, ◌&&◌, Option, none, some, List, [], ◌∷◌, arith,
}
use live_chat_room.Message.Envelope.{Content, chat_message, Envelope}
use live_chat_room.Message.Codec.{content_of}
use live_chat_room.Router.Classifier.{
  MessageClassifier, classify_content, classify_message, is_chat_type, should_persist_to_kafka,
  Reason, user_chat_message, room_creation, room_join, room_leave, room_close,
  get_classification_reason, is_room_management_message, is_chat_content_message,
  is_system_query_message, is_heartbeat_message,
}

-- Whether a reason says that the message is part of the history.
abbrev pub is_history : Reason → Bool
is_history user_chat_message = true
is_history room_creation = true
is_history room_join = true
is_history room_leave = true
is_history room_close = true
is_history _ = false

persists_content :
    (c : Option Content) (mc : MessageClassifier)
    → (is_chat_type (classify_content c mc).0
        ≡ (is_room_management_message c || is_chat_content_message c))
      × (is_chat_type (classify_content c mc).0 ≡ is_history (get_classification_reason c))
      × (((is_room_management_message c || is_chat_content_message c)
            && (is_system_query_message c || is_heartbeat_message c))
          ≡ false)
unfolding classify_content is_chat_type is_room_management_message is_chat_content_message
    is_system_query_message is_heartbeat_message get_classification_reason
persists_content none mc = (refl, refl, refl)
persists_content (some (chat_message m)) mc = (refl, refl, refl)
persists_content (some _) mc = (refl, refl, refl)

-- A message goes to Kafka exactly when it is a room management or a chat content message, which is
-- exactly when its reason is one of the history of a chat; and no such message is a query or a
-- heartbeat.
pub should_persist_to_kafka_agrees :
    (e : Option Envelope) (mc : MessageClassifier)
    → let c = content_of e in
      ((should_persist_to_kafka e mc).0
        ≡ (is_room_management_message c || is_chat_content_message c))
      × ((should_persist_to_kafka e mc).0 ≡ is_history (get_classification_reason c))
      × (((is_room_management_message c || is_chat_content_message c)
            && (is_system_query_message c || is_heartbeat_message c))
          ≡ false)
unfolding should_persist_to_kafka classify_message
should_persist_to_kafka_agrees e mc = persists_content (content_of e) mc

-- The classifier after a list of messages.
pub classify_run : List (Option Envelope) → MessageClassifier → MessageClassifier
classify_run [] mc = mc
classify_run (e ∷ es) mc = classify_run es (classify_message e mc).1

abbrev pub one_if : Bool → ℕ
one_if true = 1
one_if false = 0

abbrev is_filled : Option Content → Bool
is_filled none = false
is_filled (some c) = true

-- How many of the messages belong to the history, and how many have a content.
abbrev pub count_history : List (Option Envelope) → ℕ
count_history [] = 0
count_history (e ∷ es) =
    one_if (is_room_management_message (content_of e) || is_chat_content_message (content_of e))
    + count_history es

abbrev pub count_filled : List (Option Envelope) → ℕ
count_filled [] = 0
count_filled (e ∷ es) = one_if (is_filled (content_of e)) + count_filled es

classify_content-counts :
    (c : Option Content) (mc : MessageClassifier)
    → let mc' = (classify_content c mc).1 in
      (mc'.chat_messages_classified
        ≡ mc.chat_messages_classified
          + one_if (is_room_management_message c || is_chat_content_message c))
      × (mc'.chat_messages_classified + mc'.system_messages_classified
          ≡ mc.chat_messages_classified + mc.system_messages_classified + one_if (is_filled c))
unfolding classify_content is_room_management_message is_chat_content_message
classify_content-counts none mc = (omega arith, omega arith)
classify_content-counts (some (chat_message m)) mc = (omega arith, omega arith)
classify_content-counts (some _) mc = (omega arith, omega arith)

-- After any list of messages the counter of chat messages has grown by the number of room
-- management and chat content messages, and the two counters together by the number of messages
-- that have a content.
pub classify_run_counts :
    (es : List (Option Envelope)) (mc : MessageClassifier)
    → let mc' = classify_run es mc in
      (mc'.chat_messages_classified ≡ mc.chat_messages_classified + count_history es)
      × (mc'.chat_messages_classified + mc'.system_messages_classified
          ≡ mc.chat_messages_classified + mc.system_messages_classified + count_filled es)
unfolding classify_run classify_message
classify_run_counts [] mc = (omega arith, omega arith)
classify_run_counts (e ∷ es) mc =
    let (chat, total) = classify_content-counts (content_of e) mc in
    let (chats, totals) = classify_run_counts es (classify_content (content_of e) mc).1 in
    (omega arith, omega arith)
