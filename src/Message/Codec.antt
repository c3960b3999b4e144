-- ===== src/Message/Codec.antt =====
-- message/codec.go: validation of envelopes, their creation, and the information read from them.
pub mod Accepts
pub mod Transport
use live_chat_room.Prelude.{
  ℕ, zero, suc, ◌+◌, ◌*◌, ◌%◌, ◌^◌, Bool, true, false, not, ◌||◌, Option, none, some, List, [], ◌∷◌,
  if◌then◌else◌, ltb, ◌==◌, length,
}
use live_chat_room.Message.GlobalId.{
  global_id_length, from_bytes, is_valid, extract_user_id, extract_room_id, extract_login_id,
  extract_timestamp,
}
use live_chat_room.Message.Generator.{Generator, generate_global_id}
use live_chat_room.Message.Envelope.{
  Bytes, CreateRoom, JoinRoom, ChatMessage, MessageFetchRequest, RoomMessageFetchRequest, Heartbeat,
  Content, create_room, join_room, chat_message, message_fetch_request, room_message_fetch_request,
  heartbeat, Envelope,
}

pub data CodecError : Type 0 where
  envelope_nil seq_id_required bad_id_length bad_id_format id_not_valid content_required :
      CodecError
  message_nil room_id_required name_required max_members_zero : CodecError
  empty_content content_too_long limit_out_of_range : CodecError
  timestamp_required heartbeat_in_future heartbeat_too_old : CodecError
  marshal_failed empty_bytes unmarshal_failed unsupported_type : CodecError

pub data Result {ℓ} (A : Type ℓ) : Type ℓ where
  ok : A → Result A
  err : CodecError → Result A

validate_id : ℕ → Bytes → Option CodecError
validate_id now bs = elim (from_bytes bs) [
  | none ↦ some bad_id_format
  | some id ↦ if not (is_valid now id) then some id_not_valid else none
]

validate_message : Option Content → Option CodecError
validate_message none = some content_required
validate_message (some m) = none

-- The checks of one error after another: the first that fails is returned.
infixr 20 ◌then_check◌
abbrev pub ◌then_check◌ : Option CodecError → Option CodecError → Option CodecError
none then_check k = k
(some e) then_check k = some e

-- `ValidateEnvelope`, at the time `now`; `none` is the nil error.
unfoldable pub validate_envelope : ℕ → Option Envelope → Option CodecError
unfolding validate_id validate_message
validate_envelope now none = some envelope_nil
validate_envelope now (some e) =
    (if e.connection_seq_id == 0 then some seq_id_required else none)
    then_check (if not (length e.message_id == global_id_length) then some bad_id_length else none)
    then_check validate_id now e.message_id
    then_check validate_message e.message

validate_create_room : Option CreateRoom → Option CodecError
validate_create_room none = some message_nil
validate_create_room (some m) =
    (if m.room_id == 0 then some room_id_required else none)
    then_check (if length m.name == 0 then some name_required else none)
    then_check (if m.max_members == 0 then some max_members_zero else none)

validate_join_room : Option JoinRoom → Option CodecError
validate_join_room none = some message_nil
validate_join_room (some m) = none

validate_chat_message : Option ChatMessage → Option CodecError
validate_chat_message none = some message_nil
validate_chat_message (some m) =
    (if length m.content == 0 then some empty_content else none)
    then_check (if ltb 4096 (length m.content) then some content_too_long else none)

validate_message_fetch_request : Option MessageFetchRequest → Option CodecError
validate_message_fetch_request none = some message_nil
validate_message_fetch_request (some m) =
    if not (length m.message_id == global_id_length) then some bad_id_length else none

validate_room_message_fetch_request : Option RoomMessageFetchRequest → Option CodecError
validate_room_message_fetch_request none = some message_nil
validate_room_message_fetch_request (some m) =
    (if m.room_id == 0 then some room_id_required else none)
    then_check (if m.limit == 0 || ltb 100 m.limit then some limit_out_of_range else none)

-- The sums are those of uint64.
validate_heartbeat : ℕ → Option Heartbeat → Option CodecError
validate_heartbeat now none = some message_nil
validate_heartbeat now (some m) =
    (if m.timestamp == 0 then some timestamp_required else none)
    then_check (if ltb ((now + 60 * 1000) % 2 ^ 64) m.timestamp
        then some heartbeat_in_future
        else none)
    then_check (if ltb ((m.timestamp + 60 * 1000) % 2 ^ 64) now
        then some heartbeat_too_old
        else none)

-- The switch of `ValidateSpecificMessage`.
unfoldable pub validate_content : ℕ → Option Content → Option CodecError
unfolding validate_create_room validate_join_room validate_chat_message
    validate_message_fetch_request validate_room_message_fetch_request validate_heartbeat
validate_content now (some (create_room m)) = validate_create_room m
validate_content now (some (join_room m)) = validate_join_room m
validate_content now (some (chat_message m)) = validate_chat_message m
validate_content now (some (message_fetch_request m)) = validate_message_fetch_request m
validate_content now (some (room_message_fetch_request m)) = validate_room_message_fetch_request m
validate_content now (some (heartbeat m)) = validate_heartbeat now m
validate_content now _ = none

-- The content of an envelope that may be nil.
abbrev pub content_of : Option Envelope → Option Content
content_of none = none
content_of (some e) = e.message

-- `ValidateSpecificMessage`
unfoldable pub validate_specific_message : ℕ → Option Envelope → Option CodecError
validate_specific_message now e =
    validate_envelope now e then_check validate_content now (content_of e)

-- `CreateEnvelope`: the identifier is drawn first, then the content is wrapped; a content of no
-- message type (`none`) is an error. The outer option is a generator that still waits.
unfoldable pub create_envelope :
    ℕ
    → ℕ
    → ℕ
    → ℕ
    → Option Content
    → Generator
    → List ℕ
    → Option (Result Envelope × Generator × List ℕ)
create_envelope user_id room_id login_id conn_seq_id content g clock =
    elim (generate_global_id user_id room_id login_id 0 g clock) [
      | none ↦ none
      | some (id, g', clock') ↦ some (
        elim content [
          | none ↦ err unsupported_type
          | some m ↦
              ok (record { connection_seq_id = conn_seq_id; message_id = id; message = some m })
        ],
        g',
        clock',
      )
    ]

pub record MessageInfo : Type 0 where
  pub user_id : ℕ
  pub room_id : ℕ
  pub login_id : ℕ
  pub timestamp : ℕ

info_of : Envelope → Result MessageInfo
info_of e = elim (from_bytes e.message_id) [
  | none ↦ err bad_id_format
  | some id ↦ ok (record {
    user_id = extract_user_id id;
    room_id = extract_room_id id;
    login_id = extract_login_id id;
    timestamp = extract_timestamp id;
  })
]

-- `ExtractMessageInfo`
unfoldable pub extract_message_info : ℕ → Envelope → Result MessageInfo
unfolding info_of
extract_message_info now e = elim (validate_envelope now (some e)) [
  | some x ↦ err x
  | none ↦ info_of e
]

-- google.golang.org/protobuf: `Marshal` and `Unmarshal`, whose error is `none`.
module _ (marshal : Envelope → Option Bytes) (unmarshal : Bytes → Option Envelope) where
  -- `Serialize`
  unfoldable pub serialize : ℕ → Option Envelope → Result Bytes
  serialize now none = err envelope_nil
  serialize now (some e) = elim (validate_envelope now (some e)) [
    | some x ↦ err x
    | none ↦ elim (marshal e) [ none ↦ err marshal_failed | some bs ↦ ok bs ]
  ]

  -- `Deserialize`
  unfoldable pub deserialize : ℕ → Bytes → Result Envelope
  deserialize now [] = err empty_bytes
  deserialize now (b ∷ bs) = elim (unmarshal (b ∷ bs)) [
    | none ↦ err unmarshal_failed
    | some e ↦ elim (validate_envelope now (some e)) [ some x ↦ err x | none ↦ ok e ]
  ]
