-- ===== src/Connection/Guarantor.antt =====
-- connection/reliability_guarantor.go: `ReliabilityGuarantor`, the reliability layer of a connection
-- server towards its clients and its routers. A handler runs as one step on its state. Whether a write
-- succeeds, and the fetch request that is made, are arguments; a timer is the callback that it is armed with.
pub mod Matching
pub mod Run
pub mod Answers
pub mod Timeouts
pub mod Expiry
use live_chat_room.Prelude.{
  ℕ, ◌+◌, ◌%◌, ◌^◌, Bool, true, false, not, ◌&&◌, Option, none, some, List, [], ◌∷◌, ◌++◌,
  if◌then◌else◌, ltb, leb, ◌==◌, hex, length,
}
use live_chat_room.Message.GlobalId.{from_bytes, extract_room_id}
use live_chat_room.Message.Envelope.{
  Bytes, MessageFetchResponse, RoomAck, Content, allocate_room_id_ack, create_room, create_room_ack,
  join_room, join_room_ack, leave_room, leave_room_ack, close_room_ack, chat_message,
  chat_message_ack, message_fetch_response, heartbeat_ack, Envelope, message_status_success,
}
use live_chat_room.Pending.{find, delete, insert, update, remove_key, set_room}

-- The callbacks of `time.AfterFunc`: `handleMessageTimeout` and `handleFetchTimeout`.
pub data Callback : Type 0 where
  message_timeout fetch_timeout : Callback

-- `messageType` and `targetConn`: a client's connection, by its name, or the routers.
pub data Target : Type 0 where
  client : Bytes → Target
  router : Target

pub record PendingServerMessage : Type 0 where
  pub envelope : Envelope
  pub bytes : Bytes
  pub target : Target
  pub sent_time : ℕ
  pub retries : ℕ
  pub timer : Option Callback

-- The writes that were tried.
pub data Write : Type 0 where
  to_client : Bytes → Bytes → Write
  to_router : Envelope → Write

-- The fields of the configuration that it reads, and its state. An absent room is an empty queue.
pub record Guarantor : Type 0 where
  pub enable_reliability : Bool
  pub max_retries : ℕ
  pub pending_message_ttl : ℕ
  pub pending_messages : List (Bytes × PendingServerMessage)
  pub room_pending_queues : ℕ → List Bytes
  pub total_retries : ℕ
  pub total_fetches : ℕ
  pub total_failed : ℕ
  pub writes : List Write

unfoldable pub new_reliability_guarantor : Bool → ℕ → ℕ → Guarantor
new_reliability_guarantor enabled max_retries ttl = record {
  enable_reliability = enabled;
  max_retries = max_retries;
  pending_message_ttl = ttl;
  pending_messages = [];
  room_pending_queues = λ r. [];
  total_retries = 0;
  total_fetches = 0;
  total_failed = 0;
  writes = [];
}

-- `getMessageKey`
unfoldable pub get_message_key : Envelope → Bytes
get_message_key e = hex e.message_id

unfoldable pub room_of_id : Bytes → Option ℕ
room_of_id bs = elim (from_bytes bs) [ none ↦ none | some id ↦ some (extract_room_id id) ]

unfoldable pub content_room : Option Content → Bytes → Option ℕ
unfolding room_of_id
content_room (some (create_room (some m))) id = some (m.room_id % 2 ^ 32)
content_room (some (join_room m)) id = room_of_id id
content_room (some leave_room) id = room_of_id id
content_room (some (chat_message m)) id = room_of_id id
content_room _ id = none

-- `getEnvelopeRoom`; a nil create-room message, which the code does not expect, has no room here.
unfoldable pub get_envelope_room : Envelope → Option ℕ
unfolding content_room
get_envelope_room e = content_room e.message e.message_id

unfoldable pub enqueue_room : Option ℕ → Bytes → Guarantor → Guarantor
enqueue_room none key rg = rg
enqueue_room (some r) key rg = record rg {
  room_pending_queues = set_room r (rg.room_pending_queues r ++ (key ∷ [])) rg.room_pending_queues;
}

-- `enqueueRoomPending`
unfoldable pub enqueue_room_pending : Envelope → Bytes → Guarantor → Guarantor
enqueue_room_pending e key rg = enqueue_room (get_envelope_room e) key rg

unfoldable pub dequeue_room : Option ℕ → Bytes → Guarantor → Guarantor
dequeue_room none key rg = rg
dequeue_room (some r) key rg = record rg {
  room_pending_queues =
      set_room r (remove_key key (rg.room_pending_queues r)) rg.room_pending_queues;
}

-- `removePendingMessage`
unfoldable pub remove_pending_message : Bytes → Guarantor → Option PendingServerMessage × Guarantor
remove_pending_message key rg = elim (find key rg.pending_messages) [
  | none ↦ (none, rg)
  | some p ↦ (
    some p,
    dequeue_room (get_envelope_room p.envelope) key
        (record rg { pending_messages = delete key rg.pending_messages }),
  )
]

pub data SendError : Type 0 where
  serialize_failed send_failed : SendError

-- The write of a message to where it goes.
unfoldable pub write_to : Target → Envelope → Bytes → Guarantor → Guarantor
write_to (client c) e bytes rg = record rg { writes = rg.writes ++ (to_client c bytes ∷ []) }
write_to router e bytes rg = record rg { writes = rg.writes ++ (to_router e ∷ []) }

unfoldable pub arm : Bytes → Callback → Guarantor → Guarantor
arm key callback rg = record rg {
  pending_messages = update key (λ p. record p { timer = some callback }) rg.pending_messages;
}

-- A reliable message, once it is serialized; `sent` is whether the write succeeds.
unfoldable pub send_tracked :
    ℕ → Bool → Target → Envelope → Bytes → Guarantor → Option SendError × Guarantor
send_tracked now sent target e bytes rg =
    let key = get_message_key e in
    let p : PendingServerMessage = record {
      envelope = e;
      bytes = bytes;
      target = target;
      sent_time = now;
      retries = 0;
      timer = none;
    } in
    let tracked = record rg { pending_messages = insert key p rg.pending_messages } in
    let written = write_to target e bytes (enqueue_room_pending e key tracked) in
    if not sent
    then (some send_failed, (remove_pending_message key written).1)
    else (none, arm key message_timeout written)

-- `SendReliableMessageToClient` and `SendReliableMessageToRouter`, which differ in the write only.
-- `serialized` is what `Serialize` returns; without reliability the message is only written.
unfoldable pub send_reliable_message :
    ℕ → Option Bytes → Bool → Target → Envelope → Guarantor → Option SendError × Guarantor
send_reliable_message now none sent target e rg = (some serialize_failed, rg)
send_reliable_message now (some bytes) sent target e rg =
    if not rg.enable_reliability
    then (if sent then none else some send_failed, write_to target e bytes rg)
    else send_tracked now sent target e bytes rg

-- A handler that locks a mutex which its own goroutine holds never returns.
pub data Outcome : Type 0 where
  returned blocked : Guarantor → Outcome

unfoldable pub failed_removed : Bool → Option PendingServerMessage × Guarantor → Outcome
failed_removed held (none, rg) = returned rg
failed_removed true (some p, rg) = blocked rg
failed_removed false (some p, rg) = returned (record rg { total_failed = rg.total_failed + 1 })

-- `handleMessageFailure`, which locks the mutex of the message; `held` is whether the caller holds it.
unfoldable pub handle_message_failure : Bool → Bytes → Guarantor → Outcome
handle_message_failure held key rg = failed_removed held (remove_pending_message key rg)

-- `handleFetchTimeout`
unfoldable pub handle_fetch_timeout : Bytes → Guarantor → Outcome
handle_fetch_timeout key rg = handle_message_failure false key rg

-- `attemptFetchConfirmation`, called with the mutex of the message held: `fetch` is the envelope that
-- `CreateEnvelope` returns, `sent` whether the router takes it.
unfoldable pub attempt_fetch_confirmation : Option Envelope → Bool → Bytes → Guarantor → Outcome
attempt_fetch_confirmation none sent key rg =
    handle_message_failure true key (record rg { total_fetches = rg.total_fetches + 1 })
attempt_fetch_confirmation (some fetch) sent key rg =
    let asked = record rg {
      total_fetches = rg.total_fetches + 1;
      writes = rg.writes ++ (to_router fetch ∷ []);
    } in
    if not sent
    then handle_message_failure true key asked
    else returned (arm key fetch_timeout asked)

-- `handleMessageTimeout`, which holds the mutex of the message to its end. The result of a
-- retransmission is only logged.
unfoldable pub handle_message_timeout : Option Envelope → Bool → Bytes → Guarantor → Outcome
handle_message_timeout fetch sent key rg = elim (find key rg.pending_messages) [
  | none ↦ returned rg
  | some p ↦
      let counted = record rg {
        pending_messages =
            update key (λ q. record q { retries = q.retries + 1 }) rg.pending_messages;
        total_retries = rg.total_retries + 1;
      } in
      if leb (p.retries + 1) rg.max_retries
      then returned (arm key message_timeout (write_to p.target p.envelope p.bytes counted))
      else attempt_fetch_confirmation fetch sent key counted
]

-- The message is taken out first, and a failure then finds none.
unfoldable pub settle_fetched : Bytes → Bool → Option PendingServerMessage × Guarantor → Outcome
settle_fetched key confirmed (none, rg) = returned rg
settle_fetched key confirmed (some p, rg) =
    if confirmed then returned rg else handle_message_failure false key rg

-- `handleMessageFetchResponse`
unfoldable pub handle_message_fetch_response : MessageFetchResponse → Guarantor → Outcome
handle_message_fetch_response response rg =
    let key = hex response.message_id in
    settle_fetched key (response.exists && response.status == message_status_success)
      (remove_pending_message key rg)

-- `HandleFetchResponse`
unfoldable pub handle_fetch_response : Option Content → Guarantor → Outcome
handle_fetch_response (some (message_fetch_response m)) rg = handle_message_fetch_response m rg
handle_fetch_response _ rg = returned rg

-- `isACKMessage`
unfoldable pub is_ack_message : Option Content → Bool
is_ack_message (some (allocate_room_id_ack a)) = true
is_ack_message (some (create_room_ack a)) = true
is_ack_message (some (join_room_ack a)) = true
is_ack_message (some (leave_room_ack a)) = true
is_ack_message (some (close_room_ack a)) = true
is_ack_message (some (chat_message_ack a)) = true
is_ack_message (some (message_fetch_response a)) = true
is_ack_message (some heartbeat_ack) = true
is_ack_message _ = false

unfoldable pub head_key : List Bytes → Bytes
head_key [] = []
head_key (k ∷ ks) = k

unfoldable pub room_head : RoomAck → Guarantor → Bytes
room_head ack rg = head_key (rg.room_pending_queues (ack.room_id % 2 ^ 32))

-- `getOriginalMessageKey`; the empty key is that of no message.
unfoldable pub get_original_message_key : Option Content → Bytes → Guarantor → Bytes
get_original_message_key (some (create_room_ack a)) id rg = room_head a rg
get_original_message_key (some (join_room_ack a)) id rg = room_head a rg
get_original_message_key (some (leave_room_ack a)) id rg = room_head a rg
get_original_message_key (some (close_room_ack a)) id rg = room_head a rg
get_original_message_key (some (chat_message_ack a)) id rg = room_head a rg
get_original_message_key (some heartbeat_ack) id rg = []
get_original_message_key _ id rg = hex id

-- `HandleACK`: the message is taken out, and its timer with it.
unfoldable pub handle_ack : Envelope → Guarantor → Bool × Guarantor
handle_ack e rg =
    let key = get_original_message_key e.message e.message_id rg in
    if not (is_ack_message e.message)
    then (false, rg)
    else if length key == 0
    then (true, rg)
    else (true, (remove_pending_message key rg).1)

unfoldable pub expired_keys : ℕ → ℕ → List (Bytes × PendingServerMessage) → List Bytes
expired_keys now ttl [] = []
expired_keys now ttl ((k, p) ∷ ps) =
    if ltb (p.sent_time + ttl) now then k ∷ expired_keys now ttl ps else expired_keys now ttl ps

unfoldable pub remove_all : List Bytes → Guarantor → Guarantor
remove_all [] rg = rg
remove_all (k ∷ ks) rg = remove_all ks (remove_pending_message k rg).1

-- `cleanup`
unfoldable pub cleanup : ℕ → Guarantor → Guarantor
cleanup now rg = remove_all (expired_keys now rg.pending_message_ttl rg.pending_messages) rg
