-- ===== src/Client/Reliability.antt =====
-- client/reliability.go: `ReliabilityManager`. A handler runs as one step on the manager's state. What
-- the network does is an argument: whether a write, a change of the connection or the making of a
-- fetch request succeeds. A timer is the callback that it is armed with.
pub mod Matching
pub mod Acknowledge
pub mod Retry
pub mod Expiry
pub mod Keeping
pub mod Answers
pub mod Run
use live_chat_room.Prelude.{
  ℕ, suc, ◌+◌, ◌*◌, ◌%◌, ◌^◌, Bool, true, false, not, Option, none, some, List, [], ◌∷◌, ◌++◌,
  if◌then◌else◌, ltb, leb, ◌==◌, hex, same, length,
}
use live_chat_room.Message.GlobalId.{from_bytes, extract_room_id}
use live_chat_room.Message.Envelope.{
  Bytes, CreateRoom, RoomAck, MessageFetchResponse, Content, allocate_room_id, allocate_room_id_ack,
  create_room, create_room_ack, join_room, join_room_ack, leave_room, leave_room_ack, close_room,
  close_room_ack, chat_message, chat_message_ack, message_fetch_response,
  room_message_fetch_request, room_message_fetch_response, heartbeat, heartbeat_ack, Envelope,
}
use live_chat_room.Pending.{find, delete, insert, update, remove_key, set_room}

-- The callbacks of `time.AfterFunc`: `handleMessageTimeout` and `handleFetchTimeout`.
pub data Callback : Type 0 where
  message_timeout fetch_timeout : Callback

pub record PendingMessage : Type 0 where
  pub envelope : Envelope
  pub bytes : Bytes
  pub sent_time : ℕ  -- in milliseconds
  pub retries : ℕ
  pub timer : Option Callback

-- The calls of the event handler.
pub data Event : Type 0 where
  message_sent message_delivered message_failed : Envelope → Event

-- An absent room is an empty queue, or the empty key, in the two tables.
pub record ReliabilityManager : Type 0 where
  pub max_retries : ℕ
  pub pending_messages : List (Bytes × PendingMessage)
  pub room_pending_queues : ℕ → List Bytes
  pub allocate_queue : List Bytes
  pub room_fetch_pending : ℕ → Bytes
  pub total_retries : ℕ
  pub total_fetches : ℕ
  pub total_messages_sent : ℕ
  pub events : List Event

unfoldable pub new_reliability_manager : ℕ → ReliabilityManager
new_reliability_manager max_retries = record {
  max_retries = max_retries;
  pending_messages = [];
  room_pending_queues = λ r. [];
  allocate_queue = [];
  room_fetch_pending = λ r. [];
  total_retries = 0;
  total_fetches = 0;
  total_messages_sent = 0;
  events = [];
}

-- `getMessageKey`
unfoldable pub get_message_key : Envelope → Bytes
get_message_key e = hex e.message_id

unfoldable pub room_of_id : Bytes → Option ℕ
room_of_id bs = elim (from_bytes bs) [ none ↦ none | some id ↦ some (extract_room_id id) ]

-- `getEnvelopeRoom`; a nil create-room message, which the code does not expect, has no room here.
unfoldable pub get_envelope_room : Option Content → Bytes → Option ℕ
unfolding room_of_id
get_envelope_room (some (create_room (some m))) id = some (m.room_id % 2 ^ 32)
get_envelope_room (some (join_room m)) id = room_of_id id
get_envelope_room (some leave_room) id = room_of_id id
get_envelope_room (some close_room) id = room_of_id id
get_envelope_room (some (chat_message m)) id = room_of_id id
get_envelope_room _ id = none

-- The queue in which an acknowledgement looks for a message: the switch that
-- `enqueueForACKMatching` and `removePendingMessage` have in common.
pub data Match : Type 0 where
  allocation untracked : Match
  fetch room : ℕ → Match

unfoldable pub or_untracked : (ℕ → Match) → Option ℕ → Match
or_untracked f none = untracked
or_untracked f (some r) = f r

unfoldable pub match_content : Option Content → Bytes → Match
unfolding or_untracked get_envelope_room room_of_id
match_content (some allocate_room_id) id = allocation
match_content (some (room_message_fetch_request m)) id = or_untracked fetch (room_of_id id)
match_content c id = or_untracked room (get_envelope_room c id)

unfoldable pub match_of : Envelope → Match
unfolding match_content
match_of e = match_content e.message e.message_id

unfoldable pub enqueue : Match → Bytes → ReliabilityManager → ReliabilityManager
enqueue allocation key rm = record rm { allocate_queue = rm.allocate_queue ++ (key ∷ []) }
enqueue (fetch r) key rm = record rm { room_fetch_pending = set_room r key rm.room_fetch_pending }
enqueue (room r) key rm = record rm {
  room_pending_queues = set_room r (rm.room_pending_queues r ++ (key ∷ [])) rm.room_pending_queues;
}
enqueue untracked key rm = rm

-- `enqueueForACKMatching`
unfoldable pub enqueue_for_ack_matching : Envelope → Bytes → ReliabilityManager → ReliabilityManager
unfolding enqueue
enqueue_for_ack_matching e key rm = enqueue (match_of e) key rm

unfoldable pub dequeue : Match → Bytes → ReliabilityManager → ReliabilityManager
dequeue allocation key rm = record rm { allocate_queue = remove_key key rm.allocate_queue }
dequeue (fetch r) key rm = record rm {
  room_fetch_pending =
      if same (rm.room_fetch_pending r) key
      then set_room r [] rm.room_fetch_pending
      else rm.room_fetch_pending;
}
dequeue (room r) key rm = record rm {
  room_pending_queues =
      set_room r (remove_key key (rm.room_pending_queues r)) rm.room_pending_queues;
}
dequeue untracked key rm = rm

-- `removePendingMessage`: the message out of the map, and its key out of its queue.
unfoldable pub remove_pending_message :
    Bytes → ReliabilityManager → Option PendingMessage × ReliabilityManager
unfolding dequeue
remove_pending_message key rm = elim (find key rm.pending_messages) [
  | none ↦ (none, rm)
  | some p ↦ (
    some p,
    dequeue (match_of p.envelope) key
        (record rm { pending_messages = delete key rm.pending_messages }),
  )
]

pub data SendError : Type 0 where
  heartbeat_not_sent message_not_sent : SendError

unfoldable pub is_heartbeat : Option Content → Bool
is_heartbeat (some (heartbeat m)) = true
is_heartbeat _ = false

-- `SendMessage`, at the time `now`; `sent` is whether the write to the active connection succeeds.
unfoldable pub send_message :
    ℕ → Bool → Envelope → Bytes → ReliabilityManager → Option SendError × ReliabilityManager
unfolding is_heartbeat
send_message now sent e bytes rm =
    let key = get_message_key e in
    let p : PendingMessage = record {
      envelope = e;
      bytes = bytes;
      sent_time = now;
      retries = 0;
      timer = none;
    } in
    let rm' =
      enqueue_for_ack_matching e key
        (record rm { pending_messages = insert key p rm.pending_messages }) in
    if is_heartbeat e.message
    then (if sent then none else some heartbeat_not_sent, rm)
    else if sent
    then (
      none,
      record rm' {
        pending_messages =
            update key (λ p. record p { timer = some message_timeout }) rm'.pending_messages;
        total_messages_sent = rm'.total_messages_sent + 1;
        events = rm'.events ++ (message_sent e ∷ []);
      },
    )
    else (some message_not_sent, (remove_pending_message key rm').1)

-- `confirmMessage`: the timer is stopped with the message that is gone, and the event is raised.
unfoldable pub confirm_message : PendingMessage → ReliabilityManager → ReliabilityManager
confirm_message p rm = record rm { events = rm.events ++ (message_delivered p.envelope ∷ []) }

unfoldable pub confirm_removed : Option PendingMessage × ReliabilityManager → ReliabilityManager
confirm_removed (none, rm) = rm
confirm_removed (some p, rm) = confirm_message p rm

-- A key that is found is taken out and confirmed.
unfoldable pub confirm_key : Bytes → ReliabilityManager → ReliabilityManager
unfolding confirm_removed
confirm_key key rm = confirm_removed (remove_pending_message key rm)

-- A handler that locks a mutex which its own goroutine holds never returns.
pub data Outcome : Type 0 where
  returned blocked : ReliabilityManager → Outcome

unfoldable pub failed_removed : Bool → Option PendingMessage × ReliabilityManager → Outcome
failed_removed held (none, rm) = returned rm
failed_removed true (some p, rm) = blocked rm
failed_removed false (some p, rm) =
    returned (record rm { events = rm.events ++ (message_failed p.envelope ∷ []) })

-- `handleMessageFailure`. It locks the mutex of the message; `held` is whether the caller holds it.
unfoldable pub handle_message_failure : Bool → Bytes → ReliabilityManager → Outcome
unfolding failed_removed
handle_message_failure held key rm = failed_removed held (remove_pending_message key rm)

-- `handleFetchTimeout`
unfoldable pub handle_fetch_timeout : Bytes → ReliabilityManager → Outcome
handle_fetch_timeout key rm = handle_message_failure false key rm

-- What the network answers in the course of one timeout.
pub record Network : Type 0 where
  pub resent : Bool
  pub switched : Bool
  pub fetch_built : Bool
  pub fetch_sent : Bool

unfoldable pub arm : Bytes → Callback → ReliabilityManager → ReliabilityManager
arm key callback rm = record rm {
  pending_messages = update key (λ p. record p { timer = some callback }) rm.pending_messages;
}

-- `attemptFetchConfirmation`, called with the mutex of the message held.
unfoldable pub attempt_fetch_confirmation : Network → Bytes → ReliabilityManager → Outcome
unfolding arm
attempt_fetch_confirmation net key rm =
    let rm' = record rm { total_fetches = rm.total_fetches + 1 } in
    if not net.switched
    then handle_message_failure true key rm'
    else if not net.fetch_built
    then handle_message_failure true key rm'
    else if not net.fetch_sent
    then handle_message_failure true key rm'
    else returned (arm key fetch_timeout rm')

-- `handleMessageTimeout`, which holds the mutex of the message to its end.
unfoldable pub handle_message_timeout : Network → Bytes → ReliabilityManager → Outcome
unfolding arm
handle_message_timeout net key rm = elim (find key rm.pending_messages) [
  | none ↦ returned rm
  | some p ↦
      let rm' = record rm {
        pending_messages =
            update key (λ q. record q { retries = q.retries + 1 }) rm.pending_messages;
        total_retries = rm.total_retries + 1;
      } in
      if leb (p.retries + 1) rm.max_retries
      then (if net.resent
          then returned (arm key message_timeout rm')
          else if net.switched
          then returned (arm key message_timeout rm')
          else handle_message_failure true key rm')
      else attempt_fetch_confirmation net key rm'
]

-- `handleMessageFetchResponse`
unfoldable pub handle_message_fetch_response : MessageFetchResponse → ReliabilityManager → Outcome
unfolding confirm_key
handle_message_fetch_response response rm =
    let key = hex response.message_id in
    elim (find key rm.pending_messages) [
      | none ↦ returned rm
      | some p ↦
          if response.exists
          then returned (confirm_key key rm)
          else handle_message_failure false key rm
    ]

-- `handleRoomFetchResponse`
unfoldable pub handle_room_fetch_response : RoomAck → ReliabilityManager → ReliabilityManager
unfolding confirm_key
handle_room_fetch_response response rm =
    let r = response.room_id % 2 ^ 32 in
    let key = rm.room_fetch_pending r in
    let rm' = record rm { room_fetch_pending = set_room r [] rm.room_fetch_pending } in
    if length key == 0 then rm' else confirm_key key rm'

unfoldable pub head_key : List Bytes → Bytes
head_key [] = []
head_key (k ∷ ks) = k

unfoldable pub tail_keys : List Bytes → List Bytes
tail_keys [] = []
tail_keys (k ∷ ks) = ks

-- The head of the queue of the room that an acknowledgement names; the empty key if there is none.
unfoldable pub room_head : RoomAck → ReliabilityManager → Bytes
unfolding head_key
room_head ack rm = head_key (rm.room_pending_queues (ack.room_id % 2 ^ 32))

-- `getOriginalMessageKey`
unfoldable pub get_original_message_key :
    Option Content → Bytes → ReliabilityManager → Bytes × ReliabilityManager
unfolding room_head head_key tail_keys
get_original_message_key (some (allocate_room_id_ack a)) id rm =
    (head_key rm.allocate_queue, record rm { allocate_queue = tail_keys rm.allocate_queue })
get_original_message_key (some (create_room_ack a)) id rm = (room_head a rm, rm)
get_original_message_key (some (join_room_ack a)) id rm = (room_head a rm, rm)
get_original_message_key (some (leave_room_ack a)) id rm = (room_head a rm, rm)
get_original_message_key (some (close_room_ack a)) id rm = (room_head a rm, rm)
get_original_message_key (some (chat_message_ack a)) id rm = (room_head a rm, rm)
get_original_message_key (some heartbeat_ack) id rm = ([], rm)
get_original_message_key _ id rm = (hex id, rm)

-- `isACKMessage`
unfoldable pub is_ack_message : Option Content → Bool
is_ack_message (some (allocate_room_id_ack a)) = true
is_ack_message (some (create_room_ack a)) = true
is_ack_message (some (join_room_ack a)) = true
is_ack_message (some (leave_room_ack a)) = true
is_ack_message (some (close_room_ack a)) = true
is_ack_message (some (chat_message_ack a)) = true
is_ack_message (some (message_fetch_response a)) = true
is_ack_message (some (room_message_fetch_response a)) = true
is_ack_message (some heartbeat_ack) = true
is_ack_message _ = false

unfoldable pub confirm_original : Bytes × ReliabilityManager → ReliabilityManager
unfolding confirm_key
confirm_original (key, rm) = if length key == 0 then rm else confirm_key key rm

unfoldable pub outcome_state : Outcome → ReliabilityManager
outcome_state (returned rm) = rm
outcome_state (blocked rm) = rm

unfoldable pub ack_content : Option Content → Bytes → ReliabilityManager → ReliabilityManager
unfolding confirm_original outcome_state
ack_content (some (message_fetch_response m)) id rm =
    outcome_state (handle_message_fetch_response m rm)
ack_content (some (room_message_fetch_response m)) id rm = handle_room_fetch_response m rm
ack_content c id rm = confirm_original (get_original_message_key c id rm)

-- `HandleACK`. No mutex of a message is held there, so it returns.
unfoldable pub handle_ack : Envelope → ReliabilityManager → Bool × ReliabilityManager
unfolding ack_content
handle_ack e rm =
    if not (is_ack_message e.message)
    then (false, rm)
    else (true, ack_content e.message e.message_id rm)

unfoldable pub expired_keys : ℕ → List (Bytes × PendingMessage) → List Bytes
expired_keys now [] = []
expired_keys now ((k, p) ∷ ps) =
    if ltb (p.sent_time + 5 * 60 * 1000) now then k ∷ expired_keys now ps else expired_keys now ps

unfoldable pub remove_all : List Bytes → ReliabilityManager → ReliabilityManager
remove_all [] rm = rm
remove_all (k ∷ ks) rm = remove_all ks (remove_pending_message k rm).1

-- `cleanup`
unfoldable pub cleanup : ℕ → ReliabilityManager → ReliabilityManager
unfolding expired_keys remove_all
cleanup now rm = remove_all (expired_keys now rm.pending_messages) rm
