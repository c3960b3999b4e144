-- ===== src/Client/Reliability/Acknowledge.antt =====
-- client/reliability.go: which message an acknowledgement confirms.
use mathlib.Core.Option.{some_inj}
use live_chat_room.Prelude.{
  ℕ, ◌%◌, ◌^◌, true, false, Option, none, some, List, [], ◌∷◌, ◌++◌, ◌==◌, ◌≡◌, refl, sym, ◌∙◌,
  length,
}
use live_chat_room.Message.Envelope.{
  Bytes, Content, create_room_ack, join_room_ack, leave_room_ack, close_room_ack, chat_message_ack,
  Envelope,
}
use live_chat_room.Pending.{find, delete}
use live_chat_room.Pending.Queues.{keys_of, named-find}
use live_chat_room.Client.Reliability.{
  PendingMessage, ReliabilityManager, message_delivered, handle_ack, is_ack_message, ack_content,
  confirm_original, confirm_key, get_original_message_key, room_head, head_key,
}
use live_chat_room.Client.Reliability.Matching.{
  IsMatched, in_room, remove_pending_message-IsMatched, remove-found_fields, confirm_key-found,
  events-IsMatched, oldest-found, rest-queue,
}

-- The acknowledgements that name a room.
abbrev pub acknowledged_room : Option Content → Option ℕ
acknowledged_room (some (create_room_ack a)) = some (a.room_id % 2 ^ 32)
acknowledged_room (some (join_room_ack a)) = some (a.room_id % 2 ^ 32)
acknowledged_room (some (leave_room_ack a)) = some (a.room_id % 2 ^ 32)
acknowledged_room (some (close_room_ack a)) = some (a.room_id % 2 ^ 32)
acknowledged_room (some (chat_message_ack a)) = some (a.room_id % 2 ^ 32)
acknowledged_room _ = none

module _ (r : ℕ) (id : Bytes) (rm : ReliabilityManager) where
  ack-room :
      (c : Option Content)
      → acknowledged_room c ≡ some r
      → (is_ack_message c ≡ true)
        × (ack_content c id rm ≡ confirm_original (head_key (rm.room_pending_queues r), rm))
  unfolding is_ack_message ack_content get_original_message_key room_head
  ack-room (some (create_room_ack a)) h = rw (some_inj.0 h) (refl, refl)
  ack-room (some (join_room_ack a)) h = rw (some_inj.0 h) (refl, refl)
  ack-room (some (leave_room_ack a)) h = rw (some_inj.0 h) (refl, refl)
  ack-room (some (close_room_ack a)) h = rw (some_inj.0 h) (refl, refl)
  ack-room (some (chat_message_ack a)) h = rw (some_inj.0 h) (refl, refl)
  ack-room _ h = cc

pub confirm_original-key :
    (k : Bytes) (rm : ReliabilityManager)
    → (length k == 0) ≡ false
    → confirm_original (k, rm) ≡ confirm_key k rm
unfolding confirm_original
confirm_original-key k rm h = rw h

handle_ack-room :
    (e : Envelope) (r : ℕ) (rm : ReliabilityManager) (k : Bytes) (rest : List Bytes)
    → acknowledged_room e.message ≡ some r
    → rm.room_pending_queues r ≡ k ∷ rest
    → (length k == 0) ≡ false
    → handle_ack e rm ≡ (true, confirm_key k rm)
unfolding handle_ack head_key
handle_ack-room e r rm k rest a q n =
    let (is_ack, content) = ack-room r e.message_id rm e.message a in
    rw (is_ack, content, q, confirm_original-key k rm n)

-- What it is for an acknowledgement to have confirmed the message `p` of the key `k`.
pub record Confirms (k : Bytes) (p : PendingMessage) (before after : ReliabilityManager)
    : Type 0 where
  pub pending : find k before.pending_messages ≡ some p
  pub taken : after.pending_messages ≡ delete k before.pending_messages
  pub told : after.events ≡ before.events ++ (message_delivered p.envelope ∷ [])

-- With the queues matched, an acknowledgement of a room for which messages are pending confirms the
-- one of them that was sent first: it and only it is taken out of the map, it is reported as
-- delivered, the room's queue is left with the others in their order, and the queues stay matched.
pub handle_ack_fifo :
    (e : Envelope) (r : ℕ) (rm : ReliabilityManager) (k : Bytes) (rest : List Bytes)
    → IsMatched rm
    → acknowledged_room e.message ≡ some r
    → keys_of (in_room r) rm.pending_messages ≡ k ∷ rest
    → let (handled, rm') = handle_ack e rm in
      (handled ≡ true)
      × ((p : PendingMessage) × Confirms k p rm rm' × (in_room r p ≡ true))
      × (keys_of (in_room r) rm'.pending_messages ≡ rest)
      × IsMatched rm'
handle_ack_fifo e r rm k rest v a oldest =
    let q = v.rooms r ∙ oldest in
    let (p, f, c) = oldest-found r rm k rest v q in
    let (taken, told) = remove-found_fields k rm p f in
    let v' = remove_pending_message-IsMatched k rm v in
    rw
      (
        handle_ack-room e r rm k rest a q (named-find k rm.pending_messages v.named f),
        confirm_key-found k rm p f,
      )
      (
        refl,
        (p, record { pending = f; taken = taken; told = refl }, c),
        sym (v'.rooms r) ∙ rest-queue r rm k rest v q,
        events-IsMatched _ _ v',
      )
