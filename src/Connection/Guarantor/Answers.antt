-- ===== src/Connection/Guarantor/Answers.antt =====
-- connection/reliability_guarantor.go: what an acknowledgement and a fetch response do.
use live_chat_room.Prelude.{
  ℕ, ◌%◌, ◌^◌, Bool, true, false, ◌&&◌, Option, none, some, List, ◌∷◌, ◌==◌, ◌≡◌, refl, sym, ap,
  ◌∙◌, arith, hex, length, ==_iff,
}
use live_chat_room.Message.Envelope.{
  Bytes, RoomAck, MessageFetchResponse, Content, create_room_ack, join_room_ack, leave_room_ack,
  close_room_ack, chat_message_ack, Envelope, message_status_success,
}
use live_chat_room.Pending.{find, delete, remove_key}
use live_chat_room.Pending.Queues.{
  find-head, keys_of, keys_of-delete_in, remove_key-head, named-find, delete-IsFresh, find-fresh,
}
use live_chat_room.Connection.Guarantor.{
  PendingServerMessage, Guarantor, get_envelope_room, dequeue_room, remove_pending_message,
  returned, failed_removed, handle_message_failure, settle_fetched, handle_message_fetch_response,
  room_head, head_key, get_original_message_key, is_ack_message, handle_ack,
}
use live_chat_room.Connection.Guarantor.Matching.{
  is_room, in_room, IsMatched, remove_pending_message-IsMatched,
}

module _ (key : Bytes) (rg : Guarantor) where
  pub dequeue_room-keeps :
      (room : Option ℕ)
      → ((dequeue_room room key rg).pending_messages ≡ rg.pending_messages)
        × ((dequeue_room room key rg).total_failed ≡ rg.total_failed)
        × ((dequeue_room room key rg).writes ≡ rg.writes)
  unfolding dequeue_room
  dequeue_room-keeps none = (refl, refl, refl)
  dequeue_room-keeps (some r) = (refl, refl, refl)

module _ (key : Bytes) (rg : Guarantor) (p : PendingServerMessage)
    (found : find key rg.pending_messages ≡ some p) where
  pub remove-found : remove_pending_message key rg ≡ (
    some p,
    dequeue_room
        (get_envelope_room p.envelope)
        key
        (record rg { pending_messages = delete key rg.pending_messages }),
  )
  unfolding remove_pending_message
  remove-found = rw (found, remove_pending_message)

  pub remove-found_fields :
      ((remove_pending_message key rg).1.pending_messages ≡ delete key rg.pending_messages)
      × ((remove_pending_message key rg).1.total_failed ≡ rg.total_failed)
  remove-found_fields =
      let kept =
        dequeue_room-keeps key (record rg { pending_messages = delete key rg.pending_messages })
          (get_envelope_room p.envelope) in
      rw remove-found (kept.0, kept.1)

-- The acknowledgement of a room that a content is.
unfoldable pub room_ack : Option Content → Option RoomAck
room_ack (some (create_room_ack a)) = some a
room_ack (some (join_room_ack a)) = some a
room_ack (some (leave_room_ack a)) = some a
room_ack (some (close_room_ack a)) = some a
room_ack (some (chat_message_ack a)) = some a
room_ack _ = none

room_ack-key :
    (c : Option Content) (a : RoomAck) (id : Bytes) (rg : Guarantor)
    → room_ack c ≡ some a
    → (is_ack_message c ≡ true) × (get_original_message_key c id rg ≡ room_head a rg)
unfolding room_ack is_ack_message get_original_message_key
room_ack-key c a id rg h = ground arith

in_room-room : (r : ℕ) (o : Option ℕ) → is_room r o ≡ true → o ≡ some r
in_room-room r none h = cc
in_room-room r (some s) h = ap some ((==_iff s r).0 h)

remove-missing :
    (key : Bytes) (rg : Guarantor)
    → find key rg.pending_messages ≡ none
    → remove_pending_message key rg ≡ (none, rg)
unfolding remove_pending_message
remove-missing key rg f = rw (f, remove_pending_message)

handle_ack-key :
    (e : Envelope) (rg : Guarantor) (k : Bytes)
    → is_ack_message e.message ≡ true
    → get_original_message_key e.message e.message_id rg ≡ k
    → (length k == 0) ≡ false
    → handle_ack e rg ≡ (true, (remove_pending_message k rg).1)
unfolding handle_ack
handle_ack-key e rg k h g n = rw (h, g, n) refl

-- With the queues matched, an acknowledgement of a room takes out the message of that room that was
-- sent first, and it alone: the queue of the room loses its head, and the queues stay matched.
pub handle_ack_takes_oldest :
    (e : Envelope) (a : RoomAck) (rg : Guarantor) (k : Bytes) (rest : List Bytes)
    → IsMatched rg
    → room_ack e.message ≡ some a
    → rg.room_pending_queues (a.room_id % 2 ^ 32) ≡ k ∷ rest
    → (p : PendingServerMessage) × (find k rg.pending_messages ≡ some p)
      × (get_envelope_room p.envelope ≡ some (a.room_id % 2 ^ 32))
      × ((handle_ack e rg).0 ≡ true)
      × ((handle_ack e rg).1.pending_messages ≡ delete k rg.pending_messages)
      × ((handle_ack e rg).1.room_pending_queues (a.room_id % 2 ^ 32) ≡ rest)
      × IsMatched (handle_ack e rg).1
handle_ack_takes_oldest e a rg k rest v h q =
    let r = a.room_id % 2 ^ 32 in
    let (p, f, c) =
      find-head (in_room r) k rest rg.pending_messages v.distinct (sym (v.rooms r) ∙ q) in
    let (ack, key) = room_ack-key e.message a e.message_id rg h in
    let done =
      handle_ack-key e rg k ack (key ∙ (unfold room_head head_key in ap head_key q))
        (named-find k rg.pending_messages {p = p} v.named f) in
    let v' = remove_pending_message-IsMatched k rg v in
    let taken = (remove-found_fields k rg p f).0 in
    (
      p,
      f,
      in_room-room r (get_envelope_room p.envelope) c,
      ap (λ (x : Bool × Guarantor). x.0) done,
      ap (λ (x : Bool × Guarantor). x.1.pending_messages) done ∙ taken,
      ap (λ (x : Bool × Guarantor). x.1.room_pending_queues r) done
          ∙ (v'.rooms r
              ∙ (ap (keys_of (in_room r)) taken
                  ∙ (keys_of-delete_in (in_room r) k rg.pending_messages p f c
                      ∙ (ap (remove_key k) (sym (v.rooms r) ∙ q) ∙ remove_key-head k rest)))),
      rw done v',
    )

settle_gone :
    (key : Bytes) (confirmed : Bool) (p : PendingServerMessage) (rg : Guarantor)
    → find key rg.pending_messages ≡ none
    → settle_fetched key confirmed (some p, rg) ≡ returned rg
unfolding settle_fetched handle_message_failure failed_removed
settle_gone key true p rg gone = refl
settle_gone key false p rg gone = rw (remove-missing key rg gone) refl

-- A response to the fetch of a pending message takes the message out and returns, whatever it says;
-- a message that the server does not have is not counted as failed.
pub handle_message_fetch_response_settles :
    (response : MessageFetchResponse) (rg : Guarantor) (p : PendingServerMessage)
    → IsMatched rg
    → find (hex response.message_id) rg.pending_messages ≡ some p
    → (rg' : Guarantor) × (handle_message_fetch_response response rg ≡ returned rg')
      × (rg'.pending_messages ≡ delete (hex response.message_id) rg.pending_messages)
      × (rg'.total_failed ≡ rg.total_failed)
unfolding handle_message_fetch_response
handle_message_fetch_response_settles response rg p v found =
    let key = hex response.message_id in
    let rest = (remove_pending_message key rg).1 in
    let (taken, told) = remove-found_fields key rg p found in
    let gone : find key rest.pending_messages ≡ none =
      ap (find key) taken
      ∙ find-fresh key (delete key rg.pending_messages)
          (delete-IsFresh key rg.pending_messages v.distinct) in
    let confirmed = response.exists && response.status == message_status_success in
    (
      rest,
      ap (λ (o : Option PendingServerMessage). settle_fetched key confirmed (o, rest))
            (ap (λ (x : Option PendingServerMessage × Guarantor). x.0)
              (remove-found key rg p found))
          ∙ settle_gone key confirmed p rest gone,
      taken,
      told,
    )
