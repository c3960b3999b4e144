-- ===== src/Client/Reliability/Answers.antt =====
-- client/reliability.go: the answers of the server, and the queues.
use live_chat_room.Prelude.{
  ℕ, ◌%◌, ◌^◌, Bool, true, false, not, Option, some, List, [], ◌∷◌, ◌==◌, ◌≡◌, refl, sym, ap, ◌∙◌,
  inl, inr, Option-cases, if_cases, length, hex,
}
use live_chat_room.Message.Envelope.{
  Bytes, Content, RoomAck, MessageFetchResponse, Envelope, allocate_room_id_ack,
  message_fetch_response, room_message_fetch_response, heartbeat_ack,
}
use live_chat_room.Pending.{find, delete, remove_key, set_room}
use live_chat_room.Pending.Queues.{
  keys_of, keys_of-delete_in, keys_of-delete_out, find-head, IsDistinct-delete, IsNamed-delete,
  remove_key-head, remove_key-fresh, delete-IsFresh, named-find,
}
use live_chat_room.Client.Reliability.{
  ReliabilityManager, Match, allocation, untracked, fetch, room, match_of, dequeue, confirm_key,
  handle_message_fetch_response, handle_room_fetch_response, head_key, tail_keys,
  get_original_message_key, is_ack_message, confirm_original, outcome_state, ack_content,
  handle_ack,
}
use live_chat_room.Client.Reliability.Matching.{
  is_room, is_allocation, in_room, in_allocation, IsMatched, remove-found,
}
use live_chat_room.Client.Reliability.Keeping.{
  confirm_removed-IsMatched, confirm_key-IsMatched, handle_message_failure-IsMatched, Settles,
}

allocation_only : (m : Match) → is_allocation m ≡ true → m ≡ allocation
allocation_only allocation e = refl
allocation_only untracked e = cc
allocation_only (fetch r) e = cc
allocation_only (room r) e = cc

module _ (k : Bytes) (rest : List Bytes) (rm : ReliabilityManager) (v : IsMatched rm)
    (q : rm.allocate_queue ≡ k ∷ rest) where
  oldest : keys_of in_allocation rm.pending_messages ≡ k ∷ rest
  oldest = sym v.allocations ∙ q

  -- The oldest allocation, whose key was taken from the queue before it is confirmed
  popped-IsMatched : IsMatched (confirm_key k (record rm { allocate_queue = rest }))
  unfolding confirm_key dequeue
  popped-IsMatched =
      let (p, f, c) = find-head in_allocation k rest rm.pending_messages v.distinct oldest in
      let e = allocation_only (match_of p.envelope) c in
      let left : keys_of in_allocation (delete k rm.pending_messages) ≡ rest =
        keys_of-delete_in in_allocation k rm.pending_messages p f c
        ∙ ap (remove_key k) oldest
        ∙ remove_key-head k rest in
      let gone : remove_key k rest ≡ rest =
        ap (remove_key k) (sym left)
        ∙ remove_key-fresh in_allocation k (delete k rm.pending_messages)
            (delete-IsFresh k rm.pending_messages v.distinct)
        ∙ left in
      rw (remove-found k (record rm { allocate_queue = rest }) p f, e)
        (confirm_removed-IsMatched (some p, _)
          (record {
            distinct = IsDistinct-delete k _ v.distinct;
            named = IsNamed-delete k _ v.named;
            rooms =
                λ r. v.rooms r ∙ sym (keys_of-delete_out (in_room r) k _ p f (ap (is_room r) e));
            allocations = gone ∙ sym left;
          }))

allocation-IsMatched :
    (queue : List Bytes) (rm : ReliabilityManager)
    → IsMatched rm
    → rm.allocate_queue ≡ queue
    → IsMatched (confirm_original (head_key queue, record rm { allocate_queue = tail_keys queue }))
unfolding confirm_original head_key tail_keys
allocation-IsMatched [] rm v q = record {
  distinct = v.distinct;
  named = v.named;
  rooms = v.rooms;
  allocations = sym q ∙ v.allocations;
}
allocation-IsMatched (k ∷ rest) rm v q =
    let (p, f, c) =
      find-head in_allocation k rest rm.pending_messages v.distinct (sym v.allocations ∙ q) in
    rw (named-find k rm.pending_messages {p = p} v.named f) (popped-IsMatched k rest rm v q)

original-IsMatched :
    (key : Bytes) (rm : ReliabilityManager) → IsMatched rm → IsMatched (confirm_original (key, rm))
unfolding confirm_original
original-IsMatched key rm v =
    if_cases IsMatched (length key == 0) (λ e. v) (λ e. confirm_key-IsMatched key rm v)

handle_message_fetch_response-IsMatched :
    (response : MessageFetchResponse) (rm : ReliabilityManager)
    → IsMatched rm
    → Settles (handle_message_fetch_response response rm)
unfolding handle_message_fetch_response outcome_state
handle_message_fetch_response-IsMatched response rm v =
    let key = hex response.message_id in
    elim (Option-cases (find key rm.pending_messages)) [
      | inl e ↦ rw (e, handle_message_fetch_response) v
      | inr (p, e) ↦
          rw (e, handle_message_fetch_response)
            (if_cases Settles response.exists (λ h. confirm_key-IsMatched key rm v)
              (λ h. handle_message_failure-IsMatched false key rm v))
    ]

fetches-IsMatched :
    (rm : ReliabilityManager)
    → IsMatched rm
    → (table : ℕ → Bytes) → IsMatched (record rm { room_fetch_pending = table })
fetches-IsMatched rm v table = record {
  distinct = v.distinct;
  named = v.named;
  rooms = v.rooms;
  allocations = v.allocations;
}

handle_room_fetch_response-IsMatched :
    (response : RoomAck) (rm : ReliabilityManager)
    → IsMatched rm
    → IsMatched (handle_room_fetch_response response rm)
unfolding handle_room_fetch_response
handle_room_fetch_response-IsMatched response rm v =
    let r = response.room_id % 2 ^ 32 in
    let key = rm.room_fetch_pending r in
    let v' = fetches-IsMatched rm v (set_room r [] rm.room_fetch_pending) in
    if_cases IsMatched (length key == 0) (λ e. v') (λ e. confirm_key-IsMatched key _ v')

ack_content-IsMatched :
    (c : Option Content) (id : Bytes) (rm : ReliabilityManager)
    → IsMatched rm
    → IsMatched (ack_content c id rm)
unfolding ack_content get_original_message_key confirm_original
ack_content-IsMatched (some (message_fetch_response m)) id rm v =
    handle_message_fetch_response-IsMatched m rm v
ack_content-IsMatched (some (room_message_fetch_response m)) id rm v =
    handle_room_fetch_response-IsMatched m rm v
ack_content-IsMatched (some (allocate_room_id_ack a)) id rm v =
    allocation-IsMatched rm.allocate_queue rm v refl
ack_content-IsMatched (some heartbeat_ack) id rm v = v
ack_content-IsMatched c id rm v = original-IsMatched (get_original_message_key c id rm).0 rm v

pub handle_ack-IsMatched :
    (e : Envelope) (rm : ReliabilityManager) → IsMatched rm → IsMatched (handle_ack e rm).1
unfolding handle_ack
handle_ack-IsMatched e rm v =
    let Q : Bool × ReliabilityManager → Type 0 = λ x. IsMatched x.1 in
    if_cases Q (not (is_ack_message e.message)) (λ h. v)
      (λ h. ack_content-IsMatched e.message e.message_id rm v)
