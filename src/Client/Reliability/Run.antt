-- ===== src/Client/Reliability/Run.antt =====
-- client/reliability.go: sequences of handlers.
use live_chat_room.Prelude.{
  ℕ, ◌+◌, Bool, true, false, Option, none, some, List, [], ◌∷◌, ◌++◌, ◌==◌, ◌≡◌, refl, sym, ap, ◌∙◌,
  append_nil, inl, inr, Bool-cases, if◌then◌else◌, if_cases, length, ==_iff,
}
use live_chat_room.Message.Envelope.{Bytes, Envelope}
use live_chat_room.Pending.{insert, set_room}
use live_chat_room.Pending.Queues.{
  IsFresh, keys_of, keys_of-insert, IsDistinct-insert, IsNamed-insert,
}
use live_chat_room.Client.Reliability.{
  message_timeout, message_sent, PendingMessage, ReliabilityManager, new_reliability_manager, Match,
  allocation, untracked, fetch, room, match_of, enqueue, enqueue_for_ack_matching,
  remove_pending_message, SendError, is_heartbeat, send_message, handle_fetch_timeout, Network,
  handle_message_timeout, outcome_state, handle_ack, expired_keys, remove_all, cleanup,
  get_message_key,
}
use live_chat_room.Client.Reliability.Matching.{
  is_room, is_allocation, in_room, in_allocation, IsMatched, new-IsMatched,
  remove_pending_message-IsMatched, events-IsMatched,
}
use live_chat_room.Client.Reliability.Keeping.{
  handle_message_failure-IsMatched, update-IsMatched, counts-IsMatched,
  handle_message_timeout-IsMatched,
}
use live_chat_room.Client.Reliability.Answers.{handle_ack-IsMatched}

-- A new message at the end of the pending messages, and its key at the end of its queue
module _ (key : Bytes) (p : PendingMessage) (rm : ReliabilityManager)
    (fresh : IsFresh key rm.pending_messages) (name : (length key == 0) ≡ false) where
  -- The queue of a class after the insertion
  grows :
      (c : PendingMessage → Bool) (queue : List Bytes) (b : Bool)
      → queue ≡ keys_of c rm.pending_messages
      → c p ≡ b
      → queue ++ (if b then key ∷ [] else []) ≡ keys_of c (insert key p rm.pending_messages)
  grows c queue b e h =
      ap (λ q. q ++ (if b then key ∷ [] else [])) e
      ∙ ap (λ b. keys_of c rm.pending_messages ++ (if b then key ∷ [] else [])) (sym h)
      ∙ sym (keys_of-insert c key p rm.pending_messages fresh)

  same_queue :
      (c : PendingMessage → Bool) (queue : List Bytes)
      → queue ≡ keys_of c rm.pending_messages
      → c p ≡ false
      → queue ≡ keys_of c (insert key p rm.pending_messages)
  same_queue c queue e h = sym (append_nil queue) ∙ grows c queue false e h

  enqueue-IsMatched :
      (m : Match)
      → match_of p.envelope ≡ m
      → IsMatched rm
      → IsMatched
          (enqueue m key (record rm { pending_messages = insert key p rm.pending_messages }))
  unfolding enqueue set_room
  enqueue-IsMatched allocation e v = record {
    distinct = IsDistinct-insert key p _ fresh v.distinct;
    named = IsNamed-insert key p _ name v.named;
    rooms = λ r. same_queue (in_room r) _ (v.rooms r) (ap (is_room r) e);
    allocations = grows in_allocation _ true v.allocations (ap is_allocation e);
  }
  enqueue-IsMatched untracked e v = record {
    distinct = IsDistinct-insert key p _ fresh v.distinct;
    named = IsNamed-insert key p _ name v.named;
    rooms = λ r. same_queue (in_room r) _ (v.rooms r) (ap (is_room r) e);
    allocations = same_queue in_allocation _ v.allocations (ap is_allocation e);
  }
  enqueue-IsMatched (fetch s) e v = record {
    distinct = IsDistinct-insert key p _ fresh v.distinct;
    named = IsNamed-insert key p _ name v.named;
    rooms = λ r. same_queue (in_room r) _ (v.rooms r) (ap (is_room r) e);
    allocations = same_queue in_allocation _ v.allocations (ap is_allocation e);
  }
  enqueue-IsMatched (room s) e v = record {
    distinct = IsDistinct-insert key p _ fresh v.distinct;
    named = IsNamed-insert key p _ name v.named;
    rooms = λ r. elim (Bool-cases (s == r)) [
      | inl h ↦
          let q : s ≡ r = (==_iff s r).0 h in
          rw h (
            ap (λ t. rm.room_pending_queues t ++ (key ∷ [])) q
            ∙ grows (in_room r) _ true (v.rooms r) (ap (is_room r) e ∙ h))
      | inr h ↦ rw h (same_queue (in_room r) _ (v.rooms r) (ap (is_room r) e ∙ h))
    ];
    allocations = same_queue in_allocation _ v.allocations (ap is_allocation e);
  }

-- `SendMessage`, of a message whose key no pending message has
send_message-IsMatched :
    (now : ℕ) (sent : Bool) (e : Envelope) (bytes : Bytes) (rm : ReliabilityManager)
    → IsFresh (get_message_key e) rm.pending_messages
    → (length (get_message_key e) == 0) ≡ false
    → IsMatched rm
    → IsMatched (send_message now sent e bytes rm).1
unfolding send_message enqueue_for_ack_matching
send_message-IsMatched now sent e bytes rm fresh name v =
    let key = get_message_key e in
    let p : PendingMessage = record {
      envelope = e;
      bytes = bytes;
      sent_time = now;
      retries = 0;
      timer = none;
    } in
    let rm' =
      enqueue (match_of e) key
        (record rm { pending_messages = insert key p rm.pending_messages }) in
    let v' : IsMatched rm' = enqueue-IsMatched key p rm fresh name (match_of e) refl v in
    let Q : Option SendError × ReliabilityManager → Type 0 = λ x. IsMatched x.1 in
    if_cases Q (is_heartbeat e.message) (λ h. v)
      (λ h.
        if_cases Q sent
          (λ h.
            counts-IsMatched _ rm'.total_retries rm'.total_fetches (rm'.total_messages_sent + 1) (
              events-IsMatched _ (rm'.events ++ (message_sent e ∷ [])) (
                update-IsMatched key (λ p. record p { timer = some message_timeout }) rm'
                  (λ p. refl) v')))
          (λ h. remove_pending_message-IsMatched key rm' v'))

remove_all-IsMatched :
    (keys : List Bytes) (rm : ReliabilityManager) → IsMatched rm → IsMatched (remove_all keys rm)
unfolding remove_all
remove_all-IsMatched [] rm v = v
remove_all-IsMatched (k ∷ ks) rm v =
    remove_all-IsMatched ks (remove_pending_message k rm).1
      (remove_pending_message-IsMatched k rm v)

-- A handler that runs, with what it meets
pub data Handler : Type 0 where
  send : (now : ℕ) (sent : Bool) (e : Envelope) (bytes : Bytes) → Handler
  acknowledge : (e : Envelope) → Handler
  message_expires : (net : Network) (key : Bytes) → Handler
  fetch_expires : (key : Bytes) → Handler
  clean_up : (now : ℕ) → Handler

unfoldable pub handle : Handler → ReliabilityManager → ReliabilityManager
handle (send now sent e bytes) rm = (send_message now sent e bytes rm).1
handle (acknowledge e) rm = (handle_ack e rm).1
handle (message_expires net key) rm = outcome_state (handle_message_timeout net key rm)
handle (fetch_expires key) rm = outcome_state (handle_fetch_timeout key rm)
handle (clean_up now) rm = cleanup now rm

unfoldable pub handle_all : List Handler → ReliabilityManager → ReliabilityManager
handle_all [] rm = rm
handle_all (h ∷ hs) rm = handle_all hs (handle h rm)

-- A message that is sent has a key of its own.
unfoldable pub IsNew : Handler → ReliabilityManager → Type 0
IsNew (send now sent e bytes) rm =
    IsFresh (get_message_key e) rm.pending_messages × ((length (get_message_key e) == 0) ≡ false)
IsNew _ rm = Unit {0}

unfoldable pub SendsNew : List Handler → ReliabilityManager → Type 0
SendsNew [] rm = Unit {0}
SendsNew (h ∷ hs) rm = IsNew h rm × SendsNew hs (handle h rm)

handle-IsMatched :
    (h : Handler) (rm : ReliabilityManager) → IsNew h rm → IsMatched rm → IsMatched (handle h rm)
unfolding handle IsNew handle_fetch_timeout cleanup
handle-IsMatched (send now sent e bytes) rm n v =
    send_message-IsMatched now sent e bytes rm n.0 n.1 v
handle-IsMatched (acknowledge e) rm n v = handle_ack-IsMatched e rm v
handle-IsMatched (message_expires net key) rm n v = handle_message_timeout-IsMatched net key rm v
handle-IsMatched (fetch_expires key) rm n v = handle_message_failure-IsMatched false key rm v
handle-IsMatched (clean_up now) rm n v =
    remove_all-IsMatched (expired_keys now rm.pending_messages) rm v

-- After any sequence of handlers on a new manager, as long as each message that is sent has a key
-- that is not empty and that no pending message has, the pending messages have distinct keys, and
-- the queue of each room, and that of the allocations, holds exactly the keys of its pending
-- messages, in the order in which these were sent.
pub handle_all-IsMatched :
    (max_retries : ℕ) (hs : List Handler)
    → SendsNew hs (new_reliability_manager max_retries)
    → IsMatched (handle_all hs (new_reliability_manager max_retries))
unfolding handle_all SendsNew
handle_all-IsMatched max_retries hs new =
    go hs (new_reliability_manager max_retries) new (new-IsMatched max_retries)
  where
    go :
        (hs : List Handler) (rm : ReliabilityManager)
        → SendsNew hs rm
        → IsMatched rm
        → IsMatched (handle_all hs rm)
    go [] rm n v = v
    go (h ∷ hs) rm n v = go hs (handle h rm) n.1 (handle-IsMatched h rm n.0 v)
