-- ===== src/Client/Reliability/Matching.antt =====
-- client/reliability.go: the queues of keys and the map of pending messages.
use live_chat_room.Prelude.{
  ℕ, Bool, true, false, none, some, List, [], ◌∷◌, ◌++◌, ◌==◌, ◌≡◌, refl, sym, ap, ◌∙◌, inl, inr,
  Bool-cases, Option-cases, ==_iff,
}
use live_chat_room.Message.Envelope.{Bytes}
use live_chat_room.Pending.{find, delete, remove_key, set_room}
use live_chat_room.Pending.Queues.{
  IsDistinct, keys_of, keys_of-delete_in, keys_of-delete_out, find-head, IsDistinct-delete, IsNamed,
  IsNamed-delete, remove_key-head,
}
use live_chat_room.Client.Reliability.{
  PendingMessage, ReliabilityManager, new_reliability_manager, Match, allocation, untracked, fetch,
  room, match_of, dequeue, remove_pending_message, Event, message_delivered, confirm_message,
  confirm_key,
}

abbrev pub is_room : ℕ → Match → Bool
is_room r (room s) = s == r
is_room r _ = false

abbrev pub is_allocation : Match → Bool
is_allocation allocation = true
is_allocation _ = false

abbrev pub in_room : ℕ → PendingMessage → Bool
in_room r p = is_room r (match_of p.envelope)

abbrev pub in_allocation : PendingMessage → Bool
in_allocation p = is_allocation (match_of p.envelope)

pub record IsMatched (rm : ReliabilityManager) : Type 0 where
  pub distinct : IsDistinct rm.pending_messages
  pub named : IsNamed rm.pending_messages
  pub rooms : (r : ℕ) → rm.room_pending_queues r ≡ keys_of (in_room r) rm.pending_messages
  pub allocations : rm.allocate_queue ≡ keys_of in_allocation rm.pending_messages

pub new-IsMatched : (n : ℕ) → IsMatched (new_reliability_manager n)
unfolding new_reliability_manager keys_of
new-IsMatched n = record { distinct = tt; named = tt; rooms = λ r. refl; allocations = refl }

module _ (key : Bytes) (rm : ReliabilityManager) (p : PendingMessage) where
  dequeue-IsMatched :
      (m : Match)
      → match_of p.envelope ≡ m
      → find key rm.pending_messages ≡ some p
      → IsMatched rm
      → IsMatched (dequeue m key (record rm { pending_messages = delete key rm.pending_messages }))
  unfolding dequeue set_room
  dequeue-IsMatched allocation e f v = record {
    distinct = IsDistinct-delete key _ v.distinct;
    named = IsNamed-delete key _ v.named;
    rooms = λ r. v.rooms r ∙ sym (keys_of-delete_out (in_room r) key _ p f (ap (is_room r) e));
    allocations =
        ap (remove_key key) v.allocations
        ∙ sym (keys_of-delete_in in_allocation key _ p f (ap is_allocation e));
  }
  dequeue-IsMatched untracked e f v = record {
    distinct = IsDistinct-delete key _ v.distinct;
    named = IsNamed-delete key _ v.named;
    rooms = λ r. v.rooms r ∙ sym (keys_of-delete_out (in_room r) key _ p f (ap (is_room r) e));
    allocations =
        v.allocations ∙ sym (keys_of-delete_out in_allocation key _ p f (ap is_allocation e));
  }
  dequeue-IsMatched (fetch s) e f v = record {
    distinct = IsDistinct-delete key _ v.distinct;
    named = IsNamed-delete key _ v.named;
    rooms = λ r. v.rooms r ∙ sym (keys_of-delete_out (in_room r) key _ p f (ap (is_room r) e));
    allocations =
        v.allocations ∙ sym (keys_of-delete_out in_allocation key _ p f (ap is_allocation e));
  }
  dequeue-IsMatched (room s) e f v = record {
    distinct = IsDistinct-delete key _ v.distinct;
    named = IsNamed-delete key _ v.named;
    rooms = λ r. elim (Bool-cases (s == r)) [
      | inl h ↦ rw h (
          ap (remove_key key) (v.rooms s)
          ∙ ap (λ r. remove_key key (keys_of (in_room r) rm.pending_messages)) ((==_iff s r).0 h)
          ∙ sym (keys_of-delete_in (in_room r) key _ p f (ap (is_room r) e ∙ h)))
      | inr h ↦
          rw h (v.rooms r ∙ sym (keys_of-delete_out (in_room r) key _ p f (ap (is_room r) e ∙ h)))
    ];
    allocations =
        v.allocations ∙ sym (keys_of-delete_out in_allocation key _ p f (ap is_allocation e));
  }

-- Taking a message out keeps the queues matched.
pub remove_pending_message-IsMatched :
    (key : Bytes) (rm : ReliabilityManager)
    → IsMatched rm
    → IsMatched (remove_pending_message key rm).1
unfolding remove_pending_message
remove_pending_message-IsMatched key rm v = elim (Option-cases (find key rm.pending_messages)) [
  | inl e ↦ rw (e, remove_pending_message) v
  | inr (p, e) ↦
      rw (e, remove_pending_message) (dequeue-IsMatched key rm p (match_of p.envelope) refl e v)
]

-- What a dequeued key leaves alone.
pub dequeue-keeps :
    (m : Match) (key : Bytes) (rm : ReliabilityManager)
    → ((dequeue m key rm).pending_messages ≡ rm.pending_messages)
      × ((dequeue m key rm).events ≡ rm.events)
      × ((dequeue m key rm).total_retries ≡ rm.total_retries)
      × ((dequeue m key rm).max_retries ≡ rm.max_retries)
unfolding dequeue
dequeue-keeps allocation key rm = (refl, refl, refl, refl)
dequeue-keeps untracked key rm = (refl, refl, refl, refl)
dequeue-keeps (fetch r) key rm = (refl, refl, refl, refl)
dequeue-keeps (room r) key rm = (refl, refl, refl, refl)

pub remove-missing :
    (key : Bytes) (rm : ReliabilityManager)
    → find key rm.pending_messages ≡ none
    → remove_pending_message key rm ≡ (none, rm)
unfolding remove_pending_message
remove-missing key rm f = rw (f, remove_pending_message)

module _ (key : Bytes) (rm : ReliabilityManager) (p : PendingMessage)
    (found : find key rm.pending_messages ≡ some p) where
  pub remove-found : remove_pending_message key rm ≡ (
    some p,
    dequeue
        (match_of p.envelope)
        key
        (record rm { pending_messages = delete key rm.pending_messages }),
  )
  unfolding remove_pending_message
  remove-found = rw (found, remove_pending_message)

  pub remove-found_fields :
      ((remove_pending_message key rm).1.pending_messages ≡ delete key rm.pending_messages)
      × ((remove_pending_message key rm).1.events ≡ rm.events)
  remove-found_fields =
      let (a, b, c, d) =
        dequeue-keeps (match_of p.envelope) key
          (record rm { pending_messages = delete key rm.pending_messages }) in
      rw remove-found (a, b)

  pub confirm_key-found : confirm_key key rm ≡ record (remove_pending_message key rm).1 {
    events = rm.events ++ (message_delivered p.envelope ∷ []);
  }
  unfolding confirm_key confirm_message
  confirm_key-found =
      rw (remove-found, confirm_key)
        (λ i.
          record (dequeue (match_of p.envelope) key
            (record rm { pending_messages = delete key rm.pending_messages })) {
              events =
                  (dequeue-keeps (match_of p.envelope) key
                      (record rm { pending_messages = delete key rm.pending_messages })).1
                    i
                  ++ (message_delivered p.envelope ∷ []);
            })

-- The invariant speaks of the map and the queues only.
pub events-IsMatched :
    (rm : ReliabilityManager) (es : List Event)
    → IsMatched rm
    → IsMatched (record rm { events = es })
events-IsMatched rm es v = record {
  distinct = v.distinct;
  named = v.named;
  rooms = v.rooms;
  allocations = v.allocations;
}

-- The oldest pending message of a room is the one that the room's next acknowledgement confirms.
module _ (r : ℕ) (rm : ReliabilityManager) (k : Bytes) (rest : List Bytes) (v : IsMatched rm)
    (oldest : rm.room_pending_queues r ≡ k ∷ rest) where
  pub oldest-found :
      (p : PendingMessage) × (find k rm.pending_messages ≡ some p) × (in_room r p ≡ true)
  oldest-found =
      find-head (in_room r) k rest rm.pending_messages v.distinct (sym (v.rooms r) ∙ oldest)

  pub rest-queue : (remove_pending_message k rm).1.room_pending_queues r ≡ rest
  rest-queue =
      let (p, f, c) = oldest-found in
      let v' = remove_pending_message-IsMatched k rm v in
      v'.rooms r
      ∙ ap (keys_of (in_room r)) (remove-found_fields k rm p f).0
      ∙ keys_of-delete_in (in_room r) k rm.pending_messages p f c
      ∙ ap (remove_key k) (sym (v.rooms r) ∙ oldest)
      ∙ remove_key-head k rest
