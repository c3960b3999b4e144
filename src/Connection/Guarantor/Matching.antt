-- ===== src/Connection/Guarantor/Matching.antt =====
-- connection/reliability_guarantor.go: the queues of the rooms and the map of pending messages.
use live_chat_room.Prelude.{
  ℕ, Bool, true, false, Option, none, some, [], ◌∷◌, ◌++◌, ◌==◌, ◌≡◌, refl, sym, ap, ◌∙◌, inl, inr,
  Bool-cases, Option-cases, ==_iff, append_nil, length, if◌then◌else◌,
}
use live_chat_room.Message.Envelope.{Bytes, Envelope}
use live_chat_room.Pending.{find, delete, insert, update, remove_key, set_room}
use live_chat_room.Pending.Queues.{
  IsFresh, IsDistinct, keys_of, keys_of-delete_in, keys_of-delete_out, keys_of-insert,
  keys_of-update, IsDistinct-delete, IsDistinct-insert, IsDistinct-update, IsNamed, IsNamed-delete,
  IsNamed-insert, IsNamed-update,
}
use live_chat_room.Connection.Guarantor.{
  PendingServerMessage, Guarantor, new_reliability_guarantor, get_envelope_room, enqueue_room,
  dequeue_room, remove_pending_message,
}

abbrev pub is_room : ℕ → Option ℕ → Bool
is_room r none = false
is_room r (some s) = s == r

abbrev pub in_room : ℕ → PendingServerMessage → Bool
in_room r p = is_room r (get_envelope_room p.envelope)

-- The queue of each room has the keys of its pending messages, oldest first.
pub record IsMatched (rg : Guarantor) : Type 0 where
  pub distinct : IsDistinct rg.pending_messages
  pub named : IsNamed rg.pending_messages
  pub rooms : (r : ℕ) → rg.room_pending_queues r ≡ keys_of (in_room r) rg.pending_messages

pub new-IsMatched :
    (enabled : Bool) (n ttl : ℕ) → IsMatched (new_reliability_guarantor enabled n ttl)
unfolding new_reliability_guarantor keys_of
new-IsMatched enabled n ttl = record { distinct = tt; named = tt; rooms = λ r. refl }

module _ (key : Bytes) (rg : Guarantor) (p : PendingServerMessage) where
  dequeue_room-IsMatched :
      (room : Option ℕ)
      → get_envelope_room p.envelope ≡ room
      → find key rg.pending_messages ≡ some p
      → IsMatched rg
      → IsMatched
          (dequeue_room room key (record rg { pending_messages = delete key rg.pending_messages }))
  unfolding dequeue_room set_room
  dequeue_room-IsMatched none e f v = record {
    distinct = IsDistinct-delete key _ v.distinct;
    named = IsNamed-delete key _ v.named;
    rooms = λ r. v.rooms r ∙ sym (keys_of-delete_out (in_room r) key _ p f (ap (is_room r) e));
  }
  dequeue_room-IsMatched (some s) e f v = record {
    distinct = IsDistinct-delete key _ v.distinct;
    named = IsNamed-delete key _ v.named;
    rooms = λ r. elim (Bool-cases (s == r)) [
      | inl h ↦ rw h (
          ap (remove_key key) (v.rooms s)
          ∙ ap (λ r. remove_key key (keys_of (in_room r) rg.pending_messages)) ((==_iff s r).0 h)
          ∙ sym (keys_of-delete_in (in_room r) key _ p f (ap (is_room r) e ∙ h)))
      | inr h ↦
          rw h (v.rooms r ∙ sym (keys_of-delete_out (in_room r) key _ p f (ap (is_room r) e ∙ h)))
    ];
  }

  -- The queue of a room, once the message stands at the end of the pending ones.
  grows :
      (r : ℕ) (b : Bool)
      → IsFresh key rg.pending_messages
      → IsMatched rg
      → in_room r p ≡ b
      → rg.room_pending_queues r ++ (if b then key ∷ [] else [])
        ≡ keys_of (in_room r) (insert key p rg.pending_messages)
  grows r b fresh v h =
      ap (λ q. q ++ (if b then key ∷ [] else [])) (v.rooms r)
      ∙ ap (λ b. keys_of (in_room r) rg.pending_messages ++ (if b then key ∷ [] else [])) (sym h)
      ∙ sym (keys_of-insert (in_room r) key p rg.pending_messages fresh)

  pub enqueue_room-IsMatched :
      (room : Option ℕ)
      → get_envelope_room p.envelope ≡ room
      → IsFresh key rg.pending_messages
      → (length key == 0) ≡ false
      → IsMatched rg
      → IsMatched (
          enqueue_room room key (record rg { pending_messages = insert key p rg.pending_messages }))
  unfolding enqueue_room set_room
  enqueue_room-IsMatched none e fresh name v = record {
    distinct = IsDistinct-insert key p _ fresh v.distinct;
    named = IsNamed-insert key p _ name v.named;
    rooms =
        λ r. sym (append_nil (rg.room_pending_queues r)) ∙ grows r false fresh v (ap (is_room r) e);
  }
  enqueue_room-IsMatched (some s) e fresh name v = record {
    distinct = IsDistinct-insert key p _ fresh v.distinct;
    named = IsNamed-insert key p _ name v.named;
    rooms = λ r. elim (Bool-cases (s == r)) [
      | inl h ↦ rw h (
          ap (λ t. rg.room_pending_queues t ++ (key ∷ [])) ((==_iff s r).0 h)
          ∙ grows r true fresh v (ap (is_room r) e ∙ h))
      | inr h ↦ rw h (
          sym (append_nil (rg.room_pending_queues r))
          ∙ grows r false fresh v (ap (is_room r) e ∙ h))
    ];
  }

pub remove_pending_message-IsMatched :
    (key : Bytes) (rg : Guarantor) → IsMatched rg → IsMatched (remove_pending_message key rg).1
unfolding remove_pending_message
remove_pending_message-IsMatched key rg v = elim (Option-cases (find key rg.pending_messages)) [
  | inl e ↦ rw (e, remove_pending_message) v
  | inr (p, e) ↦
      rw (e, remove_pending_message)
        (dequeue_room-IsMatched key rg p (get_envelope_room p.envelope) refl e v)
]

-- A change of a pending message that keeps its envelope.
pub update-IsMatched :
    (key : Bytes) (f : PendingServerMessage → PendingServerMessage) (rg : Guarantor)
    → ((p : PendingServerMessage) → (f p).envelope ≡ p.envelope)
    → IsMatched rg
    → IsMatched (record rg { pending_messages = update key f rg.pending_messages })
update-IsMatched key f rg same_envelope v = record {
  distinct = IsDistinct-update key f _ v.distinct;
  named = IsNamed-update key f _ v.named;
  rooms = λ r.
      v.rooms r
      ∙ sym (
          keys_of-update (in_room r) key f rg.pending_messages
            (λ p. ap (λ (e : Envelope). is_room r (get_envelope_room e)) (same_envelope p)));
}

-- The invariant speaks of the map and the queues only.
pub rest-IsMatched :
    {rg rg' : Guarantor}
    → rg'.pending_messages ≡ rg.pending_messages
    → rg'.room_pending_queues ≡ rg.room_pending_queues
    → IsMatched rg
    → IsMatched rg'
rest-IsMatched e h v = record {
  distinct = rw e v.distinct;
  named = rw e v.named;
  rooms = λ r. rw (e, h) (v.rooms r);
}
