-- ===== src/Client/Reliability/Keeping.antt =====
-- client/reliability.go: the parts of the handlers, and the queues.
use live_chat_room.Prelude.{
  ℕ, ◌+◌, Bool, true, false, not, Option, none, some, ◌≡◌, refl, sym, ap, ◌∙◌, inl, inr,
  Option-cases, if_cases, leb,
}
use live_chat_room.Message.Envelope.{Bytes}
use live_chat_room.Pending.{find, update}
use live_chat_room.Pending.Queues.{keys_of-update, IsDistinct-update, IsNamed-update}
use live_chat_room.Client.Reliability.{
  PendingMessage, ReliabilityManager, match_of, remove_pending_message, confirm_message,
  confirm_removed, confirm_key, Outcome, failed_removed, handle_message_failure, Network, arm,
  attempt_fetch_confirmation, handle_message_timeout, outcome_state,
}
use live_chat_room.Client.Reliability.Matching.{
  is_room, is_allocation, in_room, in_allocation, IsMatched, remove_pending_message-IsMatched,
  events-IsMatched,
}

-- Confirming and failing what was taken out
pub confirm_removed-IsMatched :
    (x : Option PendingMessage × ReliabilityManager) → IsMatched x.1 → IsMatched (confirm_removed x)
unfolding confirm_removed confirm_message
confirm_removed-IsMatched (none, rm) v = v
confirm_removed-IsMatched (some p, rm) v = events-IsMatched rm _ v

pub confirm_key-IsMatched :
    (key : Bytes) (rm : ReliabilityManager) → IsMatched rm → IsMatched (confirm_key key rm)
unfolding confirm_key
confirm_key-IsMatched key rm v =
    confirm_removed-IsMatched (remove_pending_message key rm)
      (remove_pending_message-IsMatched key rm v)

-- A handler's outcome, whether it returns or blocks, is matched.
abbrev pub Settles : Outcome → Type 0
Settles o = IsMatched (outcome_state o)

pub handle_message_failure-IsMatched :
    (held : Bool) (key : Bytes) (rm : ReliabilityManager)
    → IsMatched rm
    → Settles (handle_message_failure held key rm)
unfolding handle_message_failure outcome_state
handle_message_failure-IsMatched held key rm v =
    settles held (remove_pending_message key rm) (remove_pending_message-IsMatched key rm v)
  where
    settles :
        (held : Bool) (x : Option PendingMessage × ReliabilityManager)
        → IsMatched x.1
        → Settles (failed_removed held x)
    settles held (none, rm) v = v
    settles true (some p, rm) v = v
    settles false (some p, rm) v = events-IsMatched rm _ v

-- A change of the pending messages that keeps their envelopes
pub update-IsMatched :
    (key : Bytes) (f : PendingMessage → PendingMessage) (rm : ReliabilityManager)
    → ((p : PendingMessage) → (f p).envelope ≡ p.envelope)
    → IsMatched rm
    → IsMatched (record rm { pending_messages = update key f rm.pending_messages })
update-IsMatched key f rm h v = record {
  distinct = IsDistinct-update key f _ v.distinct;
  named = IsNamed-update key f _ v.named;
  rooms = λ r.
      v.rooms r
      ∙ sym (keys_of-update (in_room r) key f _ (λ p. ap (λ e. is_room r (match_of e)) (h p)));
  allocations =
      v.allocations
      ∙ sym
          (keys_of-update in_allocation key f _ (λ p. ap (λ e. is_allocation (match_of e)) (h p)));
}

pub counts-IsMatched :
    (rm : ReliabilityManager) (retries fetches sent : ℕ)
    → IsMatched rm
    → IsMatched
        (record rm { total_retries = retries; total_fetches = fetches; total_messages_sent = sent })
counts-IsMatched rm retries fetches sent v = record {
  distinct = v.distinct;
  named = v.named;
  rooms = v.rooms;
  allocations = v.allocations;
}

attempt_fetch_confirmation-IsMatched :
    (net : Network) (key : Bytes) (rm : ReliabilityManager)
    → IsMatched rm
    → Settles (attempt_fetch_confirmation net key rm)
unfolding attempt_fetch_confirmation arm outcome_state
attempt_fetch_confirmation-IsMatched net key rm v =
    let rm' = record rm { total_fetches = rm.total_fetches + 1 } in
    let v' = counts-IsMatched rm rm.total_retries (rm.total_fetches + 1) rm.total_messages_sent v in
    let fails = λ (h : Bool). handle_message_failure-IsMatched h key rm' v' in
    if_cases Settles (not net.switched) (λ e. fails true)
      (λ e.
        if_cases Settles (not net.fetch_built) (λ e. fails true)
          (λ e.
            if_cases Settles (not net.fetch_sent) (λ e. fails true)
              (λ e. update-IsMatched key _ rm' (λ p. refl) v')))

pub handle_message_timeout-IsMatched :
    (net : Network) (key : Bytes) (rm : ReliabilityManager)
    → IsMatched rm
    → Settles (handle_message_timeout net key rm)
unfolding handle_message_timeout arm outcome_state
handle_message_timeout-IsMatched net key rm v = elim (Option-cases (find key rm.pending_messages)) [
  | inl e ↦ rw (e, handle_message_timeout) v
  | inr (p, e) ↦
      let counted = record rm {
        pending_messages =
            update key (λ q. record q { retries = q.retries + 1 }) rm.pending_messages;
        total_retries = rm.total_retries + 1;
      } in
      let v' : IsMatched counted =
        counts-IsMatched _ (rm.total_retries + 1) rm.total_fetches rm.total_messages_sent
          (update-IsMatched key (λ q. record q { retries = q.retries + 1 }) rm (λ p. refl) v) in
      let armed = update-IsMatched key _ counted (λ p. refl) v' in
      rw (e, handle_message_timeout)
        (if_cases Settles (leb (p.retries + 1) rm.max_retries)
          (λ h.
            if_cases Settles net.resent (λ h. armed)
              (λ h.
                if_cases Settles net.switched (λ h. armed)
                  (λ h. handle_message_failure-IsMatched true key counted v')))
          (λ h. attempt_fetch_confirmation-IsMatched net key counted v'))
]
