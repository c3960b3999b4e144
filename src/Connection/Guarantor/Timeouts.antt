-- ===== src/Connection/Guarantor/Timeouts.antt =====
-- connection/reliability_guarantor.go: what a timeout and a failure change.
use live_chat_room.Prelude.{
  ℕ, zero, suc, ◌+◌, Bool, true, false, Option, none, some, List, [], ◌∷◌, ◌++◌, ◌≡◌, refl, ap, ◌∙◌,
  leb, if◌then◌else◌,
}
use live_chat_room.Message.Envelope.{Bytes, Envelope}
use live_chat_room.Pending.{find, delete, update}
use live_chat_room.Pending.Queues.{IsDistinct, find-update, delete-IsFresh, find-fresh}
use live_chat_room.Connection.Guarantor.{
  Callback, message_timeout, PendingServerMessage, Target, client, router, Guarantor, Write,
  to_client, to_router, write_to, arm, get_envelope_room, dequeue_room, returned, blocked,
  failed_removed, handle_message_failure, attempt_fetch_confirmation, handle_message_timeout,
}
use live_chat_room.Connection.Guarantor.Answers.{dequeue_room-keeps, remove-found}

-- The guarantor with one more retransmission counted.
abbrev pub counted : Bytes → Guarantor → Guarantor
counted key rg = record rg {
  pending_messages = update key (λ q. record q { retries = q.retries + 1 }) rg.pending_messages;
  total_retries = rg.total_retries + 1;
}

module _ (fetch : Option Envelope) (sent : Bool) (key : Bytes) (rg : Guarantor)
    (p : PendingServerMessage) (found : find key rg.pending_messages ≡ some p) where
  pub timeout-found : handle_message_timeout fetch sent key rg ≡ (
      if leb (p.retries + 1) rg.max_retries
      then returned
          (arm key message_timeout (write_to p.target p.envelope p.bytes (counted key rg)))
      else attempt_fetch_confirmation fetch sent key (counted key rg))
  unfolding handle_message_timeout
  timeout-found = rw (found, handle_message_timeout) refl

  pub counted-found :
      find key (counted key rg).pending_messages ≡ some (record p { retries = p.retries + 1 })
  counted-found =
      find-update key (λ (q : PendingServerMessage). record q { retries = q.retries + 1 }) _ found

  pub armed-found :
      (callback : Callback) (rg' : Guarantor)
      → rg'.pending_messages ≡ (counted key rg).pending_messages
      → find key (arm key callback rg').pending_messages
        ≡ some (record p { retries = p.retries + 1; timer = some callback })
  unfolding arm
  armed-found callback rg' e =
      find-update key (λ (q : PendingServerMessage). record q { timer = some callback }) _
        (ap (find key) e ∙ counted-found)

pub write_to-keeps :
    (target : Target) (e : Envelope) (bytes : Bytes) (rg : Guarantor)
    → (write_to target e bytes rg).pending_messages ≡ rg.pending_messages
unfolding write_to
write_to-keeps (client c) e bytes rg = refl
write_to-keeps router e bytes rg = refl

-- What is written for a message: its bytes to its client, or its envelope to the routers.
abbrev pub sent_as : PendingServerMessage → Write
sent_as p = elim p.target [ client c ↦ to_client c p.bytes | router ↦ to_router p.envelope ]

abbrev pub copies : ℕ → Write → List Write
copies zero w = []
copies (suc n) w = w ∷ copies n w

-- The request that is tried, when it can be made.
abbrev pub request : Option Envelope → List Write
request none = []
request (some f) = to_router f ∷ []

pub write_to-writes :
    (p : PendingServerMessage) (t : Target) (rg : Guarantor)
    → p.target ≡ t
    → (write_to t p.envelope p.bytes rg).writes ≡ rg.writes ++ (sent_as p ∷ [])
unfolding write_to
write_to-writes p (client c) rg e = rw e refl
write_to-writes p router rg e = rw e refl

pub write_to-rest :
    (t : Target) (e : Envelope) (bytes : Bytes) (rg : Guarantor)
    → ((write_to t e bytes rg).total_failed ≡ rg.total_failed)
      × ((write_to t e bytes rg).max_retries ≡ rg.max_retries)
unfolding write_to
write_to-rest (client c) e bytes rg = (refl, refl)
write_to-rest router e bytes rg = (refl, refl)

-- A failure takes the message out; it is counted, unless the mutex of the message is held.
module _ (key : Bytes) (rg : Guarantor) (p : PendingServerMessage)
    (d : IsDistinct rg.pending_messages) (found : find key rg.pending_messages ≡ some p) where
  abbrev pub removed : Guarantor
  removed =
      dequeue_room (get_envelope_room p.envelope) key
        (record rg { pending_messages = delete key rg.pending_messages })

  pub removed-keeps :
      (find key removed.pending_messages ≡ none)
      × (removed.total_failed ≡ rg.total_failed)
      × (removed.writes ≡ rg.writes)
  removed-keeps =
      let (a, b, c) =
        dequeue_room-keeps key (record rg { pending_messages = delete key rg.pending_messages })
          (get_envelope_room p.envelope) in
      (
        ap (find key) a
            ∙ find-fresh key (delete key rg.pending_messages)
                (delete-IsFresh key rg.pending_messages d),
        b,
        c,
      )

  pub failure_held : handle_message_failure true key rg ≡ blocked removed
  unfolding handle_message_failure failed_removed
  failure_held = rw (remove-found key rg p found) refl

  pub failure_free :
      handle_message_failure false key rg
      ≡ returned (record removed { total_failed = removed.total_failed + 1 })
  unfolding handle_message_failure failed_removed
  failure_free = rw (remove-found key rg p found) refl
