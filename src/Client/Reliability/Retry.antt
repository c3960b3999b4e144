-- ===== src/Client/Reliability/Retry.antt =====
-- client/reliability.go: what a timeout does, by retransmission, by a fetch, or by failure.
use live_chat_room.Prelude.{
  ℕ, ◌+◌, Bool, true, false, not, ◌||◌, none, some, [], ◌∷◌, ◌++◌, ◌≡◌, refl, ◌∙◌, ap, arith, leb,
  if◌then◌else◌, if-true, if-false,
}
use live_chat_room.Message.Envelope.{Bytes}
use live_chat_room.Pending.{find, update, delete}
use live_chat_room.Pending.Queues.{find-update}
use live_chat_room.Client.Reliability.{
  Callback, message_timeout, fetch_timeout, PendingMessage, ReliabilityManager, message_failed,
  returned, blocked, Network, handle_message_failure, handle_message_timeout,
  attempt_fetch_confirmation, handle_fetch_timeout, remove_pending_message, arm,
}
use live_chat_room.Client.Reliability.Matching.{remove-found, remove-found_fields, remove-missing}

-- Whether the network leaves a timeout nothing more to try.
abbrev pub gives_up : Network → PendingMessage → ReliabilityManager → Bool
gives_up net p rm =
    if leb (p.retries + 1) rm.max_retries
    then not (net.resent || net.switched)
    else not net.switched || (not net.fetch_built || not net.fetch_sent)

-- The callback of the next timer: a further timeout, or that of the fetch.
abbrev pub next_timer : ℕ → ℕ → Callback
next_timer retries max = if leb retries max then message_timeout else fetch_timeout

-- A message after one more timeout that could do something.
abbrev pub retried : ℕ → PendingMessage → PendingMessage
retried max p = record p { retries = p.retries + 1; timer = some (next_timer (p.retries + 1) max) }

pub failure_held :
    (key : Bytes) (rm : ReliabilityManager) (p : PendingMessage)
    → find key rm.pending_messages ≡ some p
    → handle_message_failure true key rm ≡ blocked (remove_pending_message key rm).1
unfolding handle_message_failure
failure_held key rm p f = rw (remove-found key rm p f) refl

-- The manager with one more retransmission counted, and a fetch where there are none left.
abbrev pub tried : Bytes → PendingMessage → ReliabilityManager → ReliabilityManager
tried key p rm = record rm {
  pending_messages = update key (λ q. record q { retries = q.retries + 1 }) rm.pending_messages;
  total_retries = rm.total_retries + 1;
  total_fetches =
      if leb (p.retries + 1) rm.max_retries then rm.total_fetches else rm.total_fetches + 1;
}

module _ (net : Network) (key : Bytes) (rm : ReliabilityManager) (p : PendingMessage)
    (f : find key rm.pending_messages ≡ some p) where
  pub timeout-found : handle_message_timeout net key rm ≡ (
      if gives_up net p rm
      then handle_message_failure true key (tried key p rm)
      else returned (arm key (next_timer (p.retries + 1) rm.max_retries) (tried key p rm)))
  unfolding handle_message_timeout attempt_fetch_confirmation
  timeout-found = rw (f, handle_message_timeout) (ground arith)

  pub tried-found :
      find key (tried key p rm).pending_messages ≡ some (record p { retries = p.retries + 1 })
  tried-found = find-update key (λ (q : PendingMessage). record q { retries = q.retries + 1 }) _ f

  pub armed-found :
      (callback : Callback)
      → find key (arm key callback (tried key p rm)).pending_messages
        ≡ some (record p { retries = p.retries + 1; timer = some callback })
  unfolding arm
  armed-found callback =
      find-update key (λ (q : PendingMessage). record q { timer = some callback }) _ tried-found

-- A timeout of a pending message, when the network lets it retransmit or fetch, counts one more
-- retransmission, leaves the message pending and arms the next timer: that of a further timeout as
-- long as retransmissions are left, and else that of the fetch.
pub handle_message_timeout_retries :
    (net : Network) (key : Bytes) (rm : ReliabilityManager) (p : PendingMessage)
    → find key rm.pending_messages ≡ some p
    → gives_up net p rm ≡ false
    → (rm' : ReliabilityManager) × (handle_message_timeout net key rm ≡ returned rm')
      × (find key rm'.pending_messages ≡ some (retried rm.max_retries p))
      × (rm'.max_retries ≡ rm.max_retries)
      × (rm'.events ≡ rm.events)
unfolding arm
handle_message_timeout_retries net key rm p f h = (
  arm key (next_timer (p.retries + 1) rm.max_retries) (tried key p rm),
  timeout-found net key rm p f ∙ if-false _ _ h,
  armed-found net key rm p f _,
  refl,
  refl,
)

-- When the network leaves it nothing to try, the timeout of a pending message never returns: it
-- locks the mutex of the message a second time. The message is no longer pending, and its failure
-- is not reported.
pub handle_message_timeout_blocks :
    (net : Network) (key : Bytes) (rm : ReliabilityManager) (p : PendingMessage)
    → find key rm.pending_messages ≡ some p
    → gives_up net p rm ≡ true
    → (rm' : ReliabilityManager) × (handle_message_timeout net key rm ≡ blocked rm')
      × (rm'.events ≡ rm.events)
      × (rm'.pending_messages ≡ delete key (tried key p rm).pending_messages)
handle_message_timeout_blocks net key rm p f h =
    let g = tried-found net key rm p f in
    let (taken, told) = remove-found_fields key (tried key p rm) _ g in
    (
      (remove_pending_message key (tried key p rm)).1,
      timeout-found net key rm p f ∙ if-true _ _ h ∙ failure_held key (tried key p rm) _ g,
      told,
      taken,
    )

-- When the fetch times out, a pending message is taken out and its failure reported; a message that
-- is no longer pending is left as it is.
pub handle_fetch_timeout_reports :
    (key : Bytes) (rm : ReliabilityManager)
    → ((p : PendingMessage)
        → find key rm.pending_messages ≡ some p
        → (rm' : ReliabilityManager) × (handle_fetch_timeout key rm ≡ returned rm')
          × (rm'.pending_messages ≡ delete key rm.pending_messages)
          × (rm'.events ≡ rm.events ++ (message_failed p.envelope ∷ [])))
      × (find key rm.pending_messages ≡ none → handle_fetch_timeout key rm ≡ returned rm)
unfolding handle_fetch_timeout handle_message_failure
handle_fetch_timeout_reports key rm = (
  λ p f.
      let (taken, told) = remove-found_fields key rm p f in
      let rest = (remove_pending_message key rm).1 in
      (
        record rest { events = rest.events ++ (message_failed p.envelope ∷ []) },
        rw (remove-found key rm p f) refl,
        taken,
        ap (λ es. es ++ (message_failed p.envelope ∷ [])) told,
      ),
  λ f. rw (remove-missing key rm f) refl,
)
