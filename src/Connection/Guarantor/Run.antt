-- ===== src/Connection/Guarantor/Run.antt =====
-- connection/reliability_guarantor.go: sequences of handlers.
use live_chat_room.Prelude.{
  ℕ, ◌+◌, Bool, true, false, not, Option, none, some, List, [], ◌∷◌, ◌==◌, ◌≡◌, refl, if_cases, leb,
  length, hex, Option-cases, inl, inr,
}
use live_chat_room.Message.Envelope.{
  Bytes, Envelope, Content, MessageFetchResponse, message_fetch_response,
}
use live_chat_room.Pending.{find}
use live_chat_room.Pending.Queues.{IsFresh}
use live_chat_room.Connection.Guarantor.{
  Callback, message_timeout, PendingServerMessage, Target, client, router, Guarantor,
  new_reliability_guarantor, get_message_key, get_envelope_room, enqueue_room_pending,
  remove_pending_message, SendError, write_to, arm, send_tracked, send_reliable_message, Outcome,
  returned, blocked, failed_removed, handle_message_failure, handle_fetch_timeout,
  attempt_fetch_confirmation, handle_message_timeout, settle_fetched, handle_message_fetch_response,
  handle_fetch_response, get_original_message_key, is_ack_message, handle_ack, expired_keys,
  remove_all, cleanup,
}
use live_chat_room.Connection.Guarantor.Matching.{
  IsMatched, new-IsMatched, enqueue_room-IsMatched, remove_pending_message-IsMatched,
  update-IsMatched, rest-IsMatched,
}

abbrev pub outcome_state : Outcome → Guarantor
outcome_state (returned rg) = rg
outcome_state (blocked rg) = rg

abbrev Settles : Outcome → Type 0
Settles o = IsMatched (outcome_state o)

write_to-IsMatched :
    (target : Target) (e : Envelope) (bytes : Bytes) (rg : Guarantor)
    → IsMatched rg
    → IsMatched (write_to target e bytes rg)
unfolding write_to
write_to-IsMatched (client c) e bytes rg v = rest-IsMatched refl refl v
write_to-IsMatched router e bytes rg v = rest-IsMatched refl refl v

arm-IsMatched :
    (key : Bytes) (callback : Callback) (rg : Guarantor)
    → IsMatched rg
    → IsMatched (arm key callback rg)
unfolding arm
arm-IsMatched key callback rg v =
    update-IsMatched key (λ p. record p { timer = some callback }) rg (λ p. refl) v

failed_removed-IsMatched :
    (held : Bool) (x : Option PendingServerMessage × Guarantor)
    → IsMatched x.1
    → Settles (failed_removed held x)
unfolding failed_removed
failed_removed-IsMatched held (none, rg) v = v
failed_removed-IsMatched true (some p, rg) v = v
failed_removed-IsMatched false (some p, rg) v = rest-IsMatched refl refl v

handle_message_failure-IsMatched :
    (held : Bool) (key : Bytes) (rg : Guarantor)
    → IsMatched rg
    → Settles (handle_message_failure held key rg)
unfolding handle_message_failure
handle_message_failure-IsMatched held key rg v =
    failed_removed-IsMatched held (remove_pending_message key rg)
      (remove_pending_message-IsMatched key rg v)

attempt-IsMatched :
    (fetch : Option Envelope) (sent : Bool) (key : Bytes) (rg : Guarantor)
    → IsMatched rg
    → Settles (attempt_fetch_confirmation fetch sent key rg)
unfolding attempt_fetch_confirmation
attempt-IsMatched none sent key rg v =
    handle_message_failure-IsMatched true key _ (rest-IsMatched refl refl v)
attempt-IsMatched (some f) sent key rg v =
    if_cases Settles (not sent)
      (λ h. handle_message_failure-IsMatched true key _ (rest-IsMatched refl refl v))
      (λ h. arm-IsMatched key _ _ (rest-IsMatched refl refl v))

handle_message_timeout-IsMatched :
    (fetch : Option Envelope) (sent : Bool) (key : Bytes) (rg : Guarantor)
    → IsMatched rg
    → Settles (handle_message_timeout fetch sent key rg)
unfolding handle_message_timeout
handle_message_timeout-IsMatched fetch sent key rg v =
    elim (Option-cases (find key rg.pending_messages)) [
      | inl e ↦ rw (e, handle_message_timeout) v
      | inr (p, e) ↦
          let w =
            rest-IsMatched refl refl
              (update-IsMatched key (λ q. record q { retries = q.retries + 1 }) rg (λ q. refl) v) in
          rw (e, handle_message_timeout)
            (if_cases Settles (leb (p.retries + 1) rg.max_retries)
              (λ h.
                arm-IsMatched key message_timeout _
                  (write_to-IsMatched p.target p.envelope p.bytes _ w))
              (λ h. attempt-IsMatched fetch sent key _ w))
    ]

settle_fetched-IsMatched :
    (key : Bytes) (confirmed : Bool) (x : Option PendingServerMessage × Guarantor)
    → IsMatched x.1
    → Settles (settle_fetched key confirmed x)
unfolding settle_fetched
settle_fetched-IsMatched key confirmed (none, rg) v = v
settle_fetched-IsMatched key confirmed (some p, rg) v =
    if_cases Settles confirmed (λ h. v) (λ h. handle_message_failure-IsMatched false key rg v)

handle_message_fetch_response-IsMatched :
    (response : MessageFetchResponse) (rg : Guarantor)
    → IsMatched rg
    → Settles (handle_message_fetch_response response rg)
unfolding handle_message_fetch_response
handle_message_fetch_response-IsMatched response rg v =
    settle_fetched-IsMatched (hex response.message_id) _
      (remove_pending_message (hex response.message_id) rg)
      (remove_pending_message-IsMatched (hex response.message_id) rg v)

handle_fetch_response-IsMatched :
    (c : Option Content) (rg : Guarantor) → IsMatched rg → Settles (handle_fetch_response c rg)
unfolding handle_fetch_response
handle_fetch_response-IsMatched (some (message_fetch_response m)) rg v =
    handle_message_fetch_response-IsMatched m rg v
handle_fetch_response-IsMatched c rg v = v

handle_ack-IsMatched :
    (e : Envelope) (rg : Guarantor) → IsMatched rg → IsMatched (handle_ack e rg).1
unfolding handle_ack
handle_ack-IsMatched e rg v =
    let key = get_original_message_key e.message e.message_id rg in
    let Q : Bool × Guarantor → Type 0 = λ x. IsMatched x.1 in
    if_cases Q (not (is_ack_message e.message)) (λ h. v)
      (λ h. if_cases Q (length key == 0) (λ h. v) (λ h. remove_pending_message-IsMatched key rg v))

remove_all-IsMatched :
    (keys : List Bytes) (rg : Guarantor) → IsMatched rg → IsMatched (remove_all keys rg)
unfolding remove_all
remove_all-IsMatched [] rg v = v
remove_all-IsMatched (k ∷ ks) rg v =
    remove_all-IsMatched ks (remove_pending_message k rg).1
      (remove_pending_message-IsMatched k rg v)

send_tracked-IsMatched :
    (now : ℕ) (sent : Bool) (target : Target) (e : Envelope) (bytes : Bytes) (rg : Guarantor)
    → IsFresh (get_message_key e) rg.pending_messages
    → (length (get_message_key e) == 0) ≡ false
    → IsMatched rg
    → IsMatched (send_tracked now sent target e bytes rg).1
unfolding send_tracked enqueue_room_pending
send_tracked-IsMatched now sent target e bytes rg fresh name v =
    let key = get_message_key e in
    let p : PendingServerMessage = record {
      envelope = e;
      bytes = bytes;
      target = target;
      sent_time = now;
      retries = 0;
      timer = none;
    } in
    let w =
      write_to-IsMatched target e bytes _
        (enqueue_room-IsMatched key rg p (get_envelope_room e) refl fresh name v) in
    if_cases (λ (x : Option SendError × Guarantor). IsMatched x.1) (not sent)
      (λ h. remove_pending_message-IsMatched key _ w) (λ h. arm-IsMatched key message_timeout _ w)

send_reliable_message-IsMatched :
    (now : ℕ) (serialized : Option Bytes) (sent : Bool) (target : Target) (e : Envelope)
    (rg : Guarantor)
    → IsFresh (get_message_key e) rg.pending_messages
    → (length (get_message_key e) == 0) ≡ false
    → IsMatched rg
    → IsMatched (send_reliable_message now serialized sent target e rg).1
unfolding send_reliable_message
send_reliable_message-IsMatched now none sent target e rg fresh name v = v
send_reliable_message-IsMatched now (some bytes) sent target e rg fresh name v =
    if_cases (λ (x : Option SendError × Guarantor). IsMatched x.1) (not rg.enable_reliability)
      (λ h. write_to-IsMatched target e bytes rg v)
      (λ h. send_tracked-IsMatched now sent target e bytes rg fresh name v)

-- A handler that runs, with what it meets.
pub data Handler : Type 0 where
  send :
      (now : ℕ) (serialized : Option Bytes) (sent : Bool) (target : Target) (e : Envelope) → Handler
  acknowledge : (e : Envelope) → Handler
  fetched : (c : Option Content) → Handler
  message_expires : (fetch : Option Envelope) (sent : Bool) (key : Bytes) → Handler
  fetch_expires : (key : Bytes) → Handler
  clean_up : (now : ℕ) → Handler

unfoldable pub handle : Handler → Guarantor → Guarantor
handle (send now serialized sent target e) rg =
    (send_reliable_message now serialized sent target e rg).1
handle (acknowledge e) rg = (handle_ack e rg).1
handle (fetched c) rg = outcome_state (handle_fetch_response c rg)
handle (message_expires fetch sent key) rg =
    outcome_state (handle_message_timeout fetch sent key rg)
handle (fetch_expires key) rg = outcome_state (handle_fetch_timeout key rg)
handle (clean_up now) rg = cleanup now rg

unfoldable pub handle_all : List Handler → Guarantor → Guarantor
handle_all [] rg = rg
handle_all (h ∷ hs) rg = handle_all hs (handle h rg)

-- A message that is sent has a key of its own.
unfoldable pub SendsNew : List Handler → Guarantor → Type 0
SendsNew [] rg = Unit {0}
SendsNew (send now serialized sent target e ∷ hs) rg =
    IsFresh (get_message_key e) rg.pending_messages
    × ((length (get_message_key e) == 0) ≡ false)
    × SendsNew hs (handle (send now serialized sent target e) rg)
SendsNew (h ∷ hs) rg = SendsNew hs (handle h rg)

kept :
    (hs : List Handler) (rg : Guarantor)
    → SendsNew hs rg
    → IsMatched rg
    → IsMatched (handle_all hs rg)
unfolding handle_all SendsNew handle handle_fetch_timeout cleanup
kept [] rg n v = v
kept (send now serialized sent target e ∷ hs) rg n v =
    kept hs _ n.2 (send_reliable_message-IsMatched now serialized sent target e rg n.0 n.1 v)
kept (acknowledge e ∷ hs) rg n v = kept hs _ n (handle_ack-IsMatched e rg v)
kept (fetched c ∷ hs) rg n v = kept hs _ n (handle_fetch_response-IsMatched c rg v)
kept (message_expires fetch sent key ∷ hs) rg n v =
    kept hs _ n (handle_message_timeout-IsMatched fetch sent key rg v)
kept (fetch_expires key ∷ hs) rg n v = kept hs _ n (handle_message_failure-IsMatched false key rg v)
kept (clean_up now ∷ hs) rg n v =
    kept hs _ n
      (remove_all-IsMatched (expired_keys now rg.pending_message_ttl rg.pending_messages) rg v)

-- After any sequence of sends, acknowledgements, fetch responses, timeouts and cleanups on a new guarantor, as
-- long as each message that is sent has a key that is not empty and that no pending message has, the
-- pending messages have distinct keys, and the queue of each room holds exactly the keys of its pending
-- messages, in the order in which these were sent.
pub handle_all_keeps :
    (enabled : Bool) (max_retries ttl : ℕ) (hs : List Handler)
    → SendsNew hs (new_reliability_guarantor enabled max_retries ttl)
    → IsMatched (handle_all hs (new_reliability_guarantor enabled max_retries ttl))
handle_all_keeps enabled max_retries ttl hs n =
    kept hs (new_reliability_guarantor enabled max_retries ttl) n
      (new-IsMatched enabled max_retries ttl)
