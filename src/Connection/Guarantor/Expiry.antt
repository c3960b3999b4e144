-- ===== src/Connection/Guarantor/Expiry.antt =====
-- connection/reliability_guarantor.go: what becomes of a message whose timers run out one after another.
use live_chat_room.Prelude.{
  ℕ, zero, suc, ◌+◌, Bool, true, false, ◌&&◌, Option, none, some, List, [], ◌∷◌, ◌++◌, ◌≡◌, ◌≤◌,
  refl, sym, ap, subst, ◌∙◌, arith, leb, is_some, if◌then◌else◌, if-true, if-false, append_assoc,
  append_nil,
}
use live_chat_room.Message.Envelope.{Bytes, Envelope}
use live_chat_room.Pending.{find}
use live_chat_room.Pending.Queues.{IsDistinct, IsDistinct-update}
use live_chat_room.Connection.Guarantor.{
  Callback, message_timeout, fetch_timeout, PendingServerMessage, Guarantor, Write, to_router,
  write_to, arm, Outcome, returned, blocked, handle_message_failure, handle_fetch_timeout,
  attempt_fetch_confirmation, handle_message_timeout,
}
use live_chat_room.Connection.Guarantor.Timeouts.{
  counted, timeout-found, counted-found, armed-found, write_to-keeps, sent_as, copies, request,
  write_to-writes, write_to-rest, removed, removed-keeps, failure_held, failure_free,
}

-- The timer that is armed for a message goes off.
unfoldable pub fire : Option Envelope → Bool → Bytes → Guarantor → Outcome
fire fetch sent key rg = elim (find key rg.pending_messages) [
  | none ↦ returned rg
  | some p ↦ elim p.timer [
    | none ↦ returned rg
    | some message_timeout ↦ handle_message_timeout fetch sent key rg
    | some fetch_timeout ↦ handle_fetch_timeout key rg
  ]
]

-- The timers of a message go off, one after another, each on what the one before it left.
unfoldable pub expire : ℕ → Option Envelope → Bool → Bytes → Guarantor → Outcome
expire zero fetch sent key rg = returned rg
expire (suc n) fetch sent key rg = elim (fire fetch sent key rg) [
  | returned rg' ↦ expire n fetch sent key rg'
  | blocked rg' ↦ blocked rg'
]

fire-timer :
    (fetch : Option Envelope) (sent : Bool) (key : Bytes) (rg : Guarantor)
    {p : PendingServerMessage} (c : Callback)
    → find key rg.pending_messages ≡ some p
    → p.timer ≡ some c
    → fire fetch sent key rg ≡ elim c [
      | message_timeout ↦ handle_message_timeout fetch sent key rg
      | fetch_timeout ↦ handle_fetch_timeout key rg
    ]
unfolding fire
fire-timer fetch sent key rg {p} message_timeout e t = rw (fire, e, t) refl
fire-timer fetch sent key rg {p} fetch_timeout e t = rw (fire, e, t) refl

module _ (n : ℕ) (fetch : Option Envelope) (sent : Bool) (key : Bytes) (rg rg' : Guarantor) where
  expire-returned :
      fire fetch sent key rg ≡ returned rg'
      → expire (suc n) fetch sent key rg ≡ expire n fetch sent key rg'
  unfolding expire
  expire-returned e = rw (expire, e) refl

  expire-blocked :
      fire fetch sent key rg ≡ blocked rg' → expire (suc n) fetch sent key rg ≡ blocked rg'
  unfolding expire
  expire-blocked e = rw (expire, e) refl

-- What becomes of a message that has `n` retransmissions left.
abbrev pub RunsOut : ℕ → Option Envelope → Bool → Bytes → Guarantor → PendingServerMessage → Type 0
RunsOut n fetch sent key rg p =
    let asked = is_some fetch && sent in
    (rg' : Guarantor) × (expire (suc (suc n)) fetch sent key rg
      ≡ (if asked then returned rg' else blocked rg'))
    × (find key rg'.pending_messages ≡ none)
    × (rg'.total_failed ≡ rg.total_failed + (if asked then 1 else 0))
    × (rg'.writes ≡ rg.writes ++ (copies n (sent_as p) ++ request fetch))

module _ (key : Bytes) (rg : Guarantor) (p : PendingServerMessage)
    (d : IsDistinct rg.pending_messages) (found : find key rg.pending_messages ≡ some p)
    (timer : p.timer ≡ some message_timeout) where
  -- The manager once the fetch has been counted.
  abbrev fetching : List Write → Guarantor
  fetching ws = record (counted key rg) {
    total_fetches = rg.total_fetches + 1;
    writes = rg.writes ++ ws;
  }

  no_retries_left :
      (fetch : Option Envelope) (sent : Bool)
      → p.retries ≡ rg.max_retries
      → fire fetch sent key rg ≡ attempt_fetch_confirmation fetch sent key (counted key rg)
  no_retries_left fetch sent h =
      fire-timer fetch sent key rg message_timeout found timer
      ∙ timeout-found fetch sent key rg p found
      ∙ if-false {b = leb (p.retries + 1) rg.max_retries} _ _ (ground arith)

  distinct : IsDistinct (counted key rg).pending_messages
  distinct = IsDistinct-update key _ rg.pending_messages d

  -- The fetch cannot be made or sent.
  stays_blocked :
      (fetch : Option Envelope) (sent : Bool) (ws : List Write)
      → fire fetch sent key rg ≡ handle_message_failure true key (fetching ws)
      → (rg' : Guarantor) × (expire 2 fetch sent key rg ≡ blocked rg')
        × (find key rg'.pending_messages ≡ none)
        × (rg'.total_failed ≡ rg.total_failed + 0)
        × (rg'.writes ≡ rg.writes ++ ws)
  stays_blocked fetch sent ws e =
      let q = record p { retries = p.retries + 1 } in
      let there = counted-found fetch sent key rg p found in
      let (gone, failed, wrote) = removed-keeps key (fetching ws) q distinct there in
      (
        removed key (fetching ws) q distinct there,
        expire-blocked 1 fetch sent key rg _ (e ∙ failure_held key (fetching ws) q distinct there),
        gone,
        omega (arith, failed),
        wrote,
      )

  last_timers :
      (fetch : Option Envelope) (sent : Bool)
      → p.retries ≡ rg.max_retries
      → RunsOut 0 fetch sent key rg p
  unfolding attempt_fetch_confirmation arm handle_fetch_timeout expire
  last_timers none sent h = stays_blocked none sent [] (
      no_retries_left none sent h
      ∙ ap
          (λ (ws : List Write).
            handle_message_failure true key (record (fetching []) { writes = ws }))
          (sym (append_nil rg.writes)))
  last_timers (some f) false h =
      stays_blocked (some f) false (to_router f ∷ []) (no_retries_left (some f) false h)
  last_timers (some f) true h =
      let asked = arm key fetch_timeout (fetching (to_router f ∷ [])) in
      let q = record p { retries = p.retries + 1; timer = some fetch_timeout } in
      let there =
        armed-found (some f) true key rg p found fetch_timeout (fetching (to_router f ∷ [])) refl in
      let d' =
        IsDistinct-update key
          (λ (q : PendingServerMessage). record q { timer = some fetch_timeout }) _ distinct in
      let (gone, failed, wrote) = removed-keeps key asked q d' there in
      let rg' = record (removed key asked q d' there) {
        total_failed = (removed key asked q d' there).total_failed + 1;
      } in
      (
        rg',
        expire-returned 1 (some f) true key rg asked (no_retries_left (some f) true h)
            ∙ expire-returned 0 (some f) true key asked rg' (
                fire-timer (some f) true key asked fetch_timeout there refl
                ∙ failure_free key asked q d' there),
        gone,
        omega (arith, failed),
        wrote,
      )

  -- A timeout while a retransmission is left.
  written_again : Guarantor
  written_again = arm key message_timeout (write_to p.target p.envelope p.bytes (counted key rg))

  retransmits :
      (fetch : Option Envelope) (sent : Bool)
      → p.retries + 1 ≤ rg.max_retries
      → fire fetch sent key rg ≡ returned written_again
  unfolding written_again
  retransmits fetch sent h =
      fire-timer fetch sent key rg message_timeout found timer
      ∙ timeout-found fetch sent key rg p found
      ∙ if-true {b = leb (p.retries + 1) rg.max_retries} _ _ (ground arith)

  written_again-keeps :
      IsDistinct written_again.pending_messages
      × (find key written_again.pending_messages
          ≡ some (record p { retries = p.retries + 1; timer = some message_timeout }))
      × (written_again.total_failed ≡ rg.total_failed)
      × (written_again.max_retries ≡ rg.max_retries)
      × (written_again.writes ≡ rg.writes ++ (sent_as p ∷ []))
  unfolding written_again arm
  written_again-keeps =
      let written = write_to p.target p.envelope p.bytes (counted key rg) in
      let same = write_to-keeps p.target p.envelope p.bytes (counted key rg) in
      let (failed, most) = write_to-rest p.target p.envelope p.bytes (counted key rg) in
      (
        IsDistinct-update key _ written.pending_messages (subst IsDistinct (sym same) distinct),
        armed-found none true key rg p found message_timeout written same,
        failed,
        most,
        write_to-writes p p.target (counted key rg) refl,
      )

-- A pending message whose next timeout is armed and which has `n` retransmissions left, where the pending
-- messages have distinct keys: when its timers go off one after another, it is written `n` times more
-- to where it goes, and then the fetch request is tried. If the request is made and sent, its timeout
-- takes the message out and counts a failure; else the timeout never returns, and the message is out
-- but its failure is not counted.
pub timers_run_out :
    (n : ℕ) (fetch : Option Envelope) (sent : Bool) (key : Bytes) (rg : Guarantor)
    (p : PendingServerMessage)
    → IsDistinct rg.pending_messages
    → find key rg.pending_messages ≡ some p
    → p.timer ≡ some message_timeout
    → p.retries + n ≡ rg.max_retries
    → RunsOut n fetch sent key rg p
timers_run_out zero fetch sent key rg p d found timer h =
    last_timers key rg p d found timer fetch sent (omega arith)
timers_run_out (suc n) fetch sent key rg p d found timer h =
    let again = written_again key rg p d found timer in
    let (distinct, there, failed, most, wrote) = written_again-keeps key rg p d found timer in
    let (rg', ends, gone, failed', wrote') =
      timers_run_out n fetch sent key again
        (record p { retries = p.retries + 1; timer = some message_timeout }) distinct there refl
        (omega (arith, most, h)) in
    (
      rg',
      expire-returned (suc (suc n)) fetch sent key rg again
            (retransmits key rg p d found timer fetch sent (omega (arith, h)))
          ∙ ends,
      gone,
      omega (arith, failed, failed'),
      wrote'
          ∙ ap (λ ws. ws ++ (copies n (sent_as p) ++ request fetch)) wrote
          ∙ append_assoc rg.writes (sent_as p ∷ []) (copies n (sent_as p) ++ request fetch),
    )
