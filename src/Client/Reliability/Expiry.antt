-- ===== src/Client/Reliability/Expiry.antt =====
-- client/reliability.go: what becomes of a message whose timers run out one after another.
use live_chat_room.Prelude.{
  ℕ, zero, suc, ◌+◌, Bool, true, false, ◌&&◌, ◌||◌, none, some, [], ◌∷◌, ◌++◌, ◌≡◌, refl, sym, ap,
  ◌∙◌, arith, leb, if◌then◌else◌, if-true, if-false, append_nil, Bool-cases, inl, inr,
}
use live_chat_room.Message.Envelope.{Bytes}
use live_chat_room.Pending.{find, delete}
use live_chat_room.Pending.Queues.{IsDistinct, IsDistinct-update, delete-IsFresh, find-fresh}
use live_chat_room.Client.Reliability.{
  Callback, message_timeout, fetch_timeout, PendingMessage, ReliabilityManager, Match, allocation,
  untracked, fetch, room, message_failed, Outcome, returned, blocked, Network, match_of, dequeue,
  handle_message_failure, handle_message_timeout, handle_fetch_timeout, arm,
}
use live_chat_room.Client.Reliability.Matching.{remove-found, dequeue-keeps}
use live_chat_room.Client.Reliability.Retry.{
  gives_up, next_timer, retried, tried, timeout-found, tried-found, armed-found,
}

-- The timer that is armed for a message goes off.
unfoldable pub fire : Network → Bytes → ReliabilityManager → Outcome
fire net key rm = elim (find key rm.pending_messages) [
  | none ↦ returned rm
  | some p ↦ elim p.timer [
    | none ↦ returned rm
    | some message_timeout ↦ handle_message_timeout net key rm
    | some fetch_timeout ↦ handle_fetch_timeout key rm
  ]
]

-- The timers of a message go off, one after another, each on what the one before it left; `nets i` is
-- the network with `i` of them to come.
unfoldable pub expire : ℕ → (ℕ → Network) → Bytes → ReliabilityManager → Outcome
expire zero nets key rm = returned rm
expire (suc n) nets key rm = elim (fire (nets n) key rm) [
  | returned rm' ↦ expire n nets key rm'
  | blocked rm' ↦ blocked rm'
]

fire-timer :
    (net : Network) (key : Bytes) (rm : ReliabilityManager) {p : PendingMessage} (c : Callback)
    → find key rm.pending_messages ≡ some p
    → p.timer ≡ some c
    → fire net key rm ≡ elim c [
      | message_timeout ↦ handle_message_timeout net key rm
      | fetch_timeout ↦ handle_fetch_timeout key rm
    ]
unfolding fire
fire-timer net key rm {p} message_timeout e t = rw (fire, e, t) refl
fire-timer net key rm {p} fetch_timeout e t = rw (fire, e, t) refl

module _ (n : ℕ) (nets : ℕ → Network) (key : Bytes) (rm rm' : ReliabilityManager) where
  expire-returned :
      fire (nets n) key rm ≡ returned rm' → expire (suc n) nets key rm ≡ expire n nets key rm'
  unfolding expire
  expire-returned e = rw (expire, e) refl

  expire-blocked : fire (nets n) key rm ≡ blocked rm' → expire (suc n) nets key rm ≡ blocked rm'
  unfolding expire
  expire-blocked e = rw (expire, e) refl

-- The counters do not change when a message is taken out of its queue.
dequeue-counters :
    (m : Match) (key : Bytes) (rm : ReliabilityManager)
    → ((dequeue m key rm).total_retries ≡ rm.total_retries)
      × ((dequeue m key rm).total_fetches ≡ rm.total_fetches)
unfolding dequeue
dequeue-counters allocation key rm = (refl, refl)
dequeue-counters untracked key rm = (refl, refl)
dequeue-counters (fetch r) key rm = (refl, refl)
dequeue-counters (room r) key rm = (refl, refl)

-- A failure takes the message out; it is reported, unless the mutex of the message is held.
module _ (key : Bytes) (rm : ReliabilityManager) (p : PendingMessage)
    (d : IsDistinct rm.pending_messages) (found : find key rm.pending_messages ≡ some p) where
  abbrev removed : ReliabilityManager
  removed =
      dequeue (match_of p.envelope) key
        (record rm { pending_messages = delete key rm.pending_messages })

  removed-keeps :
      (find key removed.pending_messages ≡ none)
      × (removed.events ≡ rm.events)
      × (removed.total_retries ≡ rm.total_retries)
      × (removed.total_fetches ≡ rm.total_fetches)
  removed-keeps =
      let rest = record rm { pending_messages = delete key rm.pending_messages } in
      let (a, b, c, e) = dequeue-keeps (match_of p.envelope) key rest in
      let (retries, fetches) = dequeue-counters (match_of p.envelope) key rest in
      (
        ap (find key) a
            ∙ find-fresh key (delete key rm.pending_messages)
                (delete-IsFresh key rm.pending_messages d),
        b,
        retries,
        fetches,
      )

  failure_stuck : handle_message_failure true key rm ≡ blocked removed
  unfolding handle_message_failure
  failure_stuck = rw (remove-found key rm p found) refl

  failure_free :
      handle_message_failure false key rm
      ≡ returned (record removed { events = removed.events ++ (message_failed p.envelope ∷ []) })
  unfolding handle_message_failure
  failure_free = rw (remove-found key rm p found) refl

-- The fetch's timeout.
fetch_fails :
    (key : Bytes) (rm : ReliabilityManager) (p : PendingMessage)
    (d : IsDistinct rm.pending_messages) (found : find key rm.pending_messages ≡ some p)
    → handle_fetch_timeout key rm
      ≡ returned (record (removed key rm p d found) {
        events = (removed key rm p d found).events ++ (message_failed p.envelope ∷ []);
      })
unfolding handle_fetch_timeout
fetch_fails key rm p d found = failure_free key rm p d found

expire_none :
    (nets : ℕ → Network) (key : Bytes) (rm : ReliabilityManager)
    → expire 0 nets key rm ≡ returned rm
unfolding expire
expire_none nets key rm = refl

-- Whether the fetch request is made and sent, over a connection that is switched to.
abbrev pub asks : Network → Bool
asks net = net.switched && (net.fetch_built && net.fetch_sent)

-- What becomes of a message that has `n` retransmissions left.
abbrev pub RunsOut : ℕ → (ℕ → Network) → Bytes → ReliabilityManager → PendingMessage → Type 0
RunsOut n nets key rm p =
    (rm' : ReliabilityManager) × (expire (suc (suc n)) nets key rm
      ≡ (if asks (nets 1) then returned rm' else blocked rm'))
    × (find key rm'.pending_messages ≡ none)
    × (rm'.events ≡ rm.events ++ (if asks (nets 1) then message_failed p.envelope ∷ [] else []))
    × (rm'.total_retries ≡ rm.total_retries + suc n)
    × (rm'.total_fetches ≡ rm.total_fetches + 1)

module _ (key : Bytes) (rm : ReliabilityManager) (p : PendingMessage)
    (d : IsDistinct rm.pending_messages) (found : find key rm.pending_messages ≡ some p)
    (timer : p.timer ≡ some message_timeout) where
  distinct : IsDistinct (tried key p rm).pending_messages
  distinct = IsDistinct-update key _ rm.pending_messages d

  -- The timeout that has something to do, and the timer that it arms.
  goes_on : ReliabilityManager
  goes_on = arm key (next_timer (p.retries + 1) rm.max_retries) (tried key p rm)

  goes_on-keeps :
      IsDistinct goes_on.pending_messages
      × (find key goes_on.pending_messages ≡ some (retried rm.max_retries p))
      × (goes_on.max_retries ≡ rm.max_retries)
      × (goes_on.events ≡ rm.events)
      × (goes_on.total_retries ≡ rm.total_retries + 1)
      × (goes_on.total_fetches
          ≡ (if leb (p.retries + 1) rm.max_retries then rm.total_fetches else rm.total_fetches + 1))
  unfolding goes_on arm
  goes_on-keeps = (
    IsDistinct-update key _ _ distinct,
    armed-found (record { resent = true; switched = true; fetch_built = true; fetch_sent = true })
        key rm p found _,
    refl,
    refl,
    refl,
    refl,
  )

  timeout_fires :
      (net : Network)
      → fire net key rm ≡ (
          if gives_up net p rm
          then handle_message_failure true key (tried key p rm)
          else returned goes_on)
  unfolding goes_on
  timeout_fires net =
      fire-timer net key rm message_timeout found timer ∙ timeout-found net key rm p found

  module _ (nets : ℕ → Network) (over : leb (p.retries + 1) rm.max_retries ≡ false) where
    -- The fetch is asked for, and its timeout reports the failure.
    asked_last : asks (nets 1) ≡ true → RunsOut 0 nets key rm p
    asked_last asked =
        let goes : gives_up (nets 1) p rm ≡ false = ground (arith, over, asked) in
        let (d', there, most, events, retries, fetches) = goes_on-keeps in
        let q = retried rm.max_retries p in
        let (gone, told, retries', fetches') = removed-keeps key goes_on q d' there in
        let out = removed key goes_on q d' there in
        let rm' = record out { events = out.events ++ (message_failed p.envelope ∷ []) } in
        let armed : q.timer ≡ some fetch_timeout =
          ap (λ (b : Bool). some (if b then message_timeout else fetch_timeout)) over in
        rw asked (
          rm',
          expire-returned 1 nets key rm goes_on (timeout_fires (nets 1) ∙ if-false _ _ goes)
              ∙ expire-returned 0 nets key goes_on rm' (
                  fire-timer (nets 0) key goes_on fetch_timeout there armed
                  ∙ fetch_fails key goes_on q d' there)
              ∙ expire_none nets key rm',
          gone,
          ap (λ es. es ++ (message_failed p.envelope ∷ [])) (told ∙ events),
          omega (arith, retries, retries'),
          fetches' ∙ fetches ∙ if-false _ _ over,
        )

    -- The fetch is not asked for, and the timeout stays blocked.
    stuck_last : asks (nets 1) ≡ false → RunsOut 0 nets key rm p
    stuck_last failing =
        let stops : gives_up (nets 1) p rm ≡ true = ground (arith, over, failing) in
        let q = record p { retries = p.retries + 1 } in
        let there = tried-found (nets 1) key rm p found in
        let (gone, told, retries, fetches) = removed-keeps key (tried key p rm) q distinct there in
        rw failing (
          removed key (tried key p rm) q distinct there,
          expire-blocked 1 nets key rm _ (
              timeout_fires (nets 1)
              ∙ if-true _ _ stops
              ∙ failure_stuck key (tried key p rm) q distinct there),
          gone,
          told ∙ sym (append_nil rm.events),
          retries,
          fetches ∙ if-false _ _ over,
        )

  last_timers : (nets : ℕ → Network) → p.retries ≡ rm.max_retries → RunsOut 0 nets key rm p
  last_timers nets h =
      let over : leb (p.retries + 1) rm.max_retries ≡ false = ground arith in
      elim (Bool-cases (asks (nets 1))) [
        | inl asked ↦ asked_last nets over asked
        | inr failing ↦ stuck_last nets over failing
      ]

-- A pending message whose next timeout is armed and which has `n` retransmissions left, where the pending
-- messages have distinct keys, and while at each timeout the client can write it again or switch to
-- another connection: when its timers go off one after another, `n + 1` timeouts are counted as
-- retransmissions, and then one fetch. If the client can switch, and makes and sends the request, the
-- fetch's timeout takes the message out and reports its failure; else the timeout never returns, and
-- the message is out but its failure is not reported.
pub retransmissions_run_out :
    (n : ℕ) (nets : ℕ → Network) (key : Bytes) (rm : ReliabilityManager) (p : PendingMessage)
    → IsDistinct rm.pending_messages
    → find key rm.pending_messages ≡ some p
    → p.timer ≡ some message_timeout
    → p.retries + n ≡ rm.max_retries
    → ((i : ℕ) → (nets i).resent || (nets i).switched ≡ true)
    → RunsOut n nets key rm p
retransmissions_run_out zero nets key rm p d found timer h ok =
    last_timers key rm p d found timer nets (omega arith)
retransmissions_run_out (suc n) nets key rm p d found timer h ok =
    let again = goes_on key rm p d found timer in
    let left : leb (p.retries + 1) rm.max_retries ≡ true = ground arith in
    let (d', there, most, events, retries, fetches) = goes_on-keeps key rm p d found timer in
    let goes : gives_up (nets (suc (suc n))) p rm ≡ false =
      ground (arith, left, ok (suc (suc n))) in
    let armed = ap (λ (b : Bool). some (if b then message_timeout else fetch_timeout)) left in
    let (rm', ends, gone, events', retries', fetches') =
      retransmissions_run_out n nets key again (retried rm.max_retries p) d' there armed
        (omega (arith, most, h)) ok in
    (
      rm',
      expire-returned (suc (suc n)) nets key rm again
            (timeout_fires key rm p d found timer (nets (suc (suc n))) ∙ if-false _ _ goes)
          ∙ ends,
      gone,
      events'
          ∙ ap (λ es. es ++ (if asks (nets 1) then message_failed p.envelope ∷ [] else [])) events,
      omega (arith, retries, retries'),
      fetches' ∙ ap (λ k. k + 1) (fetches ∙ if-true _ _ left),
    )
