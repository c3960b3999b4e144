-- ===== src/Client/MessageProcessor/Bounds.antt =====
-- client/message_processor.go: the size of the buffer, and when no operation panics.
use live_chat_room.Prelude.{
  ℕ, ◌+◌, ◌≤◌, ◌<◌, Bool, true, not, Option, none, some, List, [], ◌∷◌, ◌++◌, ◌≡◌, refl, subst,
  arith, All, All-append, if_cases, leb, ltb, length, length-append, Option-cases, inl, inr,
}
use live_chat_room.Message.Envelope.{Envelope}
use live_chat_room.Client.MessageProcessor.{
  MessageProcessor, new_message_processor, start, is_duplicate_message, process_message,
  mark_message_seen, put_sorted, without_oldest, add_to_buffer, take_ready,
  process_buffered_messages, receive, process_loop_receive, ProcessorStep, start_up, process,
  take_one, tick, processor_step, processor_steps,
}
use live_chat_room.Client.MessageProcessor.Contents.{All-sort, All-take_ready}
use live_chat_room.Client.MessageProcessor.Order.{
  IsOrdered, sort-IsOrdered, take_ready-IsOrdered, take_ready_bound, length-sort,
}
use live_chat_room.Client.MessageProcessor.Handled.{IsSafe, handle_message_safe, handle_each_safe}

-- The message of the step has a handler that reads no nil pointer.
abbrev pub IsSafeStep : (Envelope → Bool) → ProcessorStep → Type 0
IsSafeStep nil_inside (process c e) = IsSafe nil_inside e
IsSafeStep nil_inside _ = Unit

module _ (nil_inside : Envelope → Bool) (n : ℕ) where
  -- The processor runs, holds no message whose handler panics, and its buffer is in the order of the
  -- identifiers and not over its size.
  record IsBounded (mp : MessageProcessor) : Type 0 where
    pub ordered : IsOrdered mp.message_buffer
    pub bounded : length mp.message_buffer ≤ n
    pub sized : mp.max_buffer_size ≡ n
    pub positive : 0 < n
    pub running : mp.started ≡ true
    pub buffered : All (IsSafe nil_inside) mp.message_buffer
    pub queued : All (IsSafe nil_inside) mp.process_chan

  -- The step is taken, and leaves the processor in order.
  abbrev Goes : Option MessageProcessor → Type 0
  Goes none = ⊥
  Goes (some mp) = IsBounded mp

  put_sorted-IsBounded :
      (e : Envelope) (kept : List Envelope) (mp : MessageProcessor)
      → length kept + 1 ≤ n
      → IsSafe nil_inside e
      → All (IsSafe nil_inside) kept
      → IsBounded mp
      → IsBounded (put_sorted e kept mp)
  unfolding put_sorted
  put_sorted-IsBounded e kept mp h safe all v = record {
    ordered = sort-IsOrdered (kept ++ (e ∷ []));
    bounded = omega (arith, length-sort (kept ++ (e ∷ [])), length-append kept (e ∷ []), h);
    sized = v.sized;
    positive = v.positive;
    running = v.running;
    buffered =
        All-sort (IsSafe nil_inside) (kept ++ (e ∷ []))
          (All-append (IsSafe nil_inside) kept (e ∷ []) all (safe, tt));
    queued = v.queued;
  }

  without_oldest-Goes :
      (e : Envelope) (es : List Envelope) (mp : MessageProcessor)
      → 0 < length es
      → length es ≤ n
      → IsSafe nil_inside e
      → All (IsSafe nil_inside) es
      → IsBounded mp
      → Goes (without_oldest e es mp)
  unfolding without_oldest
  without_oldest-Goes e [] mp p h safe all v = omega (arith, p)
  without_oldest-Goes e (d ∷ ds) mp p h safe all v =
      put_sorted-IsBounded e ds mp (omega (arith, h)) safe all.1 v

  add_to_buffer-Goes :
      (e : Envelope) (mp : MessageProcessor)
      → IsSafe nil_inside e
      → IsBounded mp
      → Goes (add_to_buffer e mp)
  unfolding add_to_buffer
  add_to_buffer-Goes e mp safe v =
      if_cases Goes (leb mp.max_buffer_size (length mp.message_buffer))
        (λ h.
          without_oldest-Goes e mp.message_buffer mp (ground (arith, v.positive, v.sized)) v.bounded
            safe v.buffered v)
        (λ h.
          put_sorted-IsBounded e mp.message_buffer mp (ground (arith, v.sized)) safe v.buffered v)

  -- The invariant speaks of these fields only.
  same_buffer :
      (mp mp' : MessageProcessor)
      → mp'.message_buffer ≡ mp.message_buffer
      → mp'.max_buffer_size ≡ mp.max_buffer_size
      → mp'.started ≡ mp.started
      → All (IsSafe nil_inside) mp'.process_chan
      → IsBounded mp
      → IsBounded mp'
  same_buffer mp mp' a b c q v = record {
    ordered = rw a v.ordered;
    bounded = rw a v.bounded;
    sized = rw b v.sized;
    positive = v.positive;
    running = rw c v.running;
    buffered = rw a v.buffered;
    queued = q;
  }

  process_message-Goes :
      (c : Bool) (e : Envelope) (mp : MessageProcessor)
      → IsSafe nil_inside e
      → IsBounded mp
      → Goes (process_message nil_inside c e mp)
  unfolding process_message mark_message_seen
  process_message-Goes c e mp safe v =
      let marked = mark_message_seen e mp in
      if_cases Goes (is_duplicate_message e mp) (λ _. v)
        (λ _.
          if_cases Goes (not mp.started) (λ h. cc (v.running, h))
            (λ _.
              if_cases Goes c (λ _. same_buffer mp marked refl refl refl v.queued v)
                (λ _.
                  if_cases Goes (ltb (length mp.process_chan) mp.max_buffer_size)
                    (λ _.
                      same_buffer mp (record marked { process_chan = mp.process_chan ++ (e ∷ []) })
                        refl refl refl
                        (All-append (IsSafe nil_inside) mp.process_chan (e ∷ []) v.queued
                          (safe, tt))
                        v)
                    (λ _. rw (handle_message_safe nil_inside e marked safe) (
                      same_buffer mp (record marked { handled = mp.handled ++ (e ∷ []) }) refl refl
                        refl v.queued v)))))

  receive-Goes :
      (es : List Envelope) (mp : MessageProcessor)
      → All (IsSafe nil_inside) es
      → IsBounded mp
      → Goes (receive es mp)
  unfolding receive
  receive-Goes [] mp q v = v
  receive-Goes (e ∷ es) mp q v =
      add_to_buffer-Goes e (record mp { process_chan = es }) q.0
        (same_buffer mp (record mp { process_chan = es }) refl refl refl q.1 v)

  tick-Goes :
      (now : ℕ) (mp : MessageProcessor)
      → IsBounded mp
      → Goes (process_buffered_messages nil_inside now mp)
  unfolding process_buffered_messages
  tick-Goes now mp v =
      let (ready, left) = All-take_ready (IsSafe nil_inside) now mp.message_buffer v.buffered in
      rw
        (
          process_buffered_messages,
          handle_each_safe nil_inside (take_ready now mp.message_buffer).0 mp ready,
        )
        (record {
          ordered = take_ready-IsOrdered now mp.message_buffer v.ordered;
          bounded = omega (arith, take_ready_bound now mp.message_buffer, v.bounded);
          sized = v.sized;
          positive = v.positive;
          running = v.running;
          buffered = left;
          queued = v.queued;
        })

  step-Goes :
      (s : ProcessorStep) (mp : MessageProcessor)
      → IsSafeStep nil_inside s
      → IsBounded mp
      → Goes (processor_step nil_inside s mp)
  unfolding processor_step process_loop_receive start
  step-Goes start_up mp h v =
      same_buffer mp (record mp { started = true }) refl refl (cc v.running) v.queued v
  step-Goes (process c e) mp h v = process_message-Goes c e mp h v
  step-Goes take_one mp h v =
      if_cases Goes mp.started (λ _. receive-Goes mp.process_chan mp v.queued v) (λ _. v)
  step-Goes (tick now) mp h v = if_cases Goes mp.started (λ _. tick-Goes now mp v) (λ _. v)

  steps-Goes :
      (ss : List ProcessorStep) (mp : MessageProcessor)
      → All (IsSafeStep nil_inside) ss
      → IsBounded mp
      → Goes (processor_steps nil_inside ss mp)
  unfolding processor_steps
  steps-Goes [] mp h v = v
  steps-Goes (s ∷ ss) mp h v = elim (Option-cases (processor_step nil_inside s mp)) [
    | inl e ↦ absurd (subst Goes e (step-Goes s mp h.0 v))
    | inr (next, e) ↦
        rw (processor_steps, e) (steps-Goes ss next h.1 (subst Goes e (step-Goes s mp h.0 v)))
  ]

  went :
      (o : Option MessageProcessor)
      → Goes o
      → (mp : MessageProcessor) × (o ≡ some mp)
        × IsOrdered mp.message_buffer
        × (length mp.message_buffer ≤ n)
  went none v = absurd v
  went (some mp) v = (mp, refl, v.ordered, v.bounded)

-- On a processor that has been started, whose buffer has a place at least, no sequence of messages,
-- receipts and ticks panics, as long as no message is processed whose handler reads a nil pointer: no
-- nil chat message with an identifier of 16 bytes, and none inside an acknowledgement or a fetch
-- response. After it the buffer is in the order of the identifiers and not over its size.
pub processor_steps-IsBounded :
    (nil_inside : Envelope → Bool) (buffer_size : ℕ) (ss : List ProcessorStep)
    → 0 < buffer_size
    → All (IsSafeStep nil_inside) ss
    → (mp : MessageProcessor) × (processor_steps nil_inside ss
          (start (new_message_processor buffer_size))
        ≡ some mp)
      × IsOrdered mp.message_buffer
      × (length mp.message_buffer ≤ buffer_size)
unfolding new_message_processor start
processor_steps-IsBounded nil_inside buffer_size ss h safe = went nil_inside buffer_size _ (
    steps-Goes nil_inside buffer_size ss (start (new_message_processor buffer_size)) safe (record {
      ordered = tt;
      bounded = omega arith;
      sized = refl;
      positive = h;
      running = refl;
      buffered = tt;
      queued = tt;
    }))
