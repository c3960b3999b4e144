-- ===== src/Client/MessageProcessor/Once.antt =====
-- client/message_processor.go: how often a message is handled.
use live_chat_room.Prelude.{
  ℕ, suc, ◌+◌, ◌≤◌, Option, none, some, List, [], ◌∷◌, ◌++◌, ◌≡◌, arith, if◌then◌else◌, same,
}
use live_chat_room.Message.Envelope.{Bytes, Envelope}
use live_chat_room.Client.MessageProcessor.{
  MessageProcessor, get_message_key, is_seen, mark_message_seen,
}

-- How many of the messages have the key.
unfoldable pub times : Bytes → List Envelope → ℕ
times k [] = 0
times k (e ∷ es) = if same (get_message_key e) k then suc (times k es) else times k es

module _ (k : Bytes) where
  times-append : (xs ys : List Envelope) → times k (xs ++ ys) ≡ times k xs + times k ys
  unfolding times
  times-append [] ys = omega arith
  times-append (x ∷ xs) ys = ground (arith, times-append xs ys)

  -- The messages with the key that the processor has.
  abbrev held : MessageProcessor → ℕ
  held mp = times k mp.process_chan + times k mp.message_buffer + times k mp.handled

  -- None before the key is seen, and then one at most.
  abbrev IsOnce : MessageProcessor → Type 0
  IsOnce mp = held mp ≤ (if is_seen k mp.seen_messages then 1 else 0)

  -- A step that is taken keeps it.
  abbrev Keeps : Option MessageProcessor → Type 0
  Keeps none = Unit
  Keeps (some mp) = IsOnce mp

  -- The three ways of a new message.
  module _ (e : Envelope) (mp : MessageProcessor)
      (once : held mp + times k (e ∷ [])
        ≤ (if is_seen k (mark_message_seen e mp).seen_messages then 1 else 0)) where
    handled :
        IsOnce (record (mark_message_seen e mp) {
          handled = (mark_message_seen e mp).handled ++ (e ∷ []);
        })
    unfolding mark_message_seen
    handled = omega (arith, once, times-append mp.handled (e ∷ []))
