-- ===== src/Tests/Receiving.antt =====
-- client/message_processor.go on concrete messages.
use live_chat_room.Prelude.{
  ℕ, zero, suc, ◌+◌, ◌*◌, ◌/◌, ◌≤◌, ◌≡◌, refl, Bool, true, false, not, none, some, List, [], ◌∷◌,
  arith, length,
}
use live_chat_room.Message.GlobalId.{
  build_id_with_seq, from_bytes, compare_id, compare_bytes, extract_timestamp,
}
use live_chat_room.Message.Envelope.{Bytes, Envelope, chat_message}
use live_chat_room.Client.MessageProcessor.{
  MessageProcessor, new_message_processor, id_of, comes_before, take_ready, cleanup_seen_messages,
  start, handle_message, reads_nil, process, take_one, tick, ProcessorStep, processor_step,
  processor_steps, process_message, is_duplicate_message, is_seen, mark_message_seen,
  get_message_key,
}
use live_chat_room.Client.MessageProcessor.Order.{IsOrdered, is_ready, those, take_ready-eq-those}
use live_chat_room.Client.MessageProcessor.Bounds.{processor_steps-IsBounded}
use live_chat_room.Client.MessageProcessor.Seen.{cleanup_seen_messages_keeps}
use live_chat_room.Tests.Sending.{noon, joining, greeting}

-- The second message comes first, and twice.
abbrev arrivals : List ProcessorStep
arrivals =
    process false greeting
    ∷ process false greeting
    ∷ process false joining
    ∷ take_one
    ∷ take_one
    ∷ tick (noon + 50)
    ∷ []

abbrev none_nil : Envelope → Bool
none_nil e = false

processor_steps-IsBounded_example :
    (mp : MessageProcessor) × (processor_steps none_nil arrivals (start (new_message_processor 1))
      ≡ some mp)
    × IsOrdered mp.message_buffer
    × (length mp.message_buffer ≤ 1)
unfolding reads_nil
processor_steps-IsBounded_example =
    processor_steps-IsBounded none_nil 1 arrivals (omega arith)
      (refl, (refl, (refl, (tt, (tt, (tt, tt))))))

-- A message before the start panics, and so does a nil chat message that is handled at once.
too_early : processor_steps none_nil (process false joining ∷ []) (new_message_processor 1) ≡ none
unfolding processor_steps processor_step process_message is_duplicate_message is_seen
    new_message_processor
too_early = refl

abbrev nil_chat : Envelope
nil_chat = record greeting { message = some (chat_message none) }

no_chat : process_message none_nil false nil_chat (start (new_message_processor 0)) ≡ none
unfolding process_message is_duplicate_message is_seen new_message_processor start handle_message
    reads_nil from_bytes build_id_with_seq mark_message_seen
no_chat = refl

in_order : IsOrdered (joining ∷ greeting ∷ [])
unfolding comes_before id_of from_bytes compare_id extract_timestamp compare_bytes build_id_with_seq
in_order = (refl, (tt, tt))

take_ready-eq-those_example : take_ready (noon + 50) (joining ∷ greeting ∷ []) ≡ (
  those (is_ready (noon + 50)) (joining ∷ greeting ∷ []),
  those (λ e. not (is_ready (noon + 50) e)) (joining ∷ greeting ∷ []),
)
unfolding id_of from_bytes build_id_with_seq
take_ready-eq-those_example =
    take_ready-eq-those (noon + 50) (joining ∷ greeting ∷ []) in_order (refl, (refl, tt))

-- A processor that has the first message in its channel.
abbrev first : MessageProcessor
first = record (new_message_processor 1) {
  seen_messages = get_message_key joining ∷ [];
  process_chan = joining ∷ [];
  started = true;
}

unfoldable some_keys : ℕ → List Bytes
some_keys zero = []
some_keys (suc n) = (n ∷ []) ∷ some_keys n

length-some_keys : (n : ℕ) → length (some_keys n) ≡ n
unfolding some_keys
length-some_keys zero = refl
length-some_keys (suc n) = omega (arith, length-some_keys n)

abbrev crowded : MessageProcessor
crowded = record (new_message_processor 1) { seen_messages = some_keys 12000 }

cleanup_seen_messages_keeps_example :
    length (cleanup_seen_messages (λ ks. ks) crowded).seen_messages
    ≡ (2 * length (some_keys 12000) + 1) / 3
cleanup_seen_messages_keeps_example =
    cleanup_seen_messages_keeps (λ ks. ks) crowded (omega (arith, length-some_keys 12000)) refl
