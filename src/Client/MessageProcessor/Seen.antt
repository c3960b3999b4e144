-- ===== src/Client/MessageProcessor/Seen.antt =====
-- client/message_processor.go: how many seen keys a cleanup leaves.
use live_chat_room.Prelude.{
  ℕ, ◌+◌, ◌*◌, ◌/◌, ◌≤◌, ◌<◌, List, [], ◌∷◌, ◌≡◌, arith, if_cases, ltb, length,
}
use live_chat_room.Message.Envelope.{Bytes}
use live_chat_room.Client.MessageProcessor.{MessageProcessor, delete_seen, cleanup_seen_messages}

length-delete_seen :
    (count : ℕ) (ks : List Bytes)
    → 2 * count + 2 ≤ length ks
    → length (delete_seen count ks) ≡ (2 * (length ks + count) + 1) / 3
unfolding delete_seen
length-delete_seen count [] h = omega arith
length-delete_seen count (k ∷ ks) h =
    let rest : 2 * (count + 1) + 2 ≤ length ks
        → length (delete_seen (count + 1) ks) ≡ (2 * (length ks + (count + 1)) + 1) / 3 =
      length-delete_seen (count + 1) ks in
    ground (arith, rest)

-- A cleanup of more than 10000 seen keys leaves two thirds of them, to the nearest whole number, in
-- whichever order they are visited.
pub cleanup_seen_messages_keeps :
    (visit : List Bytes → List Bytes) (mp : MessageProcessor)
    → 10000 < length mp.seen_messages
    → length (visit mp.seen_messages) ≡ length mp.seen_messages
    → length (cleanup_seen_messages visit mp).seen_messages ≡ (2 * length mp.seen_messages + 1) / 3
unfolding cleanup_seen_messages
cleanup_seen_messages_keeps visit mp h e =
    if_cases
      (λ (m : MessageProcessor). length m.seen_messages ≡ (2 * length mp.seen_messages + 1) / 3)
      (ltb 10000 (length mp.seen_messages))
      (λ _.
        let rest = length-delete_seen 0 (visit mp.seen_messages) (omega (arith, h, e)) in
        omega (arith, rest, e))
      (λ k. ground arith)
