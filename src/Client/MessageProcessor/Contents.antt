-- ===== src/Client/MessageProcessor/Contents.antt =====
-- client/message_processor.go: what holds of all messages, in the buffer as it is sorted and taken from.
use live_chat_room.Prelude.{
  ℕ, ◌+◌, List, [], ◌∷◌, All, if_cases, ltb, ◌==◌, length, Option-cases, inl, inr,
}
use live_chat_room.Message.GlobalId.{from_bytes, extract_timestamp}
use live_chat_room.Message.Envelope.{Envelope}
use live_chat_room.Client.MessageProcessor.{comes_before, insert_message, sort_messages, take_ready}

module _ (P : Envelope → Type 0) where
  All-insert : (e : Envelope) (es : List Envelope) → P e → All P es → All P (insert_message e es)
  unfolding insert_message
  All-insert e [] h v = (h, tt)
  All-insert e (d ∷ ds) h v =
      if_cases (All P) (comes_before d e) (λ _. (v.0, All-insert e ds h v.1)) (λ _. (h, v))

  pub All-sort : (es : List Envelope) → All P es → All P (sort_messages es)
  unfolding sort_messages
  All-sort [] v = tt
  All-sort (e ∷ es) v = All-insert e (sort_messages es) v.0 (All-sort es v.1)

  pub All-take_ready :
      (now : ℕ) (es : List Envelope)
      → All P es
      → All P (take_ready now es).0 × All P (take_ready now es).1
  unfolding take_ready
  All-take_ready now [] v = (tt, tt)
  All-take_ready now (e ∷ es) v =
      let rest = All-take_ready now es v.1 in
      let Q : List Envelope × List Envelope → Type 0 = λ r. All P r.0 × All P r.1 in
      elim (Option-cases (from_bytes e.message_id)) [
        | inl h ↦
            rw (take_ready, h)
              (if_cases Q (length (take_ready now es).0 == 0) (λ _. (tt, v)) (λ _. rest))
        | inr (id, h) ↦
            rw (take_ready, h)
              (if_cases Q (ltb now (extract_timestamp id + 50)) (λ _. (tt, v))
                (λ _. ((v.0, rest.0), rest.1)))
      ]
