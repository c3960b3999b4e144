-- ===== src/Client/MessageProcessor/Handled.antt =====
-- client/message_processor.go: what the handlers leave, when they do not panic.
use live_chat_room.Prelude.{
  Bool, false, none, some, List, [], ◌∷◌, ◌++◌, ◌≡◌, ◌⊎◌, inl, inr, refl, ap, sym, ◌∙◌, if-true,
  if-false, Bool-cases, append_assoc, append_nil, All,
}
use live_chat_room.Message.Envelope.{Envelope}
use live_chat_room.Client.MessageProcessor.{
  MessageProcessor, reads_nil, handle_message, handle_each,
}

module _ (nil_inside : Envelope → Bool) where
  -- The handler of the message reads no nil pointer.
  abbrev pub IsSafe : Envelope → Type 0
  IsSafe e = reads_nil (nil_inside e) e.message e.message_id ≡ false

  pub handle_message_cases :
      (e : Envelope) (mp : MessageProcessor)
      → (handle_message nil_inside e mp ≡ none)
        ⊎ (handle_message nil_inside e mp ≡ some (record mp { handled = mp.handled ++ (e ∷ []) }))
  unfolding handle_message
  handle_message_cases e mp = elim (Bool-cases (reads_nil (nil_inside e) e.message e.message_id)) [
    | inl h ↦ inl (if-true _ _ h)
    | inr h ↦ inr (if-false _ _ h)
  ]

  pub handle_message_safe :
      (e : Envelope) (mp : MessageProcessor)
      → IsSafe e
      → handle_message nil_inside e mp ≡ some (record mp { handled = mp.handled ++ (e ∷ []) })
  unfolding handle_message
  handle_message_safe e mp h = if-false _ _ h

  handled_more :
      (e : Envelope) (es : List Envelope) (mp : MessageProcessor)
      → record mp { handled = (mp.handled ++ (e ∷ [])) ++ es }
        ≡ record mp { handled = mp.handled ++ (e ∷ es) }
  handled_more e es mp = ap (λ l. record mp { handled = l }) (append_assoc mp.handled (e ∷ []) es)

  pub handle_each_cases :
      (es : List Envelope) (mp : MessageProcessor)
      → (handle_each nil_inside es mp ≡ none)
        ⊎ (handle_each nil_inside es mp ≡ some (record mp { handled = mp.handled ++ es }))
  unfolding handle_each
  handle_each_cases [] mp =
      inr (ap (λ l. some (record mp { handled = l })) (sym (append_nil mp.handled)))
  handle_each_cases (e ∷ es) mp = elim (handle_message_cases e mp) [
    | inl h ↦ inl (rw (handle_each, h) refl)
    | inr h ↦ elim (handle_each_cases es (record mp { handled = mp.handled ++ (e ∷ []) })) [
      | inl k ↦ inl (rw (handle_each, h) k)
      | inr k ↦ inr (rw (handle_each, h) (k ∙ ap some (handled_more e es mp)))
    ]
  ]

  pub handle_each_safe :
      (es : List Envelope) (mp : MessageProcessor)
      → All IsSafe es
      → handle_each nil_inside es mp ≡ some (record mp { handled = mp.handled ++ es })
  unfolding handle_each
  handle_each_safe [] mp v =
      ap (λ l. some (record mp { handled = l })) (sym (append_nil mp.handled))
  handle_each_safe (e ∷ es) mp v =
      rw (handle_each, handle_message_safe e mp v.0)
        (handle_each_safe es (record mp { handled = mp.handled ++ (e ∷ []) }) v.1
          ∙ ap some (handled_more e es mp))
