-- ===== src/Client/MessageProcessor/Order.antt =====
-- client/message_processor.go: the order of the buffer, and what a tick handles.
use live_chat_room.Prelude.{
  ℕ, ◌+◌, ◌≤◌, Bool, true, false, not, some, List, [], ◌∷◌, ◌≡◌, refl, ap, arith, All,
  if◌then◌else◌, if_cases, ltb, ◌==◌, length, Bool-cases, Option-cases, inl, inr,
}
use live_chat_room.Message.GlobalId.{GlobalId, from_bytes, extract_timestamp, compare_id}
use live_chat_room.Message.GlobalId.Order.{flip, compare_bytes-flip}
use live_chat_room.Message.Envelope.{Envelope}
use live_chat_room.Client.MessageProcessor.{
  id_of, comes_before, insert_message, sort_messages, take_ready,
}

compare_id-flip : (a b : GlobalId) → compare_id b a ≡ flip (compare_id a b)
unfolding compare_id
compare_id-flip a b = ground (arith, compare_bytes-flip a b)

comes_before_not : (d e : Envelope) → comes_before d e ≡ true → comes_before e d ≡ false
unfolding comes_before
comes_before_not d e h = ground (arith, compare_id-flip (id_of d) (id_of e))

abbrev pub IsBelow : Envelope → List Envelope → Type 0
IsBelow e [] = Unit
IsBelow e (d ∷ ds) = comes_before d e ≡ false

-- No message comes before the one in front of it.
abbrev pub IsOrdered : List Envelope → Type 0
IsOrdered [] = Unit
IsOrdered (e ∷ es) = IsBelow e es × IsOrdered es

IsBelow-insert :
    (c e : Envelope) (es : List Envelope)
    → comes_before e c ≡ false
    → IsBelow c es
    → IsBelow c (insert_message e es)
unfolding insert_message
IsBelow-insert c e [] h b = h
IsBelow-insert c e (d ∷ ds) h b = if_cases (IsBelow c) (comes_before d e) (λ _. b) (λ _. h)

insert-IsOrdered :
    (e : Envelope) (es : List Envelope) → IsOrdered es → IsOrdered (insert_message e es)
unfolding insert_message
insert-IsOrdered e [] v = (tt, tt)
insert-IsOrdered e (d ∷ ds) v =
    if_cases IsOrdered (comes_before d e)
      (λ h. (IsBelow-insert d e ds (comes_before_not d e h) v.0, insert-IsOrdered e ds v.1))
      (λ h. (h, v))

pub sort-IsOrdered : (es : List Envelope) → IsOrdered (sort_messages es)
unfolding sort_messages
sort-IsOrdered [] = tt
sort-IsOrdered (e ∷ es) = insert-IsOrdered e (sort_messages es) (sort-IsOrdered es)

length-insert : (e : Envelope) (es : List Envelope) → length (insert_message e es) ≡ length es + 1
unfolding insert_message
length-insert e [] = refl
length-insert e (d ∷ ds) = ground (arith, length-insert e ds)

pub length-sort : (es : List Envelope) → length (sort_messages es) ≡ length es
unfolding sort_messages
length-sort [] = refl
length-sort (e ∷ es) = omega (arith, length-insert e (sort_messages es), length-sort es)

pub take_ready-IsOrdered :
    (now : ℕ) (es : List Envelope) → IsOrdered es → IsOrdered (take_ready now es).1
unfolding take_ready
take_ready-IsOrdered now [] v = tt
take_ready-IsOrdered now (e ∷ es) v =
    let rest = take_ready-IsOrdered now es v.1 in
    let Q : List Envelope × List Envelope → Type 0 = λ r. IsOrdered r.1 in
    elim (Option-cases (from_bytes e.message_id)) [
      | inl h ↦
          rw (take_ready, h) (if_cases Q (length (take_ready now es).0 == 0) (λ _. v) (λ _. rest))
      | inr (id, h) ↦
          rw (take_ready, h) (if_cases Q (ltb now (extract_timestamp id + 50)) (λ _. v) (λ _. rest))
    ]

pub take_ready_bound : (now : ℕ) (es : List Envelope) → length (take_ready now es).1 ≤ length es
unfolding take_ready
take_ready_bound now [] = omega arith
take_ready_bound now (e ∷ es) = ground (arith, take_ready_bound now es)

-- `now` is fifty milliseconds after the message, or later.
unfoldable pub is_ready : ℕ → Envelope → Bool
is_ready now e = not (ltb now (extract_timestamp (id_of e) + 50))

unfoldable pub those : (Envelope → Bool) → List Envelope → List Envelope
those f [] = []
those f (e ∷ es) = if f e then e ∷ those f es else those f es

abbrev pub HasId : Envelope → Type 0
HasId e = from_bytes e.message_id ≡ some (id_of e)

is_ready_later :
    (now : ℕ) (d e : Envelope)
    → comes_before d e ≡ false
    → is_ready now e ≡ false
    → is_ready now d ≡ false
unfolding comes_before is_ready compare_id
is_ready_later now d e h k = ground arith

is_ready_iff :
    (now : ℕ) (e : Envelope) {b : Bool}
    → ltb now (extract_timestamp (id_of e) + 50) ≡ b
    → is_ready now e ≡ not b
unfolding is_ready
is_ready_iff now e h = ap not h

none_ready :
    (now : ℕ) (e : Envelope) (es : List Envelope)
    → IsOrdered (e ∷ es)
    → is_ready now e ≡ false
    → (those (is_ready now) es ≡ []) × (those (λ d. not (is_ready now d)) es ≡ es)
unfolding those
none_ready now e [] v h = (refl, refl)
none_ready now e (d ∷ ds) v h =
    let k = is_ready_later now d e v.0 h in
    let rest = none_ready now d ds v.1 k in
    (rw k rest.0, rw k (ap (λ (l : List Envelope). d ∷ l) rest.1))

-- In an ordered buffer whose messages have identifiers, the messages that a tick handles are just those
-- that are fifty milliseconds old, and the others are left, both in their order.
pub take_ready-eq-those :
    (now : ℕ) (es : List Envelope)
    → IsOrdered es
    → All HasId es
    → take_ready now es ≡ (those (is_ready now) es, those (λ e. not (is_ready now e)) es)
unfolding take_ready those
take_ready-eq-those now [] v known = refl
take_ready-eq-those now (e ∷ es) v known =
    let rest = take_ready-eq-those now es v.1 known.1 in
    elim (Bool-cases (ltb now (extract_timestamp (id_of e) + 50))) [
      | inl h ↦
          let late = is_ready_iff now e h in
          let (gone, left) = none_ready now e es v late in
          rw (take_ready, known.0, h, late, gone, left) refl
      | inr h ↦ rw (take_ready, known.0, h, is_ready_iff now e h, rest) refl
    ]
