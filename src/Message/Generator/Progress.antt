-- ===== src/Message/Generator/Progress.antt =====
-- message/idgen.go: how long the loops of `GenerateGlobalID` run.
use live_chat_room.Prelude.{
  ℕ, ◌≤◌, ◌<◌, ◌≡◌, ◌∙◌, ap, Option-cases, Option, none, some, List, [], ◌∷◌, ◌++◌, arith, false,
  ltb, leb, Bool-cases, inl, inr, if◌then◌else◌,
}
use mathlib.Core.Path.{subst, sym}
use live_chat_room.Message.Generator.{Generator, Generated, claim_slot, advance, generate_from}
use live_chat_room.Message.Generator.Sequence.{
  IsFilled, generate_from-early, generate_from-slot, generate_from-full, claim_slot-free,
}

abbrev Ends : Generator → Option ℕ → List ℕ → Type 0
Ends g waiting clock = (r : Generated) × (generate_from g waiting clock ≡ some r)

abbrev WaitsBefore : Option ℕ → ℕ → Type 0
WaitsBefore none t = Unit
WaitsBefore (some used) t = used ≤ t

-- Only the millisecond of the last identifier can be out of slots.
full_at_last :
    (g : Generator) (now : ℕ)
    → ltb now g.last_timestamp ≡ false
    → claim_slot (advance g now).seq_mask ≡ none
    → (now ≡ g.last_timestamp) × (advance g now ≡ g)
unfolding advance
full_at_last g now h c = ground (arith, claim_slot-free 0)

later_mask : (g : Generator) (now : ℕ) → g.last_timestamp < now → (advance g now).seq_mask ≡ 0
unfolding advance
later_mask g now h = ground arith

-- A reading after the last millisecond finds free slots.
Ends-later :
    (g : Generator) (now : ℕ) (clock : List ℕ) → g.last_timestamp < now → Ends g none (now ∷ clock)
Ends-later g now clock h = (
  _,
  generate_from-slot g now clock (ground arith)
      (ap claim_slot (later_mask g now h) ∙ claim_slot-free 0 (omega arith)),
)

waits_step : (x now last : ℕ) → x ≤ last → WaitsBefore (if leb now x then some x else none) last
waits_step x now last h = elim (Bool-cases (leb now x)) [ inl e ↦ rw e h | inr e ↦ rw e tt ]

passes : (x t : ℕ) → x < t → (if leb t x then some x else none) ≡ none
passes x t h = ground arith

-- A generator whose slots are taken in order returns an identifier, whichever millisecond up to
-- its last one it waits out, once two successive readings of the clock are after its last
-- millisecond: whatever the readings before these are.
pub generate_from-ends :
    (g : Generator) (k : ℕ) (waiting : Option ℕ) (before after : List ℕ) (t u : ℕ)
    → IsFilled g k
    → WaitsBefore waiting g.last_timestamp
    → g.last_timestamp < t
    → g.last_timestamp < u
    → (r : Generated) × (generate_from g waiting (before ++ (t ∷ u ∷ after)) ≡ some r)
unfolding generate_from
generate_from-ends g k none [] after t u f w ht hu = Ends-later g t (u ∷ after) ht
generate_from-ends g k (some x) [] after t u f w ht hu =
    subst (λ w. Ends g w (u ∷ after)) (sym (passes x t (omega arith))) (Ends-later g u after hu)
generate_from-ends g k (some x) (now ∷ before) after t u f w ht hu =
    generate_from-ends g k (if leb now x then some x else none) before after t u f
      (waits_step x now g.last_timestamp w) ht hu
generate_from-ends g k none (now ∷ before) after t u f w ht hu =
    elim (Bool-cases (ltb now g.last_timestamp)) [
      | inl h ↦
          let (r, e) = generate_from-ends g k none before after t u f tt ht hu in
          (r, generate_from-early g now (before ++ (t ∷ u ∷ after)) h ∙ e)
      | inr h ↦ elim (Option-cases (claim_slot (advance g now).seq_mask)) [
        | inr (x, c) ↦ (_, generate_from-slot g now (before ++ (t ∷ u ∷ after)) h c)
        | inl c ↦
            let (at_last, same) = full_at_last g now h c in
            let (r, e) = generate_from-ends g k (some now) before after t u f (omega arith) ht hu in
            (
              r,
              generate_from-full g now (before ++ (t ∷ u ∷ after)) h c
                  ∙ ap (λ a. generate_from a (some now) (before ++ (t ∷ u ∷ after))) same
                  ∙ e,
            )
      ]
    ]
