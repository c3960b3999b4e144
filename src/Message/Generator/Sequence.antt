-- ===== src/Message/Generator/Sequence.antt =====
-- message/idgen.go: the numbers that one goroutine hands out, one after another.
use live_chat_room.Prelude.{
  ℕ, zero, suc, ◌+◌, ◌-◌, ◌*◌, ◌^◌, ◌≤◌, ◌<◌, Ordering, ◌≡◌, refl, Bool, true, false, ◌&&◌, Option,
  none, some, List, [], ◌∷◌, arith, ◌==◌, ltb, leb, if◌then◌else◌, dec_lt, Bool-cases, sym, ap, ◌∙◌,
  All, Option-cases, ◌⊎◌, inl, inr,
}
use mathlib.Core.Path.{subst}
use mathlib.Core.Option.{some_inj}
use live_chat_room.Message.GlobalId.{GlobalId, epoch, build_id_with_seq, compare_id}
use live_chat_room.Message.GlobalId.Order.{compare_id-build}
use live_chat_room.Message.Generator.{
  Generator, Generated, new_global_id_generator, claim_slot, advance, generate_from,
  generate_global_id, generate_many,
}

-- Slots are taken from the lowest on: of the 64 the first `k` are taken.
pub record IsFilled (g : Generator) (k : ℕ) : Type 0 where
  pub slots : k ≤ 64
  pub mask : g.seq_mask ≡ 2 ^ k - 1

-- A test of each of the slots before the `n`th.
every_slot : (ℕ → Bool) → ℕ → Bool
every_slot ok zero = true
every_slot ok (suc k) = every_slot ok k && ok k

slot_passes : (ok : ℕ → Bool) (n k : ℕ) → k < n → every_slot ok n ≡ true → ok k ≡ true
unfolding every_slot
slot_passes ok zero k early table = absurd (omega arith)
slot_passes ok (suc n) k early table = ground (arith, slot_passes ok n k)

is_slot : ℕ → Option (ℕ × ℕ) → Bool
is_slot k none = false
is_slot k (some (mask, sequence)) = mask == 2 ^ suc k - 1 && sequence == k

slot_table : every_slot (λ k. is_slot k (claim_slot (2 ^ k - 1))) 64 ≡ true
unfolding every_slot is_slot claim_slot
slot_table = refl

slot_of : (k : ℕ) (o : Option (ℕ × ℕ)) → is_slot k o ≡ true → o ≡ some (2 ^ suc k - 1, k)
unfolding is_slot
slot_of k none h = cc
slot_of k (some (mask, sequence)) h = ground arith

-- With `k` slots taken and one free, slot `k` is the next.
pub claim_slot-free : (k : ℕ) → k < 64 → claim_slot (2 ^ k - 1) ≡ some (2 ^ suc k - 1, k)
claim_slot-free k h = slot_of k _ (slot_passes _ 64 k h slot_table)

pub claim_slot-full : claim_slot (2 ^ 64 - 1) ≡ none
unfolding claim_slot
claim_slot-full = refl

-- At a reading that is not before the last one, the slots in use are those of that millisecond.
pub record Aligned (g : Generator) (k now : ℕ) (a : Generator) : Type 0 where
  pub used : ℕ
  pub filled : IsFilled a used
  pub aligned : a.last_timestamp ≡ now
  pub after : g.last_timestamp * 64 + k ≤ now * 64 + used

pub advance-Aligned :
    (g : Generator) (k now : ℕ)
    → IsFilled g k
    → ltb now g.last_timestamp ≡ false
    → Aligned g k now (advance g now)
unfolding advance
advance-Aligned g k now f h = elim (dec_lt g.last_timestamp now) [
  | yes p ↦ record {
    used = 0;
    filled = ground arith;
    aligned = ground arith;
    after = omega (arith, f.slots);
  }
  | no p ↦ record { used = k; filled = ground arith; aligned = ground arith; after = ground arith }
]

-- What a call returns, and leaves behind, when `k` slots of its last millisecond were taken.
pub record Follows (g : Generator) (k : ℕ) (r : Generated) : Type 0 where
  pub used : ℕ
  pub filled : IsFilled r.generator used
  pub in_range : r.sequence < 64
  pub after : g.last_timestamp * 64 + k ≤ r.now * 64 + r.sequence
  pub next : r.generator.last_timestamp * 64 + used ≡ r.now * 64 + r.sequence + 1

abbrev returned : Generator → ℕ → ℕ → ℕ → List ℕ → Generated
returned a mask now sequence clock = record {
  generator = record a { seq_mask = mask };
  now = now;
  sequence = sequence;
  clock = clock;
}

claim-Follows :
    (g a : Generator) (k now : ℕ) (clock : List ℕ) (al : Aligned g k now a)
    → al.used < 64
    → Follows g k (returned a (2 ^ suc al.used - 1) now al.used clock)
claim-Follows g a k now clock al h = record {
  used = suc al.used;
  filled = record { slots = h; mask = refl };
  in_range = h;
  after = al.after;
  next = omega (arith, al.aligned);
}

-- The three ways on from a reading, while no millisecond is used up.
module _ (g : Generator) (now : ℕ) (clock : List ℕ) where
  pub generate_from-early :
      ltb now g.last_timestamp ≡ true
      → generate_from g none (now ∷ clock) ≡ generate_from g none clock
  unfolding generate_from
  generate_from-early h = rw (h, generate_from)

  module _ (h : ltb now g.last_timestamp ≡ false) where
    pub generate_from-slot :
        {mask sequence : ℕ}
        → claim_slot (advance g now).seq_mask ≡ some (mask, sequence)
        → generate_from g none (now ∷ clock)
          ≡ some (returned (advance g now) mask now sequence clock)
    unfolding generate_from
    generate_from-slot c = rw (h, generate_from, c)

    pub generate_from-full :
        claim_slot (advance g now).seq_mask ≡ none
        → generate_from g none (now ∷ clock) ≡ generate_from (advance g now) (some now) clock
    unfolding generate_from
    generate_from-full c = rw (h, generate_from, c)

-- Whether a slot is left in a millisecond that a reading has been aligned with.
pub claim_slot-Aligned :
    (g a : Generator) (k now : ℕ) (al : Aligned g k now a)
    → (claim_slot a.seq_mask ≡ none)
      ⊎ ((al.used < 64) × (claim_slot a.seq_mask ≡ some (2 ^ suc al.used - 1, al.used)))
claim_slot-Aligned g a k now al = elim (dec_lt al.used 64) [
  | yes u ↦ inr (u, ap claim_slot al.filled.mask ∙ claim_slot-free al.used u)
  | no u ↦
      let e : al.used ≡ 64 = omega (arith, al.filled.slots) in
      inl (ap claim_slot (al.filled.mask ∙ ap (λ n. 2 ^ n - 1) e) ∙ claim_slot-full)
]

full-Follows :
    (g a : Generator) (k now : ℕ) {r : Generated} (al : Aligned g k now a)
    → Follows a al.used r
    → Follows g k r
full-Follows g a k now al f = record {
  used = f.used;
  filled = f.filled;
  in_range = f.in_range;
  after = omega (arith, al.after, al.aligned, f.after);
  next = f.next;
}

pub generate_from-Follows :
    (g : Generator) (k : ℕ) (waiting : Option ℕ) (clock : List ℕ) {r : Generated}
    → IsFilled g k
    → generate_from g waiting clock ≡ some r
    → Follows g k r
unfolding generate_from
generate_from-Follows g k waiting [] f e = cc
generate_from-Follows g k (some used) (now ∷ clock) f e =
    generate_from-Follows g k (if leb now used then some used else none) clock f e
generate_from-Follows g k none (now ∷ clock) {r} f e =
    elim (Bool-cases (ltb now g.last_timestamp)) [
      | inl h ↦ generate_from-Follows g k none clock f (sym (generate_from-early g now clock h) ∙ e)
      | inr h ↦
          let al = advance-Aligned g k now f h in
          elim (claim_slot-Aligned g (advance g now) k now al) [
            | inr (u, c) ↦
                subst (Follows g k) (some_inj.0 (sym (generate_from-slot g now clock h c) ∙ e))
                  (claim-Follows g (advance g now) k now clock al u)
            | inl c ↦ full-Follows g (advance g now) k now al (
                generate_from-Follows (advance g now) al.used (some now) clock al.filled
                  (sym (generate_from-full g now clock h c) ∙ e))
          ]
    ]

-- What is handed out is a reading of the clock, and what is left of it are readings.
pub generate_from-All {κ} :
    (P : ℕ → Type κ) (g : Generator) (waiting : Option ℕ) (clock : List ℕ) {r : Generated}
    → All P clock
    → generate_from g waiting clock ≡ some r
    → P r.now × All P r.clock
unfolding generate_from
generate_from-All P g waiting [] a e = cc
generate_from-All P g (some used) (now ∷ clock) a e =
    generate_from-All P g (if leb now used then some used else none) clock a.1 e
generate_from-All P g none (now ∷ clock) a e = elim (Bool-cases (ltb now g.last_timestamp)) [
  | inl h ↦ generate_from-All P g none clock a.1 (sym (generate_from-early g now clock h) ∙ e)
  | inr h ↦ elim (Option-cases (claim_slot (advance g now).seq_mask)) [
    | inl c ↦
        generate_from-All P (advance g now) (some now) clock a.1
          (sym (generate_from-full g now clock h c) ∙ e)
    | inr (x, c) ↦
        subst (λ (r : Generated). P r.now × All P r.clock)
          (some_inj.0 (sym (generate_from-slot g now clock h c) ∙ e)) a
  ]
]

-- The times that the 48 bits of an identifier hold.
abbrev pub IsTime : ℕ → Type 0
IsTime t = (epoch ≤ t) × (t < epoch + 2 ^ 48)

-- Each identifier compares as less than every later one.
abbrev pub IsIncreasing : List GlobalId → Type 0
IsIncreasing [] = Unit {0}
IsIncreasing (id ∷ ids) = All (λ later. compare_id id later ≡ Ordering.lt) ids × IsIncreasing ids

module _ (user_id room_id login_id custom : ℕ) where
  abbrev id_of : ℕ → ℕ → GlobalId
  id_of t s = build_id_with_seq t user_id room_id login_id custom s

  abbrev many : ℕ → Generator → List ℕ → List GlobalId
  many = generate_many user_id room_id login_id custom

  many-none :
      (n : ℕ) (g : Generator) (clock : List ℕ)
      → generate_from g none clock ≡ none
      → many (suc n) g clock ≡ []
  unfolding generate_many generate_global_id
  many-none n g clock e = rw (e, generate_many, generate_global_id)

  many-some :
      (n : ℕ) (g : Generator) (clock : List ℕ) (r : Generated)
      → generate_from g none clock ≡ some r
      → many (suc n) g clock ≡ id_of r.now r.sequence ∷ many n r.generator r.clock
  unfolding generate_many generate_global_id
  many-some n g clock r e = rw (e, generate_many, generate_global_id)

  -- What was handed out before is less than all that a later call hands out.
  many-above :
      (n : ℕ) (g : Generator) (k : ℕ) (clock : List ℕ) (t s : ℕ)
      → IsFilled g k
      → All IsTime clock
      → epoch ≤ t
      → s < 64
      → t * 64 + s < g.last_timestamp * 64 + k
      → All (λ later. compare_id (id_of t s) later ≡ Ordering.lt) (many n g clock)
  unfolding generate_many
  many-above zero g k clock t s f a h hs b = tt
  many-above (suc n) g k clock t s f a h hs b = elim (Option-cases (generate_from g none clock)) [
    | inl e ↦ rw (many-none n g clock e) tt
    | inr (r, e) ↦
        let fo = generate_from-Follows g k none clock f e in
        let (in_time, rest) = generate_from-All IsTime g none clock a e in
        rw (many-some n g clock r e) (
          compare_id-build t r.now user_id room_id login_id custom s r.sequence h in_time.1 hs
              fo.in_range (omega (arith, fo.after)),
          many-above n r.generator fo.used r.clock t s fo.filled rest h hs
              (omega (arith, fo.after, fo.next)),
        )
  ]

  many-IsIncreasing :
      (n : ℕ) (g : Generator) (k : ℕ) (clock : List ℕ)
      → IsFilled g k
      → All IsTime clock
      → IsIncreasing (many n g clock)
  unfolding generate_many
  many-IsIncreasing zero g k clock f a = tt
  many-IsIncreasing (suc n) g k clock f a = elim (Option-cases (generate_from g none clock)) [
    | inl e ↦ rw (many-none n g clock e) tt
    | inr (r, e) ↦
        let fo = generate_from-Follows g k none clock f e in
        let (in_time, rest) = generate_from-All IsTime g none clock a e in
        rw (many-some n g clock r e) (
          many-above n r.generator fo.used r.clock r.now r.sequence fo.filled rest in_time.0
              fo.in_range (omega (arith, fo.next)),
          many-IsIncreasing n r.generator fo.used r.clock fo.filled rest,
        )
  ]

  -- The identifiers that one goroutine obtains for one sender from a new generator, by any number
  -- of calls at any readings of the clock that 48 bits hold, are strictly increasing: so no two of
  -- them are the same, also where the clock stands still or goes back.
  pub generate_many-IsIncreasing :
      (n : ℕ) (clock : List ℕ)
      → All IsTime clock
      → IsIncreasing (generate_many user_id room_id login_id custom n new_global_id_generator clock)
  unfolding new_global_id_generator
  generate_many-IsIncreasing n clock a =
      many-IsIncreasing n new_global_id_generator 0 clock
        (record { slots = omega arith; mask = refl }) a
