-- ===== src/Message/Generator/Race/Monotone.antt =====
-- message/idgen.go: what holds of the shared words whatever the schedule of the goroutines.
use mathlib.Core.Path.{subst}
use Prim.Native.Nat.{bit_or}
use live_chat_room.Prelude.{
  ℕ, suc, ◌-◌, ◌^◌, ◌≤◌, ◌<◌, ◌≡◌, refl, inl, inr, false, List, [], ◌∷◌, arith, ◌==◌, Bool-cases,
  dec_lt, ap, ltb, leb, ◌∙◌,
}
use live_chat_room.Message.Generator.{
  Generator, new_global_id_generator, full_mask, lowest_free, trailing_zeros, claim_slot,
}
use live_chat_room.Message.Generator.Sequence.{IsFilled, claim_slot-free}
use live_chat_room.Message.Generator.Race.{
  Pc, outer, read_clock, clearing, swapping, inner, aligned, claiming, spinning, done, step, System,
  move, run, start,
}

claimed :
    (k : ℕ)
    → k < 64
    → (bit_or (2 ^ k - 1) (lowest_free (2 ^ k - 1)) ≡ 2 ^ suc k - 1)
      × (trailing_zeros 64 (lowest_free (2 ^ k - 1)) ≡ k)
unfolding claim_slot
claimed k h = ground (arith, claim_slot-free k h)

abbrev Filled : Generator → Type 0
Filled g = (k : ℕ) × IsFilled g k

-- What the values that a goroutine holds have to do with the shared timestamp.
abbrev pub Holds : Generator → Pc → Type 0
Holds g (clearing now last) = last < now
Holds g (swapping now last) = last < now
Holds g (inner now) = now ≤ g.last_timestamp
Holds g (aligned now) = now ≤ g.last_timestamp
Holds g (claiming now mask) = (now ≤ g.last_timestamp) × ((k : ℕ) × (k < 64) × (mask ≡ 2 ^ k - 1))
Holds g (done now sequence) = (now ≤ g.last_timestamp) × (sequence < 64)
Holds g _ = Unit {0}

Holds-later :
    (g g' : Generator) (p : Pc) → g.last_timestamp ≤ g'.last_timestamp → Holds g p → Holds g' p
Holds-later g g' outer h o = tt
Holds-later g g' (read_clock now) h o = tt
Holds-later g g' (clearing now last) h o = o
Holds-later g g' (swapping now last) h o = o
Holds-later g g' (inner now) h o = omega arith
Holds-later g g' (aligned now) h o = omega arith
Holds-later g g' (claiming now mask) h o = (omega arith, o.1)
Holds-later g g' (spinning now) h o = tt
Holds-later g g' (done now sequence) h o = omega arith

abbrev Keeps : Generator → Generator × Pc → Type 0
Keeps g (g', p) = Filled g' × (g.last_timestamp ≤ g'.last_timestamp) × Holds g' p

not_full : (g : Generator) (k : ℕ) → IsFilled g k → (g.seq_mask == full_mask) ≡ false → k < 64
not_full g k f h = elim (dec_lt k 64) [
  | yes u ↦ u
  | no u ↦
      let e : k ≡ 64 = omega (arith, f.slots) in
      let m : g.seq_mask ≡ full_mask = f.mask ∙ ap (λ n. 2 ^ n - 1) e in ground arith
]

step-Keeps : (g : Generator) (p : Pc) (time : ℕ) → Filled g → Holds g p → Keeps g (step g p time)
unfolding step
step-Keeps g outer time f h = (f, omega arith, tt)
step-Keeps g (read_clock now) time f h = elim (Bool-cases (ltb now g.last_timestamp)) [
  | inl e ↦ rw e (f, omega arith, tt)
  | inr e ↦ elim (Bool-cases (ltb g.last_timestamp now)) [
    | inl l ↦ rw (e, l) (f, omega arith, ground arith)
    | inr l ↦ rw (e, l) (f, omega arith, ground arith)
  ]
]
step-Keeps g (clearing now last) time f h =
    ((0, record { slots = omega arith; mask = refl }), omega arith, h)
step-Keeps g (swapping now last) time f h = elim (Bool-cases (g.last_timestamp == last)) [
  | inl e ↦ rw e ((f.0, record { slots = f.1.slots; mask = f.1.mask }), ground arith, omega arith)
  | inr e ↦ rw e (f, omega arith, tt)
]
step-Keeps g (inner now) time f h = elim (Bool-cases (g.last_timestamp == now)) [
  | inl e ↦ rw e (f, omega arith, h)
  | inr e ↦ rw e (f, omega arith, tt)
]
step-Keeps g (aligned now) time f h = elim (Bool-cases (g.seq_mask == full_mask)) [
  | inl e ↦ rw e (f, omega arith, tt)
  | inr e ↦ rw e (f, omega arith, (h, (f.0, not_full g f.0 f.1 e, f.1.mask)))
]
step-Keeps g (claiming now mask) time f (h, (k, u, m)) = elim (Bool-cases (g.seq_mask == mask)) [
  | inl e ↦
      rw (e, m, (claimed k u).0, (claimed k u).1)
        ((suc k, record { slots = u; mask = refl }), omega arith, (h, u))
  | inr e ↦ rw e (f, omega arith, h)
]
step-Keeps g (spinning now) time f h = elim (Bool-cases (leb time now)) [
  | inl e ↦ rw e (f, omega arith, tt)
  | inr e ↦ rw e (f, omega arith, tt)
]
step-Keeps g (done now sequence) time f h = (f, omega arith, h)

-- What every schedule keeps.
pub record IsSound (s : System) : Type 0 where
  pub filled : Filled s.shared
  pub holds : (i : ℕ) → Holds s.shared (s.pcs i)

move-IsSound :
    (s : System) (i time : ℕ)
    → IsSound s
    → IsSound (move s i time) × (s.shared.last_timestamp ≤ (move s i time).shared.last_timestamp)
unfolding move
move-IsSound s i time v =
    let (f, later, h) = step-Keeps s.shared (s.pcs i) time v.filled (v.holds i) in
    (
      record {
        filled = f;
        holds = λ j. elim (Bool-cases (i == j)) [
          | inl e ↦ rw e h
          | inr e ↦
              rw e
                (Holds-later s.shared (step s.shared (s.pcs i) time).0 (s.pcs j) later (v.holds j))
        ];
      },
      later,
    )

run-IsSound :
    (s : System) (schedule : List (ℕ × ℕ))
    → IsSound s
    → IsSound (run s schedule) × (s.shared.last_timestamp ≤ (run s schedule).shared.last_timestamp)
unfolding run
run-IsSound s [] v = (v, omega arith)
run-IsSound s ((i, time) ∷ schedule) v =
    let (v', later) = move-IsSound s i time v in
    let (v'', more) = run-IsSound (move s i time) schedule v' in (v'', omega arith)

pub start-IsSound : IsSound start
unfolding start new_global_id_generator
start-IsSound = record {
  filled = (0, record { slots = omega arith; mask = refl });
  holds = λ i. tt;
}

-- Whatever the goroutines do, and in whatever order, from a new generator on: the shared timestamp
-- never goes back, and an identifier that a goroutine has obtained has a timestamp that is not after
-- the shared one, and a sequence number below 64.
pub run_monotone :
    (before after : List (ℕ × ℕ)) (i t sequence : ℕ)
    → (run (run start before) after).pcs i ≡ done t sequence
    → ((run start before).shared.last_timestamp
        ≤ (run (run start before) after).shared.last_timestamp)
      × (t ≤ (run (run start before) after).shared.last_timestamp)
      × (sequence < 64)
run_monotone before after i t sequence e =
    let (v, _) = run-IsSound start before start-IsSound in
    let (v', later) = run-IsSound (run start before) after v in
    let h : Holds (run (run start before) after).shared (done t sequence) =
      subst (Holds (run (run start before) after).shared) e (v'.holds i) in
    (later, h.0, h.1)
