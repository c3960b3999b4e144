-- ===== src/Message/Generator/Race.antt =====
-- message/idgen.go: `GenerateGlobalID` as any number of goroutines run it, one atomic access to the
-- shared words, or one reading of the clock, at a step.
pub mod Monotone
use live_chat_room.Prelude.{
  ℕ, zero, suc, ◌+◌, ◌*◌, ◌≤◌, ◌<◌, ◌≡◌, refl, ◌≢◌, ◌⊎◌, Bool, true, false, Option, none, some,
  List, [], ◌∷◌, if◌then◌else◌, ltb, leb, ◌==◌, arith, ==_self, ==_ne, sym,
}
use live_chat_room.Message.Generator.{
  Generator, new_global_id_generator, full_mask, lowest_free, trailing_zeros, claim_slot,
}
use Prim.Native.Nat.{bit_or}

-- Where a goroutine stands in the loops, with the values that it holds.
pub data Pc : Type 0 where
  outer : Pc
  read_clock : (now : ℕ) → Pc
  -- before `StoreUint64(&g.seqMask, 0)`, and before the compare-and-swap of the timestamp
  clearing : (now last : ℕ) → Pc
  swapping : (now last : ℕ) → Pc
  -- before the load of `cur`, and before the load of `mask`
  inner : (now : ℕ) → Pc
  aligned : (now : ℕ) → Pc
  -- before the compare-and-swap of the mask
  claiming : (now mask : ℕ) → Pc
  spinning : (now : ℕ) → Pc
  done : (now sequence : ℕ) → Pc

-- One step of a goroutine; a step that reads the clock reads `time`.
unfoldable pub step : Generator → Pc → ℕ → Generator × Pc
step g outer time = (g, read_clock time)
step g (read_clock now) time = (
  g,
  if ltb now g.last_timestamp
      then outer
      else if ltb g.last_timestamp now
      then clearing now g.last_timestamp
      else inner now,
)
step g (clearing now last) time = (record g { seq_mask = 0 }, swapping now last)
step g (swapping now last) time =
    if g.last_timestamp == last then (record g { last_timestamp = now }, inner now) else (g, outer)
step g (inner now) time = (g, if g.last_timestamp == now then aligned now else outer)
step g (aligned now) time =
    (g, if g.seq_mask == full_mask then spinning now else claiming now g.seq_mask)
step g (claiming now mask) time =
    if g.seq_mask == mask
    then (
      record g { seq_mask = bit_or mask (lowest_free mask) },
      done now (trailing_zeros 64 (lowest_free mask)),
    )
    else (g, inner now)
step g (spinning now) time = (g, if leb time now then spinning now else outer)
step g (done now sequence) time = (g, done now sequence)

pub record System : Type 0 where
  pub shared : Generator
  pub pcs : ℕ → Pc

unfoldable pub move : System → ℕ → ℕ → System
move s i time =
    let (g, pc) = step s.shared (s.pcs i) time in
    record { shared = g; pcs = λ j. if i == j then pc else s.pcs j }

-- A schedule: which goroutine moves, and the reading of the clock at that moment.
unfoldable pub run : System → List (ℕ × ℕ) → System
run s [] = s
run s ((i, time) ∷ schedule) = run (move s i time) schedule

unfoldable pub start : System
start = record { shared = new_global_id_generator; pcs = λ i. outer }

-- Two goroutines see the same new millisecond; the first takes it and a slot.
unfoldable pub first_claims : ℕ → ℕ → ℕ → List (ℕ × ℕ)
first_claims i j now =
    (i, now)
    ∷ (j, now)
    ∷ (i, now)
    ∷ (j, now)
    ∷ (i, now)
    ∷ (i, now)
    ∷ (i, now)
    ∷ (i, now)
    ∷ (i, now)
    ∷ []

-- Only then does the second clear the mask; its swap fails, and it goes round and takes a slot.
unfoldable pub then_clears : ℕ → ℕ → List (ℕ × ℕ)
then_clears j now = (j, now) ∷ (j, now) ∷ (j, now) ∷ (j, now) ∷ (j, now) ∷ (j, now) ∷ (j, now) ∷ []

module _ (i j : ℕ) (distinct : i ≢ j) where
  abbrev View : System → Generator → Pc → Pc → Type 0
  View s g p q = (s.shared ≡ g) × (s.pcs i ≡ p) × (s.pcs j ≡ q)

  first_moves :
      (s : System) (time : ℕ) {g g' : Generator} {p p' q : Pc}
      → View s g p q
      → step g p time ≡ (g', p')
      → View (move s i time) g' p' q
  unfolding move
  first_moves s time (e, ep, eq) st = rw (e, ep, st, ==_self i, ==_ne i j distinct) (refl, refl, eq)

  second_moves :
      (s : System) (time : ℕ) {g g' : Generator} {p q q' : Pc}
      → View s g p q
      → step g q time ≡ (g', q')
      → View (move s j time) g' p q'
  unfolding move
  second_moves s time (e, ep, eq) st =
      rw (e, eq, st, ==_self j, ==_ne j i (λ e. distinct (sym e))) (refl, ep, refl)

  module _ (now : ℕ) (late : 0 < now) where
    abbrev fresh_slots : Generator
    fresh_slots = record { last_timestamp = now; seq_mask = 0 }

    abbrev one_slot : Generator
    one_slot = record { last_timestamp = now; seq_mask = 1 }

    reads :
        step new_global_id_generator (read_clock now) now
        ≡ (new_global_id_generator, clearing now 0)
    unfolding step new_global_id_generator
    reads = ground arith

    clears :
        step new_global_id_generator (clearing now 0) now
        ≡ (new_global_id_generator, swapping now 0)
    unfolding step new_global_id_generator
    clears = refl

    swaps : step new_global_id_generator (swapping now 0) now ≡ (fresh_slots, inner now)
    unfolding step new_global_id_generator
    swaps = refl

    enters : step fresh_slots (inner now) now ≡ (fresh_slots, aligned now)
    unfolding step
    enters = ground arith

    loads : step fresh_slots (aligned now) now ≡ (fresh_slots, claiming now 0)
    unfolding step
    loads = refl

    claims : step fresh_slots (claiming now 0) now ≡ (one_slot, done now 0)
    unfolding step lowest_free trailing_zeros
    claims = refl

    clears_late : step one_slot (clearing now 0) now ≡ (fresh_slots, swapping now 0)
    unfolding step
    clears_late = refl

    fails_late : step fresh_slots (swapping now 0) now ≡ (fresh_slots, outer)
    unfolding step
    fails_late = ground arith

    reads_late : step fresh_slots (read_clock now) now ≡ (fresh_slots, inner now)
    unfolding step
    reads_late = ground arith

    outer_reads : (g : Generator) → step g outer now ≡ (g, read_clock now)
    unfolding step
    outer_reads g = refl

    start-View : View start new_global_id_generator outer outer
    unfolding start
    start-View = (refl, refl, refl)

    first-View : View (run start (first_claims i j now)) one_slot (done now 0) (clearing now 0)
    unfolding run first_claims
    first-View =
        let v = second_moves _ now (first_moves _ now start-View (outer_reads _)) (outer_reads _) in
        let w = second_moves _ now (first_moves _ now v reads) reads in
        first_moves _ now
          (first_moves _ now
            (first_moves _ now (first_moves _ now (first_moves _ now w clears) swaps) enters) loads)
          claims

    then-View :
        (s : System)
        → View s one_slot (done now 0) (clearing now 0)
        → View (run s (then_clears j now)) one_slot (done now 0) (done now 0)
    unfolding run then_clears
    then-View s v =
        let w = second_moves _ now (second_moves _ now v clears_late) fails_late in
        let x = second_moves _ now (second_moves _ now w (outer_reads _)) reads_late in
        second_moves _ now (second_moves _ now (second_moves _ now x enters) loads) claims

-- Any two goroutines can both obtain sequence number 0 of any millisecond after 0: the store that
-- clears the mask stands before the swap of the timestamp, and a goroutine that makes it late, after
-- the other has taken a slot, frees that slot although its own swap then fails.
pub run_repeats :
    (i j now : ℕ)
    → i ≢ j
    → 0 < now
    → let s = run (run start (first_claims i j now)) (then_clears j now) in
      (s.pcs i ≡ done now 0) × (s.pcs j ≡ done now 0)
run_repeats i j now distinct late =
    let v = then-View i j distinct now late _ (first-View i j distinct now late) in (v.1, v.2)
