-- ===== src/Message/Generator.antt =====
-- message/idgen.go: `GlobalIDGenerator` as one goroutine runs it. The readings of the clock are a
-- list: each call of `time.Now` takes the next, and a call that runs out of them still waits.
pub mod Sequence
pub mod Progress
pub mod Race
use Prim.Native.Nat.{bit_and, bit_or}
use live_chat_room.Prelude.{
  ℕ, zero, suc, ◌+◌, ◌-◌, ◌/◌, ◌%◌, ◌^◌, Bool, true, false, Option, none, some, List, [], ◌∷◌,
  if◌then◌else◌, ltb, leb, ◌==◌,
}
use live_chat_room.Message.GlobalId.{GlobalId, build_id_with_seq}

pub record Generator : Type 0 where
  pub last_timestamp : ℕ  -- int64, in milliseconds
  pub seq_mask : ℕ  -- uint64, bit i is set where the sequence number i is taken

unfoldable pub new_global_id_generator : Generator
new_global_id_generator = record { last_timestamp = 0; seq_mask = 0 }

-- `^uint64(0)`
abbrev pub full_mask : ℕ
full_mask = 2 ^ 64 - 1

-- `^mask & (mask + 1)`, the lowest free bit
unfoldable pub lowest_free : ℕ → ℕ
lowest_free mask = bit_and (full_mask - mask) ((mask + 1) % 2 ^ 64)

-- math/bits.TrailingZeros64, with one unit of fuel to each of the 64 bits
unfoldable pub trailing_zeros : ℕ → ℕ → ℕ
trailing_zeros zero x = 0
trailing_zeros (suc n) x = let rest = trailing_zeros n (x / 2) in if x % 2 == 1 then 0 else suc rest

-- The slots of one millisecond: the mask with the lowest free bit taken, and its number.
unfoldable pub claim_slot : ℕ → Option (ℕ × ℕ)
unfolding lowest_free trailing_zeros
claim_slot mask =
    if mask == full_mask
    then none
    else some (bit_or mask (lowest_free mask), trailing_zeros 64 (lowest_free mask))

pub record Generated : Type 0 where
  pub generator : Generator
  pub now : ℕ
  pub sequence : ℕ
  pub clock : List ℕ

-- A later millisecond clears the slots.
unfoldable pub advance : Generator → ℕ → Generator
advance g now =
    if ltb g.last_timestamp now then record { last_timestamp = now; seq_mask = 0 } else g

-- The loops of `GenerateGlobalID`: `waiting` holds the millisecond whose slots are used up, while
-- the inner loop waits for the clock to pass it.
unfoldable pub generate_from : Generator → Option ℕ → List ℕ → Option Generated
generate_from g waiting [] = none
generate_from g (some used) (now ∷ clock) =
    generate_from g (if leb now used then some used else none) clock
generate_from g none (now ∷ clock) = elim (ltb now g.last_timestamp) [
  | true ↦ generate_from g none clock
  | false ↦ elim (claim_slot (advance g now).seq_mask) [
    | none ↦ generate_from (advance g now) (some now) clock
    | some (mask, sequence) ↦ some (record {
      generator = record (advance g now) { seq_mask = mask };
      now = now;
      sequence = sequence;
      clock = clock;
    })
  ]
]

-- `GenerateGlobalID` for one sender
module _ (user_id room_id login_id custom : ℕ) where
  unfoldable pub generate_global_id : Generator → List ℕ → Option (GlobalId × Generator × List ℕ)
  generate_global_id g clock = elim (generate_from g none clock) [
    | none ↦ none
    | some r ↦
        some
          (build_id_with_seq r.now user_id room_id login_id custom r.sequence, r.generator, r.clock)
  ]

  -- A sequence of calls, up to one that still waits
  unfoldable pub generate_many : ℕ → Generator → List ℕ → List GlobalId
  generate_many zero g clock = []
  generate_many (suc n) g clock = elim (generate_global_id g clock) [
    | none ↦ []
    | some (id, g', clock') ↦ id ∷ generate_many n g' clock'
  ]
