-- ===== src/Tests/Ids.antt =====
-- message/idgen.go on concrete identifiers.
use live_chat_room.Prelude.{
  ℕ, ◌-◌, ◌^◌, ◌≤◌, ◌<◌, ◌≡◌, refl, none, some, List, [], ◌∷◌, ◌++◌, arith,
}
use live_chat_room.Message.GlobalId.{
  GlobalId, build_id_with_seq, parse_global_id, compare_bytes, compare_id,
}
use live_chat_room.Message.GlobalId.RoundTrip.{parse_global_id-build}
use live_chat_room.Message.GlobalId.Order.{IsGlobalId, compare_id-eq-compare_bytes}
use live_chat_room.Message.Generator.{
  Generator, Generated, new_global_id_generator, generate_from, generate_global_id, generate_many,
  claim_slot, advance,
}
use live_chat_room.Message.Generator.Sequence.{IsIncreasing, generate_many-IsIncreasing}
use live_chat_room.Message.Generator.Progress.{generate_from-ends}
use live_chat_room.Message.Generator.Race.{done, run, start, first_claims, then_clears, run_repeats}
use live_chat_room.Message.Generator.Race.Monotone.{run_monotone}

abbrev noon : ℕ
noon = 1750000000000

abbrev plain_id : GlobalId
plain_id = 0 ∷ 1 ∷ 2 ∷ 3 ∷ 4 ∷ 5 ∷ 6 ∷ 7 ∷ 8 ∷ 9 ∷ 10 ∷ 11 ∷ 12 ∷ 13 ∷ 14 ∷ 15 ∷ []

abbrev later_id : GlobalId
later_id = 0 ∷ 1 ∷ 2 ∷ 3 ∷ 4 ∷ 5 ∷ 6 ∷ 7 ∷ 8 ∷ 9 ∷ 10 ∷ 11 ∷ 12 ∷ 13 ∷ 14 ∷ 16 ∷ []

plain_id-IsGlobalId : IsGlobalId plain_id
plain_id-IsGlobalId = record { sixteen = refl; bytes = omega arith }

later_id-IsGlobalId : IsGlobalId later_id
later_id-IsGlobalId = record { sixteen = refl; bytes = omega arith }

parse_global_id-build_example :
    parse_global_id (build_id_with_seq noon 77 12 3 5 9)
    ≡ some (record {
      timestamp = noon;
      user_id = 77;
      room_id = 12;
      login_id = 3;
      sequence = 9;
      custom = 5;
    })
parse_global_id-build_example =
    parse_global_id-build noon 77 12 3 5 9 (omega arith) (omega arith) (omega arith) (omega arith)

compare_id-eq-compare_bytes_example : compare_id plain_id later_id ≡ compare_bytes plain_id later_id
compare_id-eq-compare_bytes_example =
    compare_id-eq-compare_bytes plain_id later_id plain_id-IsGlobalId later_id-IsGlobalId

-- The clock stands still for three readings, and then goes back for one.
abbrev readings : List ℕ
readings = noon ∷ noon ∷ noon ∷ 1749999999999 ∷ 1750000000001 ∷ []

generate_many_runs :
    generate_many 77 12 3 0 9 new_global_id_generator readings
    ≡ build_id_with_seq noon 77 12 3 0 0
      ∷ build_id_with_seq noon 77 12 3 0 1
      ∷ build_id_with_seq noon 77 12 3 0 2
      ∷ build_id_with_seq 1750000000001 77 12 3 0 0
      ∷ []
unfolding generate_many generate_global_id generate_from advance claim_slot new_global_id_generator
generate_many_runs = refl

generate_many-IsIncreasing_example :
    IsIncreasing (generate_many 77 12 3 0 9 new_global_id_generator readings)
generate_many-IsIncreasing_example = generate_many-IsIncreasing 77 12 3 0 9 readings (omega arith)

-- All 64 slots of the millisecond 1000 are taken.
abbrev exhausted : Generator
exhausted = record { last_timestamp = 1000; seq_mask = 2 ^ 64 - 1 }

generate_from-ends_example :
    (r : Generated) × (generate_from exhausted none ((1000 ∷ 1000 ∷ []) ++ (1001 ∷ 1002 ∷ []))
      ≡ some r)
generate_from-ends_example =
    generate_from-ends exhausted 64 none (1000 ∷ 1000 ∷ []) [] 1001 1002
      (record { slots = omega arith; mask = refl }) tt (omega arith) (omega arith)

run_repeats_example :
    let s = run (run start (first_claims 1 2 noon)) (then_clears 2 noon) in
    (s.pcs 1 ≡ done noon 0) × (s.pcs 2 ≡ done noon 0)
run_repeats_example = run_repeats 1 2 noon (λ e. omega arith) (omega arith)

run_monotone_example :
    let s = run start (first_claims 1 2 noon) in
    (s.shared.last_timestamp ≤ (run s (then_clears 2 noon)).shared.last_timestamp)
    × (noon ≤ (run s (then_clears 2 noon)).shared.last_timestamp)
    × (0 < 64)
run_monotone_example =
    run_monotone (first_claims 1 2 noon) (then_clears 2 noon) 1 noon 0 run_repeats_example.0
