-- ===== src/Message/GlobalId.antt =====
-- message/idgen.go: the 16-byte identifier of a message, its fields, validity and order.
pub mod RoundTrip
pub mod Order
use live_chat_room.Prelude.{
  ℕ, zero, suc, ◌+◌, ◌-◌, ◌*◌, ◌/◌, ◌%◌, ◌^◌, Ordering, Bool, true, false, not, Option, none, some,
  List, [], ◌∷◌, ◌++◌, if◌then◌else◌, ltb, ◌==◌, length, take, drop, replicate, be_bytes, be_value,
}

abbrev pub global_id_length : ℕ
global_id_length = 16

abbrev pub max_login_id : ℕ
max_login_id = 2 ^ 4 - 1

abbrev pub max_sequence : ℕ
max_sequence = 2 ^ 6 - 1

abbrev pub max_custom : ℕ
max_custom = 2 ^ 6 - 1

abbrev pub max_timestamp : ℕ
max_timestamp = 2 ^ 48 - 1

-- 2024-01-01 00:00:00 UTC, in milliseconds
abbrev pub epoch : ℕ
epoch = 1704067200000

-- A `GlobalID` is an array of 16 bytes.
abbrev pub GlobalId : Type 0
GlobalId = List ℕ

-- `copy(id[i:], bs)`
abbrev pub put_at : ℕ → List ℕ → GlobalId → GlobalId
put_at i bs id = take i id ++ (bs ++ drop (i + length bs) id)

-- `id[i : i + n]`
abbrev pub slice : ℕ → ℕ → GlobalId → List ℕ
slice i n id = take n (drop i id)

-- `uint64(now - Epoch)`, at most `MaxTimestamp`
unfoldable pub clamp_timestamp : ℕ → ℕ
clamp_timestamp now =
    let timestamp = (now + 2 ^ 64 - epoch) % 2 ^ 64 in
    if ltb max_timestamp timestamp then max_timestamp else timestamp

-- `x & (2^k - 1)` is `x % 2^k`; the three parts of the last word do not overlap, so `|` is `+`.
unfoldable pub last_part : ℕ → ℕ → ℕ → ℕ
last_part login_id custom sequence =
    login_id % 2 ^ 4 * 2 ^ 12 + sequence % 2 ^ 6 * 2 ^ 6 + custom % 2 ^ 6

-- `buildIDWithSeq`
unfoldable pub build_id_with_seq : ℕ → ℕ → ℕ → ℕ → ℕ → ℕ → GlobalId
unfolding clamp_timestamp last_part
build_id_with_seq now user_id room_id login_id custom sequence =
    put_at 14 (be_bytes 2 (last_part login_id custom sequence)) (
      put_at 10 (be_bytes 4 room_id) (
        put_at 6 (be_bytes 4 user_id)
          (put_at 0 (be_bytes 8 (clamp_timestamp now * 2 ^ 16)) (replicate 16 0))))

-- `FromBytes`; the error is `none`
unfoldable pub from_bytes : List ℕ → Option GlobalId
from_bytes bs = if not (length bs == global_id_length) then none else some bs

unfoldable pub extract_timestamp : GlobalId → ℕ
extract_timestamp id = be_value (slice 0 8 id) / 2 ^ 16 + epoch

unfoldable pub extract_user_id : GlobalId → ℕ
extract_user_id id = be_value (slice 6 4 id)

unfoldable pub extract_room_id : GlobalId → ℕ
extract_room_id id = be_value (slice 10 4 id)

unfoldable pub extract_login_id : GlobalId → ℕ
extract_login_id id = be_value (slice 14 2 id) / 2 ^ 12 % 2 ^ 4

unfoldable pub extract_sequence : GlobalId → ℕ
extract_sequence id = be_value (slice 14 2 id) / 2 ^ 6 % 2 ^ 6

unfoldable pub extract_custom : GlobalId → ℕ
extract_custom id = be_value (slice 14 2 id) % 2 ^ 6

pub record IdFields : Type 0 where
  pub timestamp : ℕ
  pub user_id : ℕ
  pub room_id : ℕ
  pub login_id : ℕ
  pub sequence : ℕ
  pub custom : ℕ

-- `ParseGlobalID`
unfoldable pub parse_global_id : List ℕ → Option IdFields
parse_global_id bs = elim (from_bytes bs) [
  | none ↦ none
  | some id ↦ some (record {
    timestamp = extract_timestamp id;
    user_id = extract_user_id id;
    room_id = extract_room_id id;
    login_id = extract_login_id id;
    sequence = extract_sequence id;
    custom = extract_custom id;
  })
]

unfoldable pub is_zero : GlobalId → Bool
is_zero [] = true
is_zero (b ∷ bs) = if not (b == 0) then false else is_zero bs

-- `IsValid`, at the time `now`. `now - timestamp` may be negative, so the bound is moved over.
unfoldable pub is_valid : ℕ → GlobalId → Bool
is_valid now id =
    if is_zero id
    then false
    else if ltb (now + 60 * 1000) (extract_timestamp id)
    then false
    else if ltb (extract_timestamp id + 30 * 24 * 60 * 60 * 1000) now
    then false
    else true

-- The loop of `Compare` over the bytes of two arrays of one length; -1, 0, 1 are lt, eq, gt.
unfoldable pub compare_bytes : List ℕ → List ℕ → Ordering
compare_bytes [] ys = Ordering.eq
compare_bytes (x ∷ xs) [] = Ordering.eq
compare_bytes (x ∷ xs) (y ∷ ys) =
    if ltb x y then Ordering.lt else if ltb y x then Ordering.gt else compare_bytes xs ys

-- `Compare`: the timestamps first, then the bytes.
unfoldable pub compare_id : GlobalId → GlobalId → Ordering
compare_id a b =
    if ltb (extract_timestamp a) (extract_timestamp b)
    then Ordering.lt
    else if ltb (extract_timestamp b) (extract_timestamp a)
    then Ordering.gt
    else compare_bytes a b

-- `Equal`
unfoldable pub equal_id : GlobalId → GlobalId → Bool
equal_id a b = elim (compare_id a b) [ Ordering.eq ↦ true | _ ↦ false ]
