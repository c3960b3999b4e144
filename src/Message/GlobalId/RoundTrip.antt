-- ===== src/Message/GlobalId/RoundTrip.antt =====
-- message/idgen.go: building an identifier and reading its fields.
use live_chat_room.Prelude.{
  ℕ, ◌+◌, ◌-◌, ◌*◌, ◌%◌, ◌^◌, ◌≤◌, ◌<◌, ◌≡◌, refl, ◌∙◌, true, false, some, [], ◌∷◌, arith, leb,
  ◌&&◌, All, Bool-cases, inl, inr,
}
use live_chat_room.Message.GlobalId.{
  GlobalId, epoch, clamp_timestamp, last_part, build_id_with_seq, extract_timestamp,
  extract_user_id, extract_room_id, extract_login_id, extract_sequence, extract_custom,
  parse_global_id, from_bytes, is_zero, is_valid,
}

module _ (now user_id room_id login_id custom sequence : ℕ) where
  abbrev pub built : GlobalId
  built = build_id_with_seq now user_id room_id login_id custom sequence

  last_part-lt : last_part login_id custom sequence < 2 ^ 16
  unfolding last_part
  last_part-lt = omega arith

  clamp-le : clamp_timestamp now ≤ 2 ^ 48 - 1
  unfolding clamp_timestamp
  clamp-le = ground arith

  pub extract_timestamp-build : extract_timestamp built ≡ clamp_timestamp now + epoch
  unfolding extract_timestamp build_id_with_seq
  extract_timestamp-build = omega (arith, clamp-le)

  pub extract_user_id-build : user_id < 2 ^ 32 → extract_user_id built ≡ user_id
  unfolding extract_user_id build_id_with_seq
  extract_user_id-build h = omega arith

  pub extract_room_id-build : room_id < 2 ^ 32 → extract_room_id built ≡ room_id
  unfolding extract_room_id build_id_with_seq
  extract_room_id-build h = omega arith

  pub extract_login_id-build : extract_login_id built ≡ login_id % 2 ^ 4
  unfolding extract_login_id build_id_with_seq
  extract_login_id-build = omega arith

  pub extract_sequence-build : extract_sequence built ≡ sequence % 2 ^ 6
  unfolding extract_sequence build_id_with_seq
  extract_sequence-build = omega arith

  pub extract_custom-build : extract_custom built ≡ custom % 2 ^ 6
  unfolding extract_custom build_id_with_seq
  extract_custom-build = omega arith

clamp_timestamp-in_range :
    (now : ℕ) → epoch ≤ now → now < epoch + 2 ^ 48 → clamp_timestamp now + epoch ≡ now
unfolding clamp_timestamp
clamp_timestamp-in_range now h k = ground arith

pub extract_timestamp-in_range :
    (now user_id room_id login_id custom sequence : ℕ)
    → epoch ≤ now
    → now < epoch + 2 ^ 48
    → extract_timestamp (build_id_with_seq now user_id room_id login_id custom sequence) ≡ now
extract_timestamp-in_range now u r l c s h k =
    extract_timestamp-build now u r l c s ∙ clamp_timestamp-in_range now h k

pub from_bytes-build :
    (now user_id room_id login_id custom sequence : ℕ)
    → let id = build_id_with_seq now user_id room_id login_id custom sequence in
      from_bytes id ≡ some id
unfolding from_bytes build_id_with_seq
from_bytes-build now u r l c s = refl

-- An identifier built from a user and a room of 32 bits, at a time that 48 bits hold from the epoch
-- on, parses to just these, and to the low 4 bits of the login and the low 6 bits of the sequence
-- and custom fields.
pub parse_global_id-build :
    (now user_id room_id login_id custom sequence : ℕ)
    → epoch ≤ now
    → now < epoch + 2 ^ 48
    → user_id < 2 ^ 32
    → room_id < 2 ^ 32
    → parse_global_id (build_id_with_seq now user_id room_id login_id custom sequence)
      ≡ some (record {
        timestamp = now;
        user_id = user_id;
        room_id = room_id;
        login_id = login_id % 2 ^ 4;
        sequence = sequence % 2 ^ 6;
        custom = custom % 2 ^ 6;
      })
unfolding parse_global_id
parse_global_id-build now u r l c s h k hu hr = rw (
  from_bytes-build now u r l c s,
  parse_global_id,
  extract_timestamp-in_range now u r l c s h k,
  extract_user_id-build now u r l c s hu,
  extract_room_id-build now u r l c s hr,
  extract_login_id-build now u r l c s,
  extract_sequence-build now u r l c s,
  extract_custom-build now u r l c s,
)

zero_bytes : (id : GlobalId) → is_zero id ≡ true → All (λ b. b ≡ 0) id
unfolding is_zero
zero_bytes [] h = tt
zero_bytes (b ∷ bs) h = ground (arith, zero_bytes bs)

module _ (now user_id room_id login_id custom sequence : ℕ) where
  zero_bytes-build :
      All (λ b. b ≡ 0) (build_id_with_seq now user_id room_id login_id custom sequence)
      → clamp_timestamp now ≡ 0
  unfolding build_id_with_seq
  zero_bytes-build h = omega (arith, clamp-le now user_id room_id login_id custom sequence)

  is_zero-build :
      epoch < now
      → now < epoch + 2 ^ 48
      → is_zero (build_id_with_seq now user_id room_id login_id custom sequence) ≡ false
  is_zero-build h k =
      elim (Bool-cases (is_zero (built now user_id room_id login_id custom sequence))) [
        | inl z ↦ absurd (
            omega (
              arith,
              zero_bytes-build (zero_bytes _ z),
              clamp_timestamp-in_range now (omega arith) k,
            ))
        | inr e ↦ e
      ]

  -- An identifier built at a time after the epoch is valid exactly from one minute before that time
  -- to thirty days after it.
  pub is_valid-build :
      (at : ℕ)
      → epoch < now
      → now < epoch + 2 ^ 48
      → is_valid at (build_id_with_seq now user_id room_id login_id custom sequence)
        ≡ (leb now (at + 60 * 1000) && leb at (now + 30 * 24 * 60 * 60 * 1000))
  unfolding is_valid
  is_valid-build at h k =
      rw
        (
          is_zero-build h k,
          extract_timestamp-in_range now user_id room_id login_id custom sequence (omega arith) k,
        )
        (ground arith)
