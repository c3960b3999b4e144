-- ===== src/Message/Codec/Accepts.antt =====
-- message/codec.go: which envelopes the validation lets through.
use mathlib.Core.Path.{subst}
use live_chat_room.Prelude.{
  ℕ, ◌+◌, ◌*◌, ◌^◌, ◌≤◌, ◌<◌, ◌≡◌, refl, ◌≢◌, ◌↔◌, true, none, some, Option, arith, length,
}
use live_chat_room.Message.GlobalId.{global_id_length, from_bytes, is_valid}
use live_chat_room.Message.Envelope.{
  Content, allocate_room_id, create_room, join_room, chat_message, message_fetch_request,
  room_message_fetch_request, heartbeat, Envelope,
}
use live_chat_room.Message.Codec.{
  validate_envelope, validate_content, validate_specific_message, ◌then_check◌, CodecError,
}

-- What an envelope needs at the time `now`.
pub record IsWellFormed (now : ℕ) (e : Envelope) : Type 0 where
  pub sequenced : e.connection_seq_id ≢ 0
  pub sixteen : length e.message_id ≡ global_id_length
  pub timely : is_valid now e.message_id ≡ true
  pub filled : e.message ≢ none

-- What a content needs of its fields.
abbrev pub IsAcceptable : ℕ → Content → Type 0
IsAcceptable now (create_room none) = ⊥
IsAcceptable now (create_room (some m)) =
    (m.room_id ≢ 0) × (0 < length m.name) × (m.max_members ≢ 0)
IsAcceptable now (join_room none) = ⊥
IsAcceptable now (chat_message none) = ⊥
IsAcceptable now (chat_message (some m)) = (0 < length m.content) × (length m.content ≤ 4096)
IsAcceptable now (message_fetch_request none) = ⊥
IsAcceptable now (message_fetch_request (some m)) = length m.message_id ≡ global_id_length
IsAcceptable now (room_message_fetch_request none) = ⊥
IsAcceptable now (room_message_fetch_request (some m)) =
    (m.room_id ≢ 0) × (1 ≤ m.limit) × (m.limit ≤ 100)
IsAcceptable now (heartbeat none) = ⊥
IsAcceptable now (heartbeat (some m)) =
    (m.timestamp ≢ 0) × (m.timestamp ≤ now + 60 * 1000) × (now ≤ m.timestamp + 60 * 1000)
IsAcceptable now _ = Unit {0}

then_check-none : (a b : Option CodecError) → (a then_check b) ≡ none → (a ≡ none) × (b ≡ none)
then_check-none none b h = (refl, h)
then_check-none (some e) b h = cc

-- An envelope passes the basic validation exactly when its connection sequence number is not zero,
-- its identifier has 16 bytes and is valid at the time, and it has a content.
pub validate_envelope_iff :
    (now : ℕ) (e : Envelope) → (validate_envelope now (some e) ≡ none) ↔ IsWellFormed now e
unfolding validate_envelope from_bytes
validate_envelope_iff now e = (
  λ h. record {
    sequenced = ground arith;
    sixteen = ground arith;
    timely = ground arith;
    filled = ground arith;
  },
  λ v. ground arith,
)

validate_content_iff :
    (now : ℕ) (c : Content)
    → now < 2 ^ 63
    → (validate_content now (some c) ≡ none) ↔ IsAcceptable now c
unfolding validate_content
validate_content_iff now (create_room none) h = (λ e. cc, λ e. absurd e)
validate_content_iff now (create_room (some m)) h = (λ e. ground arith, λ e. ground arith)
validate_content_iff now (join_room none) h = (λ e. cc, λ e. absurd e)
validate_content_iff now (join_room (some m)) h = (λ e. tt, λ e. refl)
validate_content_iff now (chat_message none) h = (λ e. cc, λ e. absurd e)
validate_content_iff now (chat_message (some m)) h = (λ e. ground arith, λ e. ground arith)
validate_content_iff now (message_fetch_request none) h = (λ e. cc, λ e. absurd e)
validate_content_iff now (message_fetch_request (some m)) h = (λ e. ground arith, λ e. ground arith)
validate_content_iff now (room_message_fetch_request none) h = (λ e. cc, λ e. absurd e)
validate_content_iff now (room_message_fetch_request (some m)) h =
    (λ e. ground arith, λ e. ground arith)
validate_content_iff now (heartbeat none) h = (λ e. cc, λ e. absurd e)
validate_content_iff now (heartbeat (some m)) h = (λ e. ground arith, λ e. ground arith)
validate_content_iff now allocate_room_id h = (λ e. tt, λ e. refl)
validate_content_iff now _ h = (λ e. tt, λ e. refl)

-- At a time below 2^63, an envelope with the content `c` passes the validation of specific messages
-- exactly when it is well formed and `c` is acceptable: a room to create has a number, a name and
-- room for members, a chat message has 1 to 4096 bytes, a fetched identifier 16, a room fetch names
-- a room and asks for 1 to 100 messages, and a heartbeat is within a minute of the time.
pub validate_specific_message_iff :
    (now : ℕ) (e : Envelope) (c : Content)
    → now < 2 ^ 63
    → e.message ≡ some c
    → (validate_specific_message now (some e) ≡ none) ↔ (IsWellFormed now e × IsAcceptable now c)
unfolding validate_specific_message
validate_specific_message_iff now e c h m =
    let (we, ew) = validate_envelope_iff now e in
    let (wc, cw) = validate_content_iff now c h in
    (
      λ p.
          let (a, b) = then_check-none _ _ p in
          (we a, wc (subst (λ x. validate_content now x ≡ none) m b)),
      λ (w, a). rw (ew w, m) (cw a),
    )
