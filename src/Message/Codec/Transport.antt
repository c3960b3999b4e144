-- ===== src/Message/Codec/Transport.antt =====
-- message/codec.go: an envelope on its way from its sender to its receiver.
use mathlib.Core.Path.{subst}
use live_chat_room.Prelude.{
  ℕ, ◌+◌, ◌*◌, ◌%◌, ◌^◌, ◌≤◌, ◌<◌, ◌≡◌, refl, ◌∙◌, ◌≢◌, true, none, some, Option, List, [], ◌∷◌,
  arith, All, length,
}
use live_chat_room.Message.GlobalId.{epoch, build_id_with_seq, is_valid}
use live_chat_room.Message.GlobalId.RoundTrip.{
  extract_timestamp-in_range, extract_user_id-build, extract_room_id-build, extract_login_id-build,
  is_valid-build, from_bytes-build,
}
use live_chat_room.Message.Generator.{Generator, Generated, generate_from, generate_global_id}
use live_chat_room.Message.Generator.Sequence.{generate_from-All}
use live_chat_room.Message.Envelope.{Bytes, Content, Envelope}
use live_chat_room.Message.Codec.{
  ok, validate_envelope, create_envelope, extract_message_info, serialize, deserialize, info_of,
}
use live_chat_room.Message.Codec.Accepts.{IsWellFormed, validate_envelope_iff}

-- What protobuf promises: unmarshalling what was marshalled gives the message back, and a message
-- with a field that is not zero takes at least a byte.
module _ (marshal : Envelope → Option Bytes) (unmarshal : Bytes → Option Envelope)
    (round_trip : (e : Envelope) (bs : Bytes) → marshal e ≡ some bs → unmarshal bs ≡ some e)
    (takes_bytes : (e : Envelope) → e.connection_seq_id ≢ 0 → marshal e ≢ some []) where
  serialize-inv :
      (now : ℕ) (e : Envelope) {bs : Bytes}
      → serialize marshal unmarshal now (some e) ≡ ok bs
      → (validate_envelope now (some e) ≡ none) × (marshal e ≡ some bs)
  unfolding serialize
  serialize-inv now e h = ground arith

  deserialize-marshal :
      (now : ℕ) (e : Envelope) (bs : Bytes)
      → bs ≢ []
      → unmarshal bs ≡ some e
      → validate_envelope now (some e) ≡ none
      → deserialize marshal unmarshal now bs ≡ ok e
  unfolding deserialize
  deserialize-marshal now e [] ne u v = absurd (ne refl)
  deserialize-marshal now e (b ∷ bs) ne u v = rw (u, deserialize, v)

  -- An envelope that was serialized at one time is deserialized, unchanged, at every time at which
  -- its identifier is valid.
  pub deserialize-serialize :
      (now later : ℕ) (e : Envelope) (bs : Bytes)
      → serialize marshal unmarshal now (some e) ≡ ok bs
      → is_valid later e.message_id ≡ true
      → deserialize marshal unmarshal later bs ≡ ok e
  deserialize-serialize now later e bs h v =
      let (valid, m) = serialize-inv now e h in
      let w = (validate_envelope_iff now e).0 valid in
      deserialize-marshal later e bs
        (λ empty. takes_bytes e w.sequenced (subst (λ b. marshal e ≡ some b) empty m))
        (round_trip e bs m)
        ((validate_envelope_iff later e).1
          (record { sequenced = w.sequenced; sixteen = w.sixteen; timely = v; filled = w.filled }))

abbrev envelope_at : ℕ → Bytes → Content → Envelope
envelope_at seq id c = record { connection_seq_id = seq; message_id = id; message = some c }

length-build : (t u r l c s : ℕ) → length (build_id_with_seq t u r l c s) ≡ 16
unfolding build_id_with_seq
length-build t u r l c s = refl

extract-valid :
    (now : ℕ) (e : Envelope)
    → validate_envelope now (some e) ≡ none
    → extract_message_info now e ≡ info_of e
unfolding extract_message_info
extract-valid now e h = rw (h, extract_message_info)

module _ (t u r l s seq at : ℕ) (c : Content) (after : epoch < t) (fits : t < epoch + 2 ^ 48)
    (hu : u < 2 ^ 32) (hr : r < 2 ^ 32) (hs : seq ≢ 0) (early : t ≤ at + 60 * 1000)
    (late : at ≤ t + 30 * 24 * 60 * 60 * 1000) where
  abbrev sent : Envelope
  sent = envelope_at seq (build_id_with_seq t u r l 0 s) c

  sent-IsWellFormed : IsWellFormed at sent
  sent-IsWellFormed = record {
    sequenced = hs;
    sixteen = length-build t u r l 0 s;
    timely = rw (is_valid-build t u r l 0 s at after fits) (ground arith);
    filled = λ e. cc;
  }

  info_of-sent :
      info_of sent ≡ ok (record { user_id = u; room_id = r; login_id = l % 2 ^ 4; timestamp = t })
  unfolding info_of
  info_of-sent = rw (
    from_bytes-build t u r l 0 s,
    info_of,
    extract_timestamp-in_range t u r l 0 s (omega arith) fits,
    extract_user_id-build t u r l 0 s hu,
    extract_room_id-build t u r l 0 s hr,
    extract_login_id-build t u r l 0 s,
  )

  extract-sent :
      extract_message_info at sent
      ≡ ok (record { user_id = u; room_id = r; login_id = l % 2 ^ 4; timestamp = t })
  extract-sent =
      extract-valid at sent ((validate_envelope_iff at sent).1 sent-IsWellFormed) ∙ info_of-sent

-- An envelope created for a user and a room of 32 bits, with a connection sequence number that is
-- not zero, at a reading of the clock after the epoch that 48 bits hold, gives back the user, the
-- room, the low 4 bits of the login and that reading, when it is read from one minute before to
-- thirty days after the reading.
pub create_envelope_info :
    (user_id room_id login_id seq at : ℕ) (c : Content) (g : Generator) (clock : List ℕ)
    (x : Generated)
    → user_id < 2 ^ 32
    → room_id < 2 ^ 32
    → seq ≢ 0
    → All (λ t. (epoch < t) × (t < epoch + 2 ^ 48)) clock
    → generate_from g none clock ≡ some x
    → x.now ≤ at + 60 * 1000
    → at ≤ x.now + 30 * 24 * 60 * 60 * 1000
    → (e : Envelope) × (create_envelope user_id room_id login_id seq (some c) g clock
        ≡ some (ok e, x.generator, x.clock))
      × (extract_message_info at e
          ≡ ok (record {
            user_id = user_id;
            room_id = room_id;
            login_id = login_id % 2 ^ 4;
            timestamp = x.now;
          }))
unfolding create_envelope generate_global_id
create_envelope_info u r l seq at c g clock x hu hr hs times e early late =
    let id = build_id_with_seq x.now u r l 0 x.sequence in
    (envelope_at seq id c, rw (e, create_envelope, generate_global_id), found)
  where
    found :
        extract_message_info at (envelope_at seq (build_id_with_seq x.now u r l 0 x.sequence) c)
        ≡ ok (record { user_id = u; room_id = r; login_id = l % 2 ^ 4; timestamp = x.now })
    found =
        let ((after, fits), _) =
          generate_from-All (λ t. (epoch < t) × (t < epoch + 2 ^ 48)) g none clock times e in
        extract-sent x.now u r l x.sequence seq at c after fits hu hr hs early late
