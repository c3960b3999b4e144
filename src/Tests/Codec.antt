-- ===== src/Tests/Codec.antt =====
-- message/codec.go and router/message_classifier.go on concrete envelopes.
use mathlib.Core.Option.{some_inj}
use live_chat_room.Prelude.{ℕ, ◌+◌, ◌≡◌, ◌≢◌, refl, true, none, some, Option, List, [], ◌∷◌, arith}
use live_chat_room.Message.GlobalId.{
  build_id_with_seq, is_valid, is_zero, extract_timestamp, from_bytes,
}
use live_chat_room.Message.Generator.{new_global_id_generator, generate_from, claim_slot, advance}
use live_chat_room.Message.Envelope.{Bytes, Content, chat_message, heartbeat_ack, Envelope}
use live_chat_room.Message.Codec.{ok, validate_envelope, serialize}

abbrev noon : ℕ
noon = 1750000000000

abbrev hello : Content
hello = chat_message (some (record { content = 104 ∷ 105 ∷ []; message_type = 0; reply_to = 0 }))

abbrev greeting : Envelope
greeting = record {
  connection_seq_id = 1;
  message_id = build_id_with_seq noon 77 12 3 0 0;
  message = some hello;
}

-- A transport of heartbeat acknowledgements alone: the sequence number, and the identifier.
marshal_content : Envelope → Option Content → Option Bytes
marshal_content e (some heartbeat_ack) = some (e.connection_seq_id ∷ e.message_id)
marshal_content e _ = none

marshal : Envelope → Option Bytes
marshal e = marshal_content e e.message

unmarshal : Bytes → Option Envelope
unmarshal [] = none
unmarshal (seq ∷ id) =
    some (record { connection_seq_id = seq; message_id = id; message = some heartbeat_ack })

content_round_trip :
    (e : Envelope) (c : Option Content) (bs : Bytes)
    → e.message ≡ c
    → marshal_content e c ≡ some bs
    → unmarshal bs ≡ some e
unfolding marshal_content unmarshal
content_round_trip e none bs h m = cc
content_round_trip e (some heartbeat_ack) bs h m = rw (← some_inj.0 m) (ground arith)
content_round_trip e (some _) bs h m = cc

content_takes_bytes : (e : Envelope) (c : Option Content) → marshal_content e c ≢ some []
unfolding marshal_content
content_takes_bytes e none h = cc
content_takes_bytes e (some heartbeat_ack) h = cc
content_takes_bytes e (some _) h = cc

round_trip : (e : Envelope) (bs : Bytes) → marshal e ≡ some bs → unmarshal bs ≡ some e
unfolding marshal
round_trip e bs m = content_round_trip e e.message bs refl m

takes_bytes : (e : Envelope) → e.connection_seq_id ≢ 0 → marshal e ≢ some []
unfolding marshal
takes_bytes e n = content_takes_bytes e e.message

abbrev beat : Envelope
beat = record {
  connection_seq_id = 9;
  message_id = build_id_with_seq noon 77 12 3 0 0;
  message = some heartbeat_ack;
}

abbrev beat_bytes : Bytes
beat_bytes = 9 ∷ build_id_with_seq noon 77 12 3 0 0

serialize-beat : serialize marshal unmarshal noon (some beat) ≡ ok beat_bytes
unfolding serialize marshal marshal_content validate_envelope is_valid build_id_with_seq from_bytes
    is_zero extract_timestamp
serialize-beat = refl

valid-beat : is_valid (noon + 5000) beat.message_id ≡ true
unfolding is_valid build_id_with_seq is_zero extract_timestamp
valid-beat = refl

first_generated :
    generate_from new_global_id_generator none (noon ∷ [])
    ≡ some (record {
      generator = record { last_timestamp = noon; seq_mask = 1 };
      now = noon;
      sequence = 0;
      clock = [];
    })
unfolding generate_from advance claim_slot new_global_id_generator
first_generated = refl

abbrev traffic : List (Option Envelope)
traffic = some greeting ∷ some beat ∷ none ∷ some greeting ∷ []
