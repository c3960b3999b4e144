-- ===== src/Tests/Frames.antt =====
-- util/net/protocol/websocket: frames built and parsed on concrete bytes.
use mathlib.Core.List.{flatten}
use live_chat_room.Prelude.{
  ℕ, ◌≡◌, ◌≢◌, ◌≤◌, refl, true, false, List, [], ◌∷◌, arith, inl, inr, map,
}
use live_chat_room.Net.Utf8.{utf8_valid}
use live_chat_room.Net.WebSocket.{
  op_code_text, op_code_binary, Parser, Message, messages, error, out_of_fuel, text_not_utf8,
  client_frame_unmasked, is_valid_op_code, is_control_frame, apply_mask, parse, parse_loop,
  parse_frame, read_header, read_payload, take_frame,
}
use live_chat_room.Net.WebSocket.Builder.{
  ok, length_code, extended_length, build_frame, build_close_frame, fragments_from,
  build_fragmented_frames,
}
use live_chat_room.Net.WebSocket.Stream.{parse_ends}
use live_chat_room.Net.WebSocket.Pieces.{
  all_parsed, parse_pieces, Agrees, parse_pieces-Agrees, parse_pieces-build_all,
}
use live_chat_room.Net.WebSocket.Transfer.{
  Outgoing, IsSendable, received, build_all, parse-build_close,
}
use live_chat_room.Net.WebSocket.Fragments.{IsSent}
use live_chat_room.Net.WebSocket.Opening.{IsReady}
use live_chat_room.Net.WebSocket.Reassembly.{parse-build_fragmented, parse-build_fragmented_text}

abbrev client : Parser
client = record {
  buffer = [];
  is_server = false;
  max_frame_size = 65536;
  max_msg_size = 1048576;
  fragment_buffer = [];
  fragment_op_code = 0;
}

abbrev mask : List ℕ
mask = 17 ∷ 34 ∷ 51 ∷ 68 ∷ []

abbrev server : Parser
server = record client { is_server = true }

-- "hi" in a masked frame, and "é" in two fragments.
abbrev hi_frame : List ℕ
hi_frame = 129 ∷ 130 ∷ 17 ∷ 34 ∷ 51 ∷ 68 ∷ 121 ∷ 75 ∷ []

abbrev hi : Outgoing
hi = record { op_code = op_code_text; payload = b'h' ∷ b'i' ∷ []; mask_key = mask }

abbrev binary_frames : List (List ℕ)
binary_frames = (2 ∷ 2 ∷ 1 ∷ 2 ∷ []) ∷ (0 ∷ 2 ∷ 3 ∷ 4 ∷ []) ∷ (128 ∷ 1 ∷ 5 ∷ []) ∷ []

abbrev text_frames : List (List ℕ)
text_frames = (1 ∷ 1 ∷ 0xC3 ∷ []) ∷ (128 ∷ 1 ∷ 0xA9 ∷ []) ∷ []

abbrev close_bytes : List ℕ
close_bytes = 136 ∷ 133 ∷ 17 ∷ 34 ∷ 51 ∷ 68 ∷ 18 ∷ 202 ∷ 81 ∷ 61 ∷ 116 ∷ []

hi_built : build_all false (hi ∷ []) ≡ ok hi_frame
unfolding build_all build_frame length_code extended_length is_valid_op_code is_control_frame
    apply_mask
hi_built = refl

-- A frame that is cut behind its first byte: no message, then one.
cut_frame : (parse server (129 ∷ [])).1 ≡ messages []
unfolding parse parse_loop
cut_frame = refl

unmasked_frame : (parse server (129 ∷ 0 ∷ [])).1 ≡ error client_frame_unmasked
unfolding parse parse_loop parse_frame read_header take_frame
unmasked_frame = refl

too_short_control : (parse client (137 ∷ 126 ∷ 0 ∷ 126 ∷ [])).1 ≡ messages []
unfolding parse parse_loop parse_frame read_header read_payload take_frame
too_short_control = refl

parse_ends_example : (parse server hi_frame).1 ≢ out_of_fuel
parse_ends_example = parse_ends server hi_frame

-- A good frame and a bad one, in two pieces: the message has been returned when the error comes.
parse_pieces-Agrees_example :
    Agrees
      (hi_frame ∷ (129 ∷ 0 ∷ []) ∷ [])
      server
      (parse server (flatten (hi_frame ∷ (129 ∷ 0 ∷ []) ∷ []))).1
parse_pieces-Agrees_example = parse_pieces-Agrees hi_frame ((129 ∷ 0 ∷ []) ∷ []) server

hi-IsSendable : IsSendable 65536 hi
unfolding utf8_valid
hi-IsSendable = record {
  whole = λ e. cc;
  keyed = refl;
  fits = omega arith;
  counted = omega arith;
  is_text = λ e. refl;
}

parse_pieces-build_all_example :
    parse_pieces ((129 ∷ 130 ∷ 17 ∷ []) ∷ (34 ∷ 51 ∷ 68 ∷ 121 ∷ 75 ∷ []) ∷ []) server
    ≡ (map (received false) (hi ∷ []), all_parsed)
unfolding flatten
parse_pieces-build_all_example =
    parse_pieces-build_all false (hi ∷ []) server (129 ∷ 130 ∷ 17 ∷ [])
      ((34 ∷ 51 ∷ 68 ∷ 121 ∷ 75 ∷ []) ∷ []) refl refl (hi-IsSendable, tt) hi_built

close_built : build_close_frame false mask 1000 (b'b' ∷ b'y' ∷ b'e' ∷ []) ≡ ok close_bytes
unfolding build_close_frame build_frame length_code extended_length is_valid_op_code
    is_control_frame apply_mask
close_built = refl

parse-build_close_example :
    (m : Message) × (parse server close_bytes ≡ (server, messages (m ∷ [])))
    × (m.op_code ≡ 8)
    × (m.close_code ≡ 1000)
    × (m.close_reason ≡ b'b' ∷ b'y' ∷ b'e' ∷ [])
parse-build_close_example =
    parse-build_close false mask 1000 (b'b' ∷ b'y' ∷ b'e' ∷ []) server refl refl (omega arith) refl
      (omega arith) close_built

ready : (size n : ℕ) → size ≤ 65536 → n ≤ 1048576 → IsReady true size n client
ready size n h k = record {
  other_side = refl;
  no_bytes = refl;
  no_fragments = refl;
  no_op_code = refl;
  frame_fits = h;
  message_fits = k;
}

binary_built :
    build_fragmented_frames true (λ i. mask) op_code_binary (1 ∷ 2 ∷ 3 ∷ 4 ∷ 5 ∷ []) 2
    ≡ ok binary_frames
unfolding build_fragmented_frames fragments_from build_frame length_code extended_length
    is_valid_op_code is_control_frame
binary_built = refl

parse-build_fragmented_example :
    (m : Message) × IsSent true (λ i. mask) op_code_binary (1 ∷ 2 ∷ 3 ∷ 4 ∷ 5 ∷ []) 2 m
    × (parse client (flatten binary_frames) ≡ (client, messages (m ∷ [])))
parse-build_fragmented_example =
    parse-build_fragmented true (λ i. mask) op_code_binary (1 ∷ 2 ∷ 3 ∷ 4 ∷ 5 ∷ []) 2 (λ i. refl)
      (omega arith) (inr refl) (omega arith) client (ready 2 5 (omega arith) (omega arith))
      (λ e. cc) binary_built

text_built :
    build_fragmented_frames true (λ i. mask) op_code_text (0xC3 ∷ 0xA9 ∷ []) 1 ≡ ok text_frames
unfolding build_fragmented_frames fragments_from build_frame length_code extended_length
    is_valid_op_code is_control_frame
text_built = refl

cut_text : utf8_valid (0xC3 ∷ []) ≡ false
unfolding utf8_valid
cut_text = refl

whole_text : utf8_valid (0xC3 ∷ 0xA9 ∷ []) ≡ true
unfolding utf8_valid
whole_text = refl

parse-build_fragmented_text_example : (parse client (flatten text_frames)).1 ≡ error text_not_utf8
parse-build_fragmented_text_example =
    parse-build_fragmented_text true (λ i. mask) op_code_text (0xC3 ∷ 0xA9 ∷ []) 1 (λ i. refl)
      (omega arith) (inl refl) (omega arith) client (ready 1 2 (omega arith) (omega arith)) refl
      (omega arith) cut_text text_built
