-- ===== src/Net/WebSocket.antt =====
-- util/net/protocol/websocket/websocket.go: the incremental parser of WebSocket frames.
pub mod Builder
pub mod Frames
pub mod Fragments
pub mod Opening
pub mod Reassembly
pub mod Header
pub mod Loop
pub mod Pieces
pub mod Stream
pub mod Transfer
use live_chat_room.Prelude.{
  ℕ, zero, suc, ◌+◌, ◌/◌, ◌%◌, ◌^◌, Bool, true, false, not, ◌&&◌, ◌||◌, List, [], ◌∷◌, ◌++◌,
  if◌then◌else◌, ltb, leb, ◌==◌, length, get_or, drop, sub, be_value, bit_xor,
}
use live_chat_room.Net.Utf8.{utf8_valid}

abbrev pub op_code_continuation : ℕ
op_code_continuation = 0x0

abbrev pub op_code_text : ℕ
op_code_text = 0x1

abbrev pub op_code_binary : ℕ
op_code_binary = 0x2

abbrev pub op_code_close : ℕ
op_code_close = 0x8

abbrev pub op_code_ping : ℕ
op_code_ping = 0x9

abbrev pub op_code_pong : ℕ
op_code_pong = 0xa

abbrev pub close_no_status_rcvd : ℕ
close_no_status_rcvd = 1005

pub data MessageType : Type 0 where
  websocket_text websocket_binary websocket_close websocket_ping websocket_pong websocket_unknown :
      MessageType

-- `WebSocketMessage`; a nil mask key and an empty reason are empty lists.
pub record Message : Type 0 where
  pub op_code : ℕ
  pub masked : Bool
  pub mask_key : List ℕ
  pub final : Bool
  pub message_type : MessageType
  pub payload : List ℕ
  pub close_code : ℕ
  pub close_reason : List ℕ

pub data ParseError : Type 0 where
  client_frame_unmasked server_frame_masked length_msb_set frame_too_large : ParseError
  invalid_op_code control_fragmented control_too_large text_not_utf8 : ParseError
  unexpected_start message_too_large message_not_utf8 : ParseError

pub record Parser : Type 0 where
  pub buffer : List ℕ
  pub is_server : Bool
  pub max_frame_size : ℕ
  pub max_msg_size : ℕ
  pub fragment_buffer : List ℕ
  pub fragment_op_code : ℕ

unfoldable pub new_web_socket_parser : Bool → Parser
new_web_socket_parser is_server = record {
  buffer = [];
  is_server = is_server;
  max_frame_size = 65536;
  max_msg_size = 1048576;
  fragment_buffer = [];
  fragment_op_code = 0;
}

-- What `parseFrame` returns: an error, `0` consumed, or the bytes consumed, with a message unless
-- the frame is a fragment. The parser comes with what changed.
pub data FrameResult : Type 0 where
  failed : Parser → ParseError → FrameResult
  need_more : FrameResult
  fragment : Parser → ℕ → FrameResult
  complete : Parser → Message → ℕ → FrameResult

unfoldable pub is_valid_op_code : ℕ → Bool
is_valid_op_code op_code =
    op_code == op_code_continuation
    || op_code == op_code_text
    || op_code == op_code_binary
    || op_code == op_code_close
    || op_code == op_code_ping
    || op_code == op_code_pong

unfoldable pub is_control_frame : ℕ → Bool
is_control_frame op_code = leb 0x8 op_code

unfoldable pub get_message_type : ℕ → MessageType
get_message_type op_code =
    if op_code == op_code_text
    then websocket_text
    else if op_code == op_code_binary
    then websocket_binary
    else if op_code == op_code_close
    then websocket_close
    else if op_code == op_code_ping
    then websocket_ping
    else if op_code == op_code_pong
    then websocket_pong
    else websocket_unknown

-- `validateFrame`: `then_err` of the first check that fails, else the result of what follows.
unfoldable pub validate_frame : Parser → ℕ → List ℕ → Bool → FrameResult → FrameResult
unfolding is_valid_op_code is_control_frame
validate_frame p op_code payload fin k =
    if not (is_valid_op_code op_code)
    then failed p invalid_op_code
    else if is_control_frame op_code && not fin
    then failed p control_fragmented
    else if is_control_frame op_code && ltb 125 (length payload)
    then failed p control_too_large
    else if op_code == op_code_text && not (utf8_valid payload)
    then failed p text_not_utf8
    else k

-- The end of `handleFragmentation`, after the payload has been added to the fragments in `p`.
unfoldable pub close_fragments : Parser → Bool → List ℕ → ℕ → FrameResult
unfolding get_message_type
close_fragments p fin mask_key total_len =
    let emptied = record p { fragment_buffer = [] } in
    if ltb p.max_msg_size (length p.fragment_buffer)
    then failed emptied message_too_large
    else if not fin
    then fragment p total_len
    else if p.fragment_op_code == op_code_text && not (utf8_valid p.fragment_buffer)
    then failed emptied message_not_utf8
    else complete (record emptied { fragment_op_code = 0 })
        (record {
          op_code = p.fragment_op_code;
          masked = ltb 0 (length mask_key);
          mask_key = mask_key;
          final = true;
          message_type = get_message_type p.fragment_op_code;
          payload = p.fragment_buffer;
          close_code = 0;
          close_reason = [];
        })
        total_len

unfoldable pub handle_fragmentation : Parser → ℕ → List ℕ → Bool → List ℕ → ℕ → FrameResult
unfolding close_fragments
handle_fragmentation p op_code payload fin mask_key total_len =
    let started = record p { fragment_op_code = op_code; fragment_buffer = payload } in
    let continued = record p { fragment_buffer = p.fragment_buffer ++ payload } in
    if op_code == op_code_continuation
    then close_fragments continued fin mask_key total_len
    else if ltb 0 (length p.fragment_buffer)
    then failed p unexpected_start
    else close_fragments started fin mask_key total_len

-- `parseCloseFrame`: the code and the reason of a close frame's payload.
unfoldable pub parse_close_frame : List ℕ → ℕ × List ℕ
parse_close_frame payload =
    if leb 2 (length payload)
    then (be_value (sub 0 2 payload), drop 2 payload)
    else (close_no_status_rcvd, [])

-- `payload[i] ^= maskKey[i%4]`, from the index `i` on.
unfoldable pub apply_mask : List ℕ → ℕ → List ℕ → List ℕ
apply_mask mask_key i [] = []
apply_mask mask_key i (b ∷ bs) =
    bit_xor b (get_or mask_key (i % 4) 0) ∷ apply_mask mask_key (suc i) bs

-- `parseFrame` from the validation on.
unfoldable pub accept_frame : Parser → ℕ → Bool → Bool → List ℕ → List ℕ → ℕ → FrameResult
accept_frame p op_code fin masked mask_key payload total_len =
    let is_close = op_code == op_code_close in
    validate_frame p op_code payload fin (
      if op_code == op_code_continuation
        || not fin && (op_code == op_code_text || op_code == op_code_binary)
      then handle_fragmentation p op_code payload fin mask_key total_len
      else complete p
          (record {
            op_code = op_code;
            masked = masked;
            mask_key = mask_key;
            final = fin;
            message_type = get_message_type op_code;
            payload = payload;
            close_code = if is_close then (parse_close_frame payload).0 else 0;
            close_reason = if is_close then (parse_close_frame payload).1 else [];
          })
          total_len)

-- `parseFrame` from the payload's length on: the mask key, the payload and what is done with it.
unfoldable pub read_payload : Parser → ℕ → Bool → Bool → ℕ → ℕ → FrameResult
read_payload p op_code fin masked payload_len header_len =
    let key_len = if masked then 4 else 0 in
    let mask_key = sub header_len key_len p.buffer in
    let total_len = header_len + key_len + payload_len in
    let payload = sub (header_len + key_len) payload_len p.buffer in
    if ltb p.max_frame_size payload_len
    then failed p frame_too_large
    else if masked && ltb (length p.buffer) (header_len + 4)
    then need_more
    else if ltb (length p.buffer) total_len
    then need_more
    else accept_frame p op_code fin masked mask_key
        (if masked then apply_mask mask_key 0 payload else payload) total_len

-- `parseFrame` from the first two bytes on.
unfoldable pub read_header : Parser → ℕ → ℕ → FrameResult
read_header p first_byte second_byte =
    let fin = leb 0x80 first_byte in
    let op_code = first_byte % 16 in
    let masked = leb 0x80 second_byte in
    let payload_len = second_byte % 128 in
    let raw_len = be_value (sub 2 8 p.buffer) in
    if p.is_server && not masked
    then failed p client_frame_unmasked
    else if not p.is_server && masked
    then failed p server_frame_masked
    else if payload_len == 126
    then if ltb (length p.buffer) 4
      then need_more
      else read_payload p op_code fin masked (be_value (sub 2 2 p.buffer)) 4
    else if payload_len == 127
    then if ltb (length p.buffer) 10
      then need_more
      else if raw_len / 2 ^ 63 % 2 == 1
      then failed p length_msb_set
      else read_payload p op_code fin masked raw_len 10
    else read_payload p op_code fin masked payload_len 2

unfoldable pub parse_frame : Parser → FrameResult
parse_frame p =
    if ltb (length p.buffer) 2
    then need_more
    else read_header p (get_or p.buffer 0 0) (get_or p.buffer 1 0)

pub data ParseResult : Type 0 where
  messages : List Message → ParseResult
  error : ParseError → ParseResult
  out_of_fuel : ParseResult

-- One turn of the loop of `Parse`; `again` is the next turn.
unfoldable pub take_frame :
    (Parser → List Message → Parser × ParseResult)
    → Parser
    → List Message
    → FrameResult
    → Parser × ParseResult
take_frame again p ms (failed p' e) = (p', error e)
take_frame again p ms need_more = (p, messages ms)
take_frame again p ms (fragment p' n) = again (record p' { buffer = drop n p'.buffer }) ms
take_frame again p ms (complete p' m n) =
    again (record p' { buffer = drop n p'.buffer }) (ms ++ (m ∷ []))

unfoldable pub parse_loop : ℕ → Parser → List Message → Parser × ParseResult
parse_loop zero p ms = (p, out_of_fuel)
parse_loop (suc fuel) p ms =
    if ltb (length p.buffer) 2
    then (p, messages ms)
    else take_frame (parse_loop fuel) p ms (parse_frame p)

-- `Parse` on what `buf.ReadAll()` gives.
unfoldable pub parse : Parser → List ℕ → Parser × ParseResult
parse p input =
    let fed = record p { buffer = p.buffer ++ input } in parse_loop (suc (length fed.buffer)) fed []

-- `Feed`
unfoldable pub feed : Parser → List ℕ → Parser × Bool
feed p input =
    let fed = record p { buffer = p.buffer ++ input } in
    (fed, not (ltb fed.max_frame_size (length fed.buffer)))

unfoldable pub has_pending_message : Parser → Bool
has_pending_message p = leb 2 (length p.buffer)

unfoldable pub reset : Parser → Parser
reset p = record p { buffer = []; fragment_buffer = []; fragment_op_code = 0 }
