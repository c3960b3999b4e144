-- ===== src/Net/WebSocket/Transfer.antt =====
-- websocket.go and builder.go: messages sent in one frame each, and what the parser makes of the stream.
use live_chat_room.Prelude.{
  ℕ, zero, suc, ◌^◌, ◌≤◌, ◌<◌, ◌≡◌, ◌≢◌, refl, ap, sym, ◌∙◌, Bool, true, false, not, ◌&&◌, List, [],
  ◌∷◌, ◌++◌, append_assoc, append_nil, arith, if◌then◌else◌, if-true, ltb, leb, ◌==◌, length,
  be_value, be_bytes, length-append, All, map,
}
use live_chat_room.Net.Utf8.{utf8_valid}
use live_chat_room.Net.WebSocket.{
  op_code_continuation, op_code_text, op_code_close, Parser, Message, FrameResult, complete,
  messages, is_valid_op_code, is_control_frame, get_message_type, parse_close_frame, accept_frame,
  validate_frame, take_frame, parse_loop, parse,
}
use live_chat_room.Net.WebSocket.Builder.{Result, ok, both, build_frame, both_ok, build_close_frame}
use live_chat_room.Net.WebSocket.Frames.{key_sent, parse_loop-build, skip_frame, build_frame_bounds}
use live_chat_room.Net.WebSocket.Stream.{parse_loop_short}

-- A message that is sent in one frame.
pub record Outgoing : Type 0 where
  pub op_code : ℕ
  pub payload : List ℕ
  pub mask_key : List ℕ

-- What a parser of frames up to a size accepts of it.
pub record IsSendable (max_frame_size : ℕ) (m : Outgoing) : Type 0 where
  pub whole : m.op_code ≢ op_code_continuation
  pub keyed : length m.mask_key ≡ 4
  pub fits : length m.payload ≤ max_frame_size
  pub counted : length m.payload < 2 ^ 63
  pub is_text : m.op_code ≡ op_code_text → utf8_valid m.payload ≡ true

unfoldable pub received : Bool → Outgoing → Message
received is_server m =
    let is_close = m.op_code == op_code_close in
    record {
      op_code = m.op_code;
      masked = not is_server;
      mask_key = key_sent is_server true m.op_code m.mask_key m.payload;
      final = true;
      message_type = get_message_type m.op_code;
      payload = m.payload;
      close_code = if is_close then (parse_close_frame m.payload).0 else 0;
      close_reason = if is_close then (parse_close_frame m.payload).1 else [];
    }

abbrev frame_of : Bool → Outgoing → Result (List ℕ)
frame_of is_server m = build_frame is_server m.mask_key m.op_code m.payload true

pub accept_frame-whole :
    (p : Parser) (is_server : Bool) (m : Outgoing) (n : ℕ)
    → IsSendable p.max_frame_size m
    → is_valid_op_code m.op_code ≡ true
    → is_control_frame m.op_code && ltb 125 (length m.payload) ≡ false
    → accept_frame p m.op_code true
        (not is_server)
        (key_sent is_server true m.op_code m.mask_key m.payload)
        m.payload
        n
      ≡ complete p (received is_server m) n
unfolding accept_frame validate_frame received
accept_frame-whole p is_server m n s valid small = ground arith

-- The frames of messages, one behind the other.
unfoldable pub build_all : Bool → List Outgoing → Result (List ℕ)
build_all is_server [] = ok []
build_all is_server (m ∷ ms) =
    both (λ f fs. f ++ fs) (frame_of is_server m) (build_all is_server ms)

module _ (is_server : Bool) where
  -- One turn of the loop, on the frame of one message.
  parse_loop-frame :
      (m : Outgoing) (f fs : List ℕ) (p : Parser) (acc : List Message) (fuel : ℕ)
      → p.is_server ≡ not is_server
      → IsSendable p.max_frame_size m
      → frame_of is_server m ≡ ok f
      → p.buffer ≡ f ++ fs
      → parse_loop (suc fuel) p acc
        ≡ parse_loop fuel (record p { buffer = fs }) (acc ++ (received is_server m ∷ []))
  parse_loop-frame m f fs p acc fuel hs s hf hb =
      let bounds = build_frame_bounds is_server true m.op_code m.mask_key m.payload hf in
      let taken = accept_frame-whole p is_server m (length f) s bounds.1 bounds.2 in
      parse_loop-build p is_server true m.op_code m.mask_key m.payload fs acc fuel hs s.keyed s.fits
        s.counted hf hb
      ∙ (ap (λ (r : FrameResult). take_frame (parse_loop fuel) p acc r) taken
          ∙ (unfold take_frame in
              ap (λ (q : Parser). parse_loop fuel q (acc ++ (received is_server m ∷ [])))
                (skip_frame p f fs hb)))

  transfer :
      (ms : List Outgoing) (p : Parser) (acc : List Message) (fuel : ℕ)
      → p.is_server ≡ not is_server
      → All (IsSendable p.max_frame_size) ms
      → build_all is_server ms ≡ ok p.buffer
      → length p.buffer < fuel
      → parse_loop fuel p acc
        ≡ (record p { buffer = [] }, messages (acc ++ map (received is_server) ms))
  unfolding build_all
  transfer ms p acc zero hs hp hb h = absurd (omega arith)
  transfer [] p acc (suc fuel) hs hp hb h =
      let e : [] ≡ p.buffer = cc hb in
      rw (append_nil acc) (
        parse_loop_short p fuel acc (rw (sym e) refl)
        ∙ ap (λ (b : List ℕ). (record p { buffer = b }, messages acc)) (sym e))
  transfer (m ∷ ms) p acc (suc fuel) hs hp hb h =
      let (f, fs, hf, hfs, e) =
        both_ok (λ (f fs : List ℕ). f ++ fs) (frame_of is_server m) (build_all is_server ms) hb in
      let buffer : p.buffer ≡ f ++ fs = cc e in
      parse_loop-frame m f fs p acc fuel hs hp.0 hf buffer
      ∙ (transfer ms (record p { buffer = fs }) (acc ++ (received is_server m ∷ [])) fuel hs hp.1
            hfs
            (omega (
              arith,
              (build_frame_bounds is_server true m.op_code m.mask_key m.payload hf).0,
              ap length buffer,
              length-append f fs,
            ))
          ∙ ap (λ (l : List Message). (record p { buffer = [] }, messages l))
              (append_assoc acc (received is_server m ∷ []) (map (received is_server) ms)))

-- The frames of any messages that the receiving side accepts, one behind the other, are parsed to
-- just these messages in their order, by a parser of the other side that holds no bytes; it holds
-- none afterwards, and its fragments are as before.
pub parse-build_all :
    (is_server : Bool) (ms : List Outgoing) (p : Parser) {bs : List ℕ}
    → p.is_server ≡ not is_server
    → p.buffer ≡ []
    → All (IsSendable p.max_frame_size) ms
    → build_all is_server ms ≡ ok bs
    → parse p bs ≡ (p, messages (map (received is_server) ms))
unfolding parse
parse-build_all is_server ms p {bs} hs empty hp hb =
    let start : p.buffer ++ bs ≡ bs = ap (λ (l : List ℕ). l ++ bs) empty in
    transfer is_server ms (record p { buffer = p.buffer ++ bs }) [] (suc (length (p.buffer ++ bs)))
      hs hp (hb ∙ ap ok (sym start)) (omega arith)
    ∙ ap (λ (b : List ℕ). (record p { buffer = b }, messages (map (received is_server) ms)))
        (sym empty)

parse_close_frame_lem :
    (code : ℕ) (reason : List ℕ)
    → code < 2 ^ 16
    → parse_close_frame (be_bytes 2 code ++ reason) ≡ (code, reason)
unfolding parse_close_frame
parse_close_frame_lem code reason h =
    let decoded : be_value (be_bytes 2 code) ≡ code = omega arith in
    if-true {b = leb 2 (length (be_bytes 2 code ++ reason))} _ _ (ground arith)
    ∙ ap (λ (n : ℕ). (n, reason)) decoded

-- A close frame, for any code of 16 bits and any reason that the builder accepts, is parsed to one
-- close message with that code and that reason.
pub parse-build_close :
    (is_server : Bool) (mask_key : List ℕ) (code : ℕ) (reason : List ℕ) (p : Parser) {f : List ℕ}
    → p.is_server ≡ not is_server
    → p.buffer ≡ []
    → 125 ≤ p.max_frame_size
    → length mask_key ≡ 4
    → code < 2 ^ 16
    → build_close_frame is_server mask_key code reason ≡ ok f
    → (m : Message) × (parse p f ≡ (p, messages (m ∷ [])))
      × (m.op_code ≡ op_code_close)
      × (m.close_code ≡ code)
      × (m.close_reason ≡ reason)
unfolding build_close_frame build_all received is_control_frame
parse-build_close is_server mask_key code reason p {f} hs hb room keyed bound built =
    let payload = be_bytes 2 code ++ reason in
    let out : Outgoing = record {
      op_code = op_code_close;
      payload = payload;
      mask_key = mask_key;
    } in
    let small = (build_frame_bounds is_server true op_code_close mask_key payload built).2 in
    let short : length payload ≤ 125 = ground arith in
    let sendable : IsSendable p.max_frame_size out = record {
      whole = λ e. cc;
      keyed = keyed;
      fits = omega arith;
      counted = omega arith;
      is_text = λ e. cc;
    } in
    let all : build_all is_server (out ∷ []) ≡ ok f = rw (built, append_nil f) refl in
    let parts = parse_close_frame_lem code reason bound in
    (
      received is_server out,
      parse-build_all is_server (out ∷ []) p hs hb (sendable, tt) all,
      refl,
      ap (λ (c : ℕ × List ℕ). c.0) parts,
      ap (λ (c : ℕ × List ℕ). c.1) parts,
    )
