-- ===== src/Net/WebSocket/Frames.antt =====
-- websocket.go and builder.go: a frame that is built, and the message that the parser makes of it.
use live_chat_room.Prelude.{
  ℕ, suc, ◌+◌, ◌^◌, ◌≤◌, ◌<◌, ◌≡◌, refl, ap, sym, ◌∙◌, Bool, true, false, not, ◌&&◌, List, [], ◌∷◌,
  ◌++◌, append_assoc, arith, if◌then◌else◌, if_cases, ltb, length, drop, drop-length, length-append,
}
use live_chat_room.Net.WebSocket.{
  Parser, Message, FrameResult, is_valid_op_code, is_control_frame, apply_mask, accept_frame,
  read_header, parse_frame, take_frame, parse_loop,
}
use live_chat_room.Net.WebSocket.Builder.{ok, build_frame}
use live_chat_room.Net.WebSocket.Header.{
  valid_op_code-lt, length-apply_mask, apply_mask_twice, header, read_header_lem,
}
use live_chat_room.Net.WebSocket.Stream.{parse_loop_step}

-- What `buildFrame` returns when it does.
module _ (is_server fin : Bool) (op_code : ℕ) (mask_key payload : List ℕ) where
  abbrev pub key_sent : List ℕ
  key_sent = if is_server then [] else mask_key

  abbrev body_sent : List ℕ
  body_sent = if is_server then payload else apply_mask mask_key 0 payload

  abbrev frame_sent : List ℕ
  frame_sent = header is_server fin op_code (length payload) ++ (key_sent ++ body_sent)

  build_frame_ok :
      {f : List ℕ}
      → build_frame is_server mask_key op_code payload fin ≡ ok f
      → (is_valid_op_code op_code ≡ true) × (frame_sent ≡ f)
  unfolding build_frame
  build_frame_ok h = ground arith

  length-body_sent : length body_sent ≡ length payload
  length-body_sent =
      if_cases (λ (l : List ℕ). length l ≡ length payload) is_server (λ _. refl)
        (λ _. length-apply_mask mask_key 0 payload)

  unmask_sent : (if not is_server then apply_mask key_sent 0 body_sent else body_sent) ≡ payload
  unmask_sent = ground (arith, apply_mask_twice mask_key 0 payload)

parse_frame_start :
    (p : Parser) (a b : ℕ) (bs : List ℕ) → p.buffer ≡ a ∷ b ∷ bs → parse_frame p ≡ read_header p a b
unfolding parse_frame
parse_frame_start p a b bs h = ground arith

-- What the frame is, to the parser of the other side: its bytes are taken apart into the opcode, the
-- final bit, the key and the payload.
module _ (p : Parser) (is_server fin : Bool) (op_code : ℕ) (mask_key payload rest : List ℕ) where
  module _ (hs : p.is_server ≡ not is_server) (hk : length mask_key ≡ 4)
      (hm : length payload ≤ p.max_frame_size) (hl : length payload < 2 ^ 63) {f : List ℕ}
      (built : build_frame is_server mask_key op_code payload fin ≡ ok f)
      (hb : p.buffer ≡ f ++ rest) where
    abbrev key : List ℕ
    key = key_sent is_server fin op_code mask_key payload

    abbrev body : List ℕ
    body = body_sent is_server fin op_code mask_key payload

    in_buffer : p.buffer ≡ header is_server fin op_code (length body) ++ (key ++ (body ++ rest))
    in_buffer =
        let size = length-body_sent is_server fin op_code mask_key payload in
        hb
        ∙ (ap (λ (l : List ℕ). l ++ rest)
              (sym (build_frame_ok is_server fin op_code mask_key payload built).1)
            ∙ (ap (λ (n : ℕ). (header is_server fin op_code n ++ (key ++ body)) ++ rest) (sym size)
                ∙ (append_assoc (header is_server fin op_code (length body)) (key ++ body) rest
                    ∙ ap (λ (l : List ℕ). header is_server fin op_code (length body) ++ l)
                        (append_assoc key body rest))))

    length-built :
        length (header is_server fin op_code (length body)) + length key + length body ≡ length f
    length-built = omega (
      arith,
      ap length in_buffer,
      ap length hb,
      length-append f rest,
      length-append (header is_server fin op_code (length body)) (key ++ (body ++ rest)),
      length-append key (body ++ rest),
      length-append body rest,
    )

    parse_frame-build :
        parse_frame p ≡ accept_frame p op_code fin (not is_server) key payload (length f)
    parse_frame-build =
        let size = length-body_sent is_server fin op_code mask_key payload in
        parse_frame_start p _ _ _ in_buffer
        ∙ (read_header_lem p is_server fin op_code key body rest
              (valid_op_code-lt op_code
                (build_frame_ok is_server fin op_code mask_key payload built).0)
              hs (ground arith) (omega (arith, size)) (omega (arith, size)) in_buffer
            ∙ (ap
                  (λ (b : List ℕ). accept_frame p op_code fin (not is_server) key b (
                    length (header is_server fin op_code (length body)) + length key + length body))
                  (unmask_sent is_server fin op_code mask_key payload)
                ∙ ap (λ (n : ℕ). accept_frame p op_code fin (not is_server) key payload n)
                    length-built))

-- The bounds that a built frame keeps.
pub build_frame_bounds :
    (is_server fin : Bool) (op_code : ℕ) (mask_key payload : List ℕ) {f : List ℕ}
    → build_frame is_server mask_key op_code payload fin ≡ ok f
    → (2 ≤ length f)
      × (is_valid_op_code op_code ≡ true)
      × (is_control_frame op_code && ltb 125 (length payload) ≡ false)
unfolding build_frame
build_frame_bounds is_server fin op_code mask_key payload h = ground arith

-- One turn of the loop, on a built frame.
pub parse_loop-build :
    (p : Parser) (is_server fin : Bool) (op_code : ℕ) (mask_key payload rest : List ℕ)
    (acc : List Message) (fuel : ℕ) {f : List ℕ}
    → p.is_server ≡ not is_server
    → length mask_key ≡ 4
    → length payload ≤ p.max_frame_size
    → length payload < 2 ^ 63
    → build_frame is_server mask_key op_code payload fin ≡ ok f
    → p.buffer ≡ f ++ rest
    → parse_loop (suc fuel) p acc
      ≡ take_frame (parse_loop fuel) p acc (
          accept_frame p op_code fin
            (not is_server)
            (key_sent is_server fin op_code mask_key payload)
            payload
            (length f))
parse_loop-build p is_server fin op_code mask_key payload rest acc fuel {f} hs hk hm hl hf hb =
    let bounds = build_frame_bounds is_server fin op_code mask_key payload hf in
    parse_loop_step p fuel acc (ground (arith, ap length hb, length-append f rest, bounds.0))
    ∙ ap (λ (r : FrameResult). take_frame (parse_loop fuel) p acc r)
        (parse_frame-build p is_server fin op_code mask_key payload rest hs hk hm hl hf hb)

-- The buffer after the frame.
pub skip_frame :
    (p : Parser) (f rest : List ℕ) {b : List ℕ}
    → b ≡ f ++ rest
    → record p { buffer = drop (length f) b } ≡ record p { buffer = rest }
skip_frame p f rest e =
    ap (λ (b : List ℕ). record p { buffer = b })
      (ap (λ (b : List ℕ). drop (length f) b) e ∙ drop-length f rest)
