-- ===== src/Net/WebSocket/Fragments.antt =====
-- websocket.go and builder.go: a message sent in fragments, and put together again.
use mathlib.Core.List.{flatten}
use live_chat_room.Prelude.{
  ℕ, zero, suc, ◌+◌, ◌-◌, ◌^◌, ◌≤◌, ◌<◌, min, ◌≡◌, ◌⊎◌, refl, ap, sym, ◌∙◌, Bool, true, false, not,
  List, [], ◌∷◌, ◌++◌, arith, if◌then◌else◌, if-false, Bool-cases, inl, inr, ltb, ◌==◌, ==_ne,
  length, take, drop, sub, length-append, length-take, take_split, take_all,
}
use live_chat_room.Net.Utf8.{utf8_valid}
use live_chat_room.Net.WebSocket.{
  op_code_continuation, op_code_text, op_code_binary, Parser, Message, FrameResult, fragment,
  complete, messages, get_message_type, accept_frame, validate_frame, handle_fragmentation,
  close_fragments, take_frame, parse_loop,
}
use live_chat_room.Net.WebSocket.Builder.{Result, ok, both_ok, build_frame, fragments_from}
use live_chat_room.Net.WebSocket.Frames.{key_sent, parse_loop-build, skip_frame, build_frame_bounds}
use live_chat_room.Net.WebSocket.Stream.{parse_loop_short}

-- What the parser makes of each frame of a fragmented message.
module _ (p : Parser) (masked : Bool) (mask_key chunk : List ℕ) (n : ℕ) where
  pub accept_first :
      (op_code : ℕ)
      → (op_code ≡ op_code_text) ⊎ (op_code ≡ op_code_binary)
      → (op_code ≡ op_code_text → utf8_valid chunk ≡ true)
      → p.fragment_buffer ≡ []
      → length chunk ≤ p.max_msg_size
      → accept_frame p op_code false masked mask_key chunk n
        ≡ fragment (record p { fragment_op_code = op_code; fragment_buffer = chunk }) n
  unfolding accept_frame validate_frame handle_fragmentation close_fragments
  accept_first op_code h u e l = ground arith

  accept_middle :
      length (p.fragment_buffer ++ chunk) ≤ p.max_msg_size
      → accept_frame p op_code_continuation false masked mask_key chunk n
        ≡ fragment (record p { fragment_buffer = p.fragment_buffer ++ chunk }) n
  unfolding accept_frame validate_frame handle_fragmentation close_fragments
  accept_middle l = ground arith

  abbrev put_together : Message
  put_together = record {
    op_code = p.fragment_op_code;
    masked = ltb 0 (length mask_key);
    mask_key = mask_key;
    final = true;
    message_type = get_message_type p.fragment_op_code;
    payload = p.fragment_buffer ++ chunk;
    close_code = 0;
    close_reason = [];
  }

  accept_last :
      length (p.fragment_buffer ++ chunk) ≤ p.max_msg_size
      → (p.fragment_op_code ≡ op_code_text → utf8_valid (p.fragment_buffer ++ chunk) ≡ true)
      → accept_frame p op_code_continuation true masked mask_key chunk n
        ≡ complete (record p { fragment_buffer = []; fragment_op_code = 0 }) put_together n
  unfolding accept_frame validate_frame handle_fragmentation close_fragments
  accept_last l u = ground arith

module _ (is_server : Bool) (keys : ℕ → List ℕ) (op_code : ℕ) (bs : List ℕ) (size : ℕ) where
  abbrev pub rest_from : ℕ → ℕ → Result (List (List ℕ))
  rest_from fuel i = fragments_from is_server keys op_code bs size fuel i

  abbrev pub end_of : ℕ → ℕ
  end_of i = min (i + size) (length bs)

  abbrev pub chunk_at : ℕ → List ℕ
  chunk_at i = sub i (end_of i - i) bs

  abbrev pub frame_at : ℕ → Result (List ℕ)
  frame_at i =
      build_frame is_server (keys i) (if i == 0 then op_code else op_code_continuation) (chunk_at i)
        (end_of i == length bs)

  pub fragments_end : (fuel i : ℕ) → length bs ≤ i → rest_from fuel i ≡ ok []
  unfolding fragments_from
  fragments_end zero i h = refl
  fragments_end (suc fuel) i h = ground arith

  pub fragments_step :
      (fuel i : ℕ) {fs : List (List ℕ)}
      → i < length bs
      → rest_from (suc fuel) i ≡ ok fs
      → (f : List ℕ) × (rest : List (List ℕ)) × (frame_at i ≡ ok f)
        × (rest_from fuel (i + size) ≡ ok rest)
        × (fs ≡ f ∷ rest)
  unfolding fragments_from
  fragments_step fuel i h e =
      let open_if = if-false {b = not (ltb i (length bs))} _ _ (ground arith) in
      let (f, rest, hf, hr, r) =
        both_ok (λ (f : List ℕ) (fs : List (List ℕ)). f ∷ fs) (frame_at i)
          (rest_from fuel (i + size)) (sym open_if ∙ e) in
      (f, rest, hf, hr, cc r)

  frame_at_later :
      (i : ℕ) (fin : Bool)
      → 0 < i
      → (end_of i == length bs) ≡ fin
      → frame_at i ≡ build_frame is_server (keys i) op_code_continuation (chunk_at i) fin
  frame_at_later i fin h e =
      rw (e, if-false op_code op_code_continuation (==_ne i 0 (omega arith))) refl

  -- The fragments so far, with the next chunk behind them.
  take-chunk_at : (i : ℕ) → i ≤ length bs → take i bs ++ chunk_at i ≡ take (end_of i) bs
  take-chunk_at i h = sym (take_split i (end_of i - i) bs) ∙ ap (λ (n : ℕ). take n bs) (omega arith)

  pub length-chunk_at : (i : ℕ) → length (chunk_at i) ≤ size
  length-chunk_at i = omega (arith, length-take (end_of i - i) (drop i bs))

  -- A parser that has put together the first `i` bytes.
  pub record Holds (q : Parser) (i : ℕ) : Type 0 where
    pub other_side : q.is_server ≡ not is_server
    pub frame_fits : size ≤ q.max_frame_size
    pub message_fits : length bs ≤ q.max_msg_size
    pub started : q.fragment_op_code ≡ op_code
    pub so_far : q.fragment_buffer ≡ take i bs

  -- The message that was sent.
  pub record IsSent (m : Message) : Type 0 where
    pub same_op_code : m.op_code ≡ op_code
    pub same_payload : m.payload ≡ bs
    pub is_final : m.final ≡ true

  module _ (keyed : (i : ℕ) → length (keys i) ≡ 4) (positive : 0 < size) (counted : size < 2 ^ 63)
      (text_valid : op_code ≡ op_code_text → utf8_valid bs ≡ true) where
    -- One turn of the loop, on a frame that is not the first.
    later_frame :
        (i lf : ℕ) (q : Parser) (acc : List Message) (fin : Bool) (rest : List ℕ) {f : List ℕ}
        → 0 < i
        → (end_of i == length bs) ≡ fin
        → Holds q i
        → frame_at i ≡ ok f
        → q.buffer ≡ f ++ rest
        → parse_loop (suc lf) q acc
          ≡ take_frame (parse_loop lf) q acc (
              accept_frame q op_code_continuation fin
                (not is_server)
                (key_sent is_server fin op_code_continuation (keys i) (chunk_at i))
                (chunk_at i)
                (length f))
    later_frame i lf q acc fin rest {f} h e v hf hb =
        let l = length-chunk_at i in
        parse_loop-build q is_server fin op_code_continuation (keys i) (chunk_at i) rest acc lf
          v.other_side (keyed i) (omega (arith, l, v.frame_fits)) (omega (arith, l))
          (sym (frame_at_later i fin h e) ∙ hf) hb

    abbrev pub Received : ℕ → Parser → List Message → Type 0
    Received lf q acc =
        (m : Message) × IsSent m
        × (parse_loop lf q acc ≡ (
          record q { buffer = []; fragment_buffer = []; fragment_op_code = 0 },
          messages (acc ++ (m ∷ [])),
        ))

    extended :
        (i : ℕ) (q : Parser)
        → i ≤ length bs
        → Holds q i
        → q.fragment_buffer ++ chunk_at i ≡ take (end_of i) bs
    extended i q h v = ap (λ (l : List ℕ). l ++ chunk_at i) v.so_far ∙ take-chunk_at i h

    last_frame :
        (i lf : ℕ) (q : Parser) (acc : List Message) (f : List ℕ)
        → 0 < i
        → i ≤ length bs
        → (end_of i == length bs) ≡ true
        → Holds q i
        → frame_at i ≡ ok f
        → q.buffer ≡ f ++ []
        → Received (suc (suc lf)) q acc
    unfolding take_frame
    last_frame i lf q acc f hi hn e v hf hb =
        let whole : q.fragment_buffer ++ chunk_at i ≡ bs =
          extended i q hn v ∙ take_all (end_of i) bs (ground arith) in
        let key = key_sent is_server true op_code_continuation (keys i) (chunk_at i) in
        let m = put_together q (not is_server) key (chunk_at i) (length f) in
        let q' = record q { fragment_buffer = []; fragment_op_code = 0 } in
        let accepted =
          accept_last q (not is_server) key (chunk_at i) (length f)
            (omega (arith, ap length whole, v.message_fits))
            (λ t. rw whole (text_valid (sym v.started ∙ t))) in
        (
          m,
          record { same_op_code = v.started; same_payload = whole; is_final = refl },
          later_frame i (suc lf) q acc true [] hi e v hf hb
              ∙ (ap (λ (r : FrameResult). take_frame (parse_loop (suc lf)) q acc r) accepted
                  ∙ (ap (λ (p : Parser). parse_loop (suc lf) p (acc ++ (m ∷ [])))
                        (skip_frame q' f [] hb)
                      ∙ parse_loop_short (record q' { buffer = [] }) lf (acc ++ (m ∷ [])) refl)),
        )

    middle_frame :
        (i lf : ℕ) (q : Parser) (acc : List Message) (f rest : List ℕ)
        → 0 < i
        → i ≤ length bs
        → (end_of i == length bs) ≡ false
        → Holds q i
        → frame_at i ≡ ok f
        → q.buffer ≡ f ++ rest
        → parse_loop (suc lf) q acc
          ≡ parse_loop lf (record q { buffer = rest; fragment_buffer = take (i + size) bs }) acc
    unfolding take_frame
    middle_frame i lf q acc f rest hi hn e v hf hb =
        let grown : q.fragment_buffer ++ chunk_at i ≡ take (i + size) bs =
          extended i q hn v ∙ ap (λ (n : ℕ). take n bs) (ground arith) in
        let key = key_sent is_server false op_code_continuation (keys i) (chunk_at i) in
        let q' = λ (l : List ℕ). record q { fragment_buffer = l } in
        let accepted =
          accept_middle q (not is_server) key (chunk_at i) (length f)
            (omega (arith, ap length grown, length-take (i + size) bs, v.message_fits)) in
        later_frame i lf q acc false rest hi e v hf hb
        ∙ (ap (λ (r : FrameResult). take_frame (parse_loop lf) q acc r) accepted
            ∙ (ap (λ (p : Parser). parse_loop lf p acc)
                  (skip_frame (q' (q.fragment_buffer ++ chunk_at i)) f rest hb)
                ∙ ap
                    (λ (l : List ℕ).
                      parse_loop lf (record q { buffer = rest; fragment_buffer = l }) acc)
                    grown))

    pub rest-Received :
        (fuel i lf : ℕ) (q : Parser) (acc : List Message) {fs : List (List ℕ)}
        → 0 < i
        → i < length bs
        → length bs ≤ i + fuel
        → Holds q i
        → rest_from fuel i ≡ ok fs
        → q.buffer ≡ flatten fs
        → length q.buffer < lf
        → Received lf q acc
    unfolding flatten
    rest-Received fuel i zero q acc hi hn hf v e hb hl = absurd (omega arith)
    rest-Received zero i (suc lf) q acc hi hn hf v e hb hl = absurd (omega arith)
    rest-Received (suc fuel) i (suc lf) q acc hi hn hf v e hb hl =
        let (f, rest, framed, more, split) = fragments_step fuel i hn e in
        let buffer : q.buffer ≡ f ++ flatten rest = hb ∙ ap flatten split in
        elim (Bool-cases (end_of i == length bs)) [
          | inl last ↦
              let two =
                (build_frame_bounds is_server true op_code_continuation (keys i) (chunk_at i)
                  (sym (frame_at_later i true hi last) ∙ framed)).0 in
              let none_left : rest ≡ [] = cc (more, fragments_end fuel (i + size) (ground arith)) in
              let buffer' = buffer ∙ ap (λ (l : List (List ℕ)). f ++ flatten l) none_left in
              let size_lf : suc (lf - 1) ≡ lf =
                omega (arith, two, ap length buffer, length-append f (flatten rest)) in
              rw (sym size_lf)
                (last_frame i (lf - 1) q acc f hi (omega arith) last v framed buffer')
          | inr middle ↦
              let two =
                (build_frame_bounds is_server false op_code_continuation (keys i) (chunk_at i)
                  (sym (frame_at_later i false hi middle) ∙ framed)).0 in
              let q' = record q { buffer = flatten rest; fragment_buffer = take (i + size) bs } in
              let (m, sent, parsed) =
                rest-Received fuel (i + size) lf q' acc (omega arith) (ground arith) (omega arith)
                  (record {
                    other_side = v.other_side;
                    frame_fits = v.frame_fits;
                    message_fits = v.message_fits;
                    started = v.started;
                    so_far = refl;
                  })
                  more refl
                  (omega (arith, two, ap length buffer, length-append f (flatten rest))) in
              (
                m,
                sent,
                middle_frame i lf q acc f (flatten rest) hi (omega arith) middle v framed buffer
                    ∙ parsed,
              )
        ]
