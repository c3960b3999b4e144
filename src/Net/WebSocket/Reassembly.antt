-- ===== src/Net/WebSocket/Reassembly.antt =====
-- websocket.go and builder.go: a whole message by way of its fragments.
use mathlib.Core.List.{flatten}
use live_chat_room.Prelude.{
  ℕ, suc, ◌-◌, ◌^◌, ◌≤◌, ◌<◌, ◌≡◌, ◌⊎◌, ap, sym, ◌∙◌, Bool, true, false, not, List, [], ◌∷◌, ◌++◌,
  arith, Bool-cases, inl, inr, ◌==◌, length, take, length-append,
}
use live_chat_room.Net.Utf8.{utf8_valid}
use live_chat_room.Net.WebSocket.{
  op_code_text, op_code_binary, Parser, Message, text_not_utf8, FrameResult, failed, ParseResult,
  messages, error, accept_frame, validate_frame, take_frame, parse_loop, parse, is_valid_op_code,
  is_control_frame,
}
use live_chat_room.Net.WebSocket.Builder.{ok, build_fragmented_frames}
use live_chat_room.Net.WebSocket.Frames.{key_sent, build_frame_bounds}
use live_chat_room.Net.WebSocket.Fragments.{
  fragments_end, fragments_step, rest_from, end_of, chunk_at, frame_at, IsSent,
}
use live_chat_room.Net.WebSocket.Opening.{chunk_size, IsReady, start, single, several}

refuse_text :
    (p : Parser) (masked : Bool) (mask_key chunk : List ℕ) (n op_code : ℕ)
    → op_code ≡ op_code_text
    → utf8_valid chunk ≡ false
    → accept_frame p op_code false masked mask_key chunk n ≡ failed p text_not_utf8
unfolding accept_frame validate_frame is_valid_op_code is_control_frame
refuse_text p masked mask_key chunk n op_code h bad = ground arith

module _ (is_server : Bool) (keys : ℕ → List ℕ) (op_code : ℕ) (bs : List ℕ)
    (max_frame_size : ℕ) where
  abbrev size : ℕ
  size = chunk_size max_frame_size

  frames_of :
      {fs : List (List ℕ)}
      → build_fragmented_frames is_server keys op_code bs max_frame_size ≡ ok fs
      → rest_from is_server keys op_code bs size (length bs) 0 ≡ ok fs
  unfolding build_fragmented_frames
  frames_of h = ground arith

  module _ (keyed : (i : ℕ) → length (keys i) ≡ 4) (counted : size < 2 ^ 63)
      (kind : (op_code ≡ op_code_text) ⊎ (op_code ≡ op_code_binary))
      (some_bytes : 0 < length bs) where
    abbrev Parsed : Parser → List (List ℕ) → Type 0
    Parsed p fs =
        (m : Message) × IsSent is_server keys op_code bs size m
        × (parse p (flatten fs) ≡ (p, messages (m ∷ [])))

    settled :
        (p : Parser)
        → IsReady is_server size (length bs) p
        → record p { buffer = []; fragment_buffer = []; fragment_op_code = 0 } ≡ p
    settled p v = ground arith

    -- `Parse` as its loop, on the frames.
    parse_start :
        (p : Parser) (fs : List (List ℕ))
        → IsReady is_server size (length bs) p
        → parse p (flatten fs)
          ≡ parse_loop (suc (length (flatten fs))) (record p { buffer = flatten fs }) []
    unfolding parse
    parse_start p fs v =
        ap
          (λ (b : List ℕ).
            parse_loop (suc (length (b ++ flatten fs))) (record p { buffer = b ++ flatten fs }) [])
          v.no_bytes

    chunk_size-pos : 0 < size
    chunk_size-pos = ground arith

    first_bounds :
        (fin : Bool) (f : List ℕ)
        → (end_of is_server keys op_code bs size 0 == length bs) ≡ fin
        → frame_at is_server keys op_code bs size 0 ≡ ok f
        → 2 ≤ length f
    first_bounds fin f e hf =
        (build_frame_bounds is_server fin op_code (keys 0)
          (chunk_at is_server keys op_code bs size 0) {f = f} (rw (sym e) hf)).0

    -- The first frame, and those behind it.
    opened :
        {fs : List (List ℕ)}
        → build_fragmented_frames is_server keys op_code bs max_frame_size ≡ ok fs
        → (f : List ℕ) × (rest : List (List ℕ)) × (frame_at is_server keys op_code bs size 0 ≡ ok f)
          × (rest_from is_server keys op_code bs size (length bs - 1) size ≡ ok rest)
          × (fs ≡ f ∷ rest)
    opened {fs} built =
        let fuel : length bs ≡ suc (length bs - 1) = omega arith in
        let frames =
          ap (λ (n : ℕ). rest_from is_server keys op_code bs size n 0) (sym fuel)
          ∙ frames_of built in
        let (f, rest, framed, more, split) =
          fragments_step is_server keys op_code bs size (length bs - 1) 0 {fs = fs} some_bytes
            frames in
        (
          f,
          rest,
          framed,
          ap (λ (n : ℕ). rest_from is_server keys op_code bs size (length bs - 1) n) (omega arith)
              ∙ more,
          split,
        )

    assembled :
        (p : Parser) (f : List ℕ) (rest : List (List ℕ))
        → IsReady is_server size (length bs) p
        → (op_code ≡ op_code_text → (utf8_valid bs ≡ true) × (utf8_valid (take size bs) ≡ true))
        → frame_at is_server keys op_code bs size 0 ≡ ok f
        → rest_from is_server keys op_code bs size (length bs - 1) size ≡ ok rest
        → Parsed p (f ∷ rest)
    unfolding flatten
    assembled p f rest v valid hf hr =
        elim (Bool-cases (end_of is_server keys op_code bs size 0 == length bs)) [
          | inl last ↦
              let none_left : rest ≡ [] = cc (
                hr,
                fragments_end is_server keys op_code bs size (length bs - 1) size (ground arith),
              ) in
              let two = first_bounds true f last hf in
              let lf : suc (length (f ++ flatten rest) - 1) ≡ length (f ++ flatten rest) =
                omega (arith, two, length-append f (flatten rest)) in
              let (m, sent, parsed) =
                single is_server keys op_code bs max_frame_size keyed counted kind some_bytes p f
                  (length (f ++ flatten rest) - 1) v (λ t. (valid t).0) last hf in
              (
                m,
                sent,
                parse_start p (f ∷ rest) v
                    ∙ (ap
                          (λ (l : List (List ℕ)).
                            parse_loop (suc (length (f ++ flatten rest)))
                              (record p { buffer = f ++ flatten l }) [])
                          none_left
                        ∙ (ap (λ (n : ℕ). parse_loop (suc n) (record p { buffer = f ++ [] }) [])
                              (sym lf)
                            ∙ (parsed
                                ∙ ap (λ (b : List ℕ). (record p { buffer = b }, messages (m ∷ [])))
                                    (sym v.no_bytes)))),
              )
          | inr middle ↦
              let two = first_bounds false f middle hf in
              let (m, sent, parsed) =
                several is_server keys op_code bs max_frame_size keyed counted kind some_bytes p f
                  rest (length (f ++ flatten rest)) v valid middle chunk_size-pos hf hr
                  (omega (arith, two, length-append f (flatten rest))) in
              (
                m,
                sent,
                parse_start p (f ∷ rest) v
                    ∙ (parsed ∙ ap (λ (p : Parser). (p, messages (m ∷ []))) (settled p v)),
              )
        ]

    -- A text or binary message that is not empty and is sent in fragments, with mask keys of four
    -- bytes, is put together again by a parser of the other side that is between two messages, when the
    -- size of a fragment is within the parser's frame size and below 2^63, and the message within its
    -- message size: it makes of the frames one message, with the opcode and the bytes that were sent,
    -- and is then as it was. A text has to be valid as a whole and in its first fragment.
    pub parse-build_fragmented :
        (p : Parser) {fs : List (List ℕ)}
        → IsReady is_server size (length bs) p
        → (op_code ≡ op_code_text → (utf8_valid bs ≡ true) × (utf8_valid (take size bs) ≡ true))
        → build_fragmented_frames is_server keys op_code bs max_frame_size ≡ ok fs
        → Parsed p fs
    unfolding flatten
    parse-build_fragmented p {fs} v valid built =
        let (f, rest, framed, more, split) = opened built in
        rw split (assembled p f rest v valid framed more)

    -- A text that is sent in fragments, with mask keys of four bytes, to a parser of the other side that
    -- is between two messages, the size of a fragment within the parser's frame size and below 2^63, and
    -- the message within its message size, is refused when its first fragment, with more behind it, is
    -- no valid UTF-8: the parser's error comes at the first frame, whether the text as a whole is valid
    -- or not.
    pub parse-build_fragmented_text :
        (p : Parser) {fs : List (List ℕ)}
        → IsReady is_server size (length bs) p
        → op_code ≡ op_code_text
        → size < length bs
        → utf8_valid (take size bs) ≡ false
        → build_fragmented_frames is_server keys op_code bs max_frame_size ≡ ok fs
        → (parse p (flatten fs)).1 ≡ error text_not_utf8
    unfolding flatten take_frame
    parse-build_fragmented_text p {fs} v text cut bad built =
        let (f, rest, framed, more, split) = opened built in
        let q = record p { buffer = f ++ flatten rest } in
        let chunk = chunk_at is_server keys op_code bs size 0 in
        let first_chunk : chunk ≡ take size bs = ap (λ (n : ℕ). take n bs) (omega arith) in
        rw split (
          ap (λ (o : Parser × ParseResult). o.1)
            (parse_start p (f ∷ rest) v
              ∙ (start is_server keys op_code bs max_frame_size keyed counted kind some_bytes p
                    (length (f ++ flatten rest)) false f (flatten rest) v (ground arith) framed
                  ∙ ap
                      (λ (r : FrameResult).
                        take_frame (parse_loop (length (f ++ flatten rest))) q [] r)
                      (refuse_text q (not is_server)
                        (key_sent is_server false op_code (keys 0) chunk) chunk (length f) op_code
                        text (ap utf8_valid first_chunk ∙ bad)))))
