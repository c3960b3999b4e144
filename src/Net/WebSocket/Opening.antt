-- ===== src/Net/WebSocket/Opening.antt =====
-- websocket.go and builder.go: the first frame of a message, alone and with others behind it.
use mathlib.Core.List.{flatten}
use live_chat_room.Prelude.{
  ℕ, suc, ◌-◌, ◌^◌, ◌≤◌, ◌<◌, ◌≡◌, ◌⊎◌, refl, ap, sym, ◌∙◌, Bool, true, false, not, List, [], ◌∷◌,
  ◌++◌, arith, if◌then◌else◌, ◌==◌, length, take, length-take, take_all,
}
use live_chat_room.Net.Utf8.{utf8_valid}
use live_chat_room.Net.WebSocket.{
  op_code_text, op_code_binary, Parser, Message, FrameResult, messages, accept_frame, take_frame,
  parse_loop, is_valid_op_code, is_control_frame,
}
use live_chat_room.Net.WebSocket.Builder.{ok}
use live_chat_room.Net.WebSocket.Frames.{key_sent, parse_loop-build, skip_frame}
use live_chat_room.Net.WebSocket.Stream.{parse_loop_short}
use live_chat_room.Net.WebSocket.Transfer.{Outgoing, IsSendable, received, accept_frame-whole}
use live_chat_room.Net.WebSocket.Fragments.{
  accept_first, length-chunk_at, rest_from, end_of, chunk_at, frame_at, IsSent, rest-Received,
}

-- The size of a chunk.
abbrev pub chunk_size : ℕ → ℕ
chunk_size max_frame_size = if max_frame_size == 0 then 32768 else max_frame_size

-- A parser of the other side, between two messages, with room for frames of `size` bytes and a message of `n`.
pub record IsReady (is_server : Bool) (size n : ℕ) (p : Parser) : Type 0 where
  pub other_side : p.is_server ≡ not is_server
  pub no_bytes : p.buffer ≡ []
  pub no_fragments : p.fragment_buffer ≡ []
  pub no_op_code : p.fragment_op_code ≡ 0
  pub frame_fits : size ≤ p.max_frame_size
  pub message_fits : n ≤ p.max_msg_size

data_op_code :
    (op_code : ℕ)
    → (op_code ≡ op_code_text) ⊎ (op_code ≡ op_code_binary)
    → (is_valid_op_code op_code ≡ true) × (is_control_frame op_code ≡ false)
unfolding is_valid_op_code is_control_frame
data_op_code op_code h = ground arith

module _ (is_server : Bool) (keys : ℕ → List ℕ) (op_code : ℕ) (bs : List ℕ)
    (max_frame_size : ℕ) where
  abbrev size : ℕ
  size = chunk_size max_frame_size

  module _ (keyed : (i : ℕ) → length (keys i) ≡ 4) (counted : size < 2 ^ 63)
      (kind : (op_code ≡ op_code_text) ⊎ (op_code ≡ op_code_binary))
      (some_bytes : 0 < length bs) where
    pub start :
        (p : Parser) (lf : ℕ) (fin : Bool) (f rest : List ℕ)
        → IsReady is_server size (length bs) p
        → (end_of is_server keys op_code bs size 0 == length bs) ≡ fin
        → frame_at is_server keys op_code bs size 0 ≡ ok f
        → parse_loop (suc lf) (record p { buffer = f ++ rest }) []
          ≡ take_frame
              (parse_loop lf)
              (record p { buffer = f ++ rest })
              []
              (accept_frame
                (record p { buffer = f ++ rest })
                op_code
                fin
                (not is_server)
                (key_sent is_server fin op_code
                  (keys 0)
                  (chunk_at is_server keys op_code bs size 0))
                (chunk_at is_server keys op_code bs size 0)
                (length f))
    start p lf fin f rest v e hf =
        let l = length-chunk_at is_server keys op_code bs size 0 in
        parse_loop-build (record p { buffer = f ++ rest }) is_server fin op_code (keys 0)
          (chunk_at is_server keys op_code bs size 0) rest [] lf v.other_side (keyed 0)
          (omega (arith, l, v.frame_fits)) (omega (arith, l)) (rw (sym e) hf) refl

    pub single :
        (p : Parser) (f : List ℕ) (lf : ℕ)
        → IsReady is_server size (length bs) p
        → (op_code ≡ op_code_text → utf8_valid bs ≡ true)
        → (end_of is_server keys op_code bs size 0 == length bs) ≡ true
        → frame_at is_server keys op_code bs size 0 ≡ ok f
        → (m : Message) × IsSent is_server keys op_code bs size m
          × (parse_loop (suc (suc lf)) (record p { buffer = f ++ [] }) []
              ≡ (record p { buffer = [] }, messages (m ∷ [])))
    unfolding take_frame received
    single p f lf v valid e hf =
        let whole : chunk_at is_server keys op_code bs size 0 ≡ bs =
          take_all (end_of is_server keys op_code bs size 0 - 0) bs (ground arith) in
        let out : Outgoing = record { op_code = op_code; payload = bs; mask_key = keys 0 } in
        let q = record p { buffer = f ++ [] } in
        let sendable : IsSendable p.max_frame_size out = record {
          whole = ground (arith, kind);
          keyed = keyed 0;
          fits = omega (
            arith,
            ap length whole,
            length-chunk_at is_server keys op_code bs size 0,
            v.frame_fits,
          );
          counted =
              omega (arith, ap length whole, length-chunk_at is_server keys op_code bs size 0);
          is_text = valid;
        } in
        let m = received is_server out in
        let accepted =
          accept_frame-whole q is_server out (length f) sendable (data_op_code op_code kind).0
            (rw (data_op_code op_code kind).1 refl) in
        (
          m,
          record { same_op_code = refl; same_payload = refl; is_final = refl },
          start p (suc lf) true f [] v e hf
              ∙ (ap
                    (λ (c : List ℕ). take_frame (parse_loop (suc lf)) q [] (
                      accept_frame q op_code true (not is_server)
                        (key_sent is_server true op_code (keys 0) c) c (length f)))
                    whole
                  ∙ (ap (λ (r : FrameResult). take_frame (parse_loop (suc lf)) q [] r) accepted
                      ∙ (ap (λ (p : Parser). parse_loop (suc lf) p (m ∷ []))
                            (skip_frame q f [] refl)
                          ∙ parse_loop_short (record p { buffer = [] }) lf (m ∷ []) refl))),
        )

    pub several :
        (p : Parser) (f : List ℕ) (rest : List (List ℕ)) (lf : ℕ)
        → IsReady is_server size (length bs) p
        → (op_code ≡ op_code_text → (utf8_valid bs ≡ true) × (utf8_valid (take size bs) ≡ true))
        → (end_of is_server keys op_code bs size 0 == length bs) ≡ false
        → 0 < size
        → frame_at is_server keys op_code bs size 0 ≡ ok f
        → rest_from is_server keys op_code bs size (length bs - 1) size ≡ ok rest
        → length (flatten rest) < lf
        → (m : Message) × IsSent is_server keys op_code bs size m
          × (parse_loop (suc lf) (record p { buffer = f ++ flatten rest }) [] ≡ (
            record p { buffer = []; fragment_buffer = []; fragment_op_code = 0 },
            messages (m ∷ []),
          ))
    unfolding take_frame
    several p f rest lf v valid e pos hf hr hl =
        let first_chunk : chunk_at is_server keys op_code bs size 0 ≡ take size bs =
          ap (λ (n : ℕ). take n bs) (ground arith) in
        let q = record p { buffer = f ++ flatten rest } in
        let key = key_sent is_server false op_code (keys 0) (take size bs) in
        let q' = record q { fragment_op_code = op_code; fragment_buffer = take size bs } in
        let accepted =
          accept_first q (not is_server) key (take size bs) (length f) op_code kind
            (λ t. (valid t).1) v.no_fragments
            (omega (arith, length-take size bs, v.message_fits)) in
        let (m, sent, parsed) =
          rest-Received is_server keys op_code bs size keyed pos counted (λ t. (valid t).0)
            (length bs - 1) size lf (record q' { buffer = flatten rest }) [] pos (ground arith)
            (omega arith)
            (record {
              other_side = v.other_side;
              frame_fits = v.frame_fits;
              message_fits = v.message_fits;
              started = refl;
              so_far = refl;
            })
            hr refl hl in
        (
          m,
          sent,
          start p lf false f (flatten rest) v e hf
              ∙ (ap
                    (λ (c : List ℕ). take_frame (parse_loop lf) q [] (
                      accept_frame q op_code false (not is_server)
                        (key_sent is_server false op_code (keys 0) c) c (length f)))
                    first_chunk
                  ∙ (ap (λ (r : FrameResult). take_frame (parse_loop lf) q [] r) accepted
                      ∙ (ap (λ (p : Parser). parse_loop lf p [])
                            (skip_frame q' f (flatten rest) refl)
                          ∙ parsed))),
        )
