-- ===== src/Net/WebSocket/Header.antt =====
-- websocket.go and builder.go: the bytes of a built frame, and the parser reading them.
use live_chat_room.Prelude.{
  ℕ, suc, ◌+◌, ◌%◌, ◌^◌, ◌≤◌, ◌<◌, ◌≡◌, refl, ap, sym, ◌∙◌, Bool, true, false, not, List, [], ◌∷◌,
  ◌++◌, append_assoc, arith, if◌then◌else◌, if-true, if-false, Bool-cases, inl, inr, leb, length,
  get_or, sub, be_value, be_bytes, length-append, sub_middle, bit_xor_twice,
}
use live_chat_room.Net.WebSocket.{
  Parser, FrameResult, is_valid_op_code, apply_mask, accept_frame, read_payload, read_header,
}
use live_chat_room.Net.WebSocket.Builder.{length_code, extended_length}

pub length-apply_mask :
    (key : List ℕ) (i : ℕ) (bs : List ℕ) → length (apply_mask key i bs) ≡ length bs
unfolding apply_mask
length-apply_mask key i [] = refl
length-apply_mask key i (b ∷ bs) = ap suc (length-apply_mask key (suc i) bs)

-- Unmasking undoes masking.
pub apply_mask_twice :
    (key : List ℕ) (i : ℕ) (bs : List ℕ) → apply_mask key i (apply_mask key i bs) ≡ bs
unfolding apply_mask
apply_mask_twice key i [] = refl
apply_mask_twice key i (b ∷ bs) =
    rw (bit_xor_twice b (get_or key (i % 4) 0), apply_mask_twice key (suc i) bs) refl

pub valid_op_code-lt : (op_code : ℕ) → is_valid_op_code op_code ≡ true → op_code < 16
unfolding is_valid_op_code
valid_op_code-lt op_code h = ground arith

module _ (p : Parser) (op_code : ℕ) (fin masked : Bool) (head key body rest : List ℕ) where
  -- A payload whose header has been read, with the bytes of the header, the key and the payload in the buffer.
  read_payload_lem :
      length key ≡ (if masked then 4 else 0)
      → length body ≤ p.max_frame_size
      → p.buffer ≡ head ++ (key ++ (body ++ rest))
      → read_payload p op_code fin masked (length body) (length head)
        ≡ accept_frame p op_code fin masked key
            (if masked then apply_mask key 0 body else body)
            (length head + length key + length body)
  unfolding read_payload
  read_payload_lem hk hm hb =
      let size : length p.buffer ≡ length head + (length key + (length body + length rest)) =
        ap length hb
        ∙ omega (
          arith,
          length-append head (key ++ (body ++ rest)),
          length-append key (body ++ rest),
          length-append body rest,
        ) in
      let got_key : sub (length head) (if masked then 4 else 0) p.buffer ≡ key =
        ap (λ (b : List ℕ). sub (length head) (if masked then 4 else 0) b) hb
        ∙ sub_middle (length head) (if masked then 4 else 0) head key (body ++ rest) refl hk in
      let got_body : sub (length head + (if masked then 4 else 0)) (length body) p.buffer ≡ body =
        ap (λ (b : List ℕ). sub (length head + (if masked then 4 else 0)) (length body) b)
          (hb ∙ sym (append_assoc head key (body ++ rest)))
        ∙ sub_middle (length head + (if masked then 4 else 0)) (length body) (head ++ key) body rest
            (length-append head key ∙ ap (λ (n : ℕ). length head + n) hk) refl in
      ground arith

be_value-be_bytes-two : (n : ℕ) → n < 65536 → be_value (be_bytes 2 n) ≡ n
be_value-be_bytes-two n h = omega arith

be_value-be_bytes-eight : (n : ℕ) → n < 2 ^ 63 → be_value (be_bytes 8 n) ≡ n
be_value-be_bytes-eight n h = omega arith

module _ (n : ℕ) where
  module _ (large : leb 65536 n ≡ true) where
    length_code-large : length_code n ≡ 127
    unfolding length_code
    length_code-large = if-true _ _ large

    extended_length-large : extended_length n ≡ be_bytes 8 n
    unfolding extended_length
    extended_length-large = if-true _ _ large

  module _ (below : leb 65536 n ≡ false) (medium : leb 126 n ≡ true) where
    length_code-medium : length_code n ≡ 126
    unfolding length_code
    length_code-medium = if-false _ _ below ∙ if-true _ _ medium

    extended_length-medium : extended_length n ≡ be_bytes 2 n
    unfolding extended_length
    extended_length-medium = if-false _ _ below ∙ if-true _ _ medium

  module _ (below : leb 65536 n ≡ false) (small : leb 126 n ≡ false) where
    length_code-small : length_code n ≡ n
    unfolding length_code
    length_code-small = if-false _ _ below ∙ if-false _ _ small

    extended_length-small : extended_length n ≡ []
    unfolding extended_length
    extended_length-small = if-false _ _ below ∙ if-false _ _ small

-- `read_header` on each form of the length.
module _ (p : Parser) (first second op_code : ℕ) (fin masked : Bool) where
  module _ (hf : leb 0x80 first ≡ fin) (ho : first % 16 ≡ op_code) (hm : leb 0x80 second ≡ masked)
      (hs : p.is_server ≡ masked) where
    read_header_small :
        second % 128 < 126
        → read_header p first second ≡ read_payload p op_code fin masked (second % 128) 2
    unfolding read_header
    read_header_small h = ground arith

    read_header_medium :
        second % 128 ≡ 126
        → 4 ≤ length p.buffer
        → read_header p first second
          ≡ read_payload p op_code fin masked (be_value (sub 2 2 p.buffer)) 4
    unfolding read_header
    read_header_medium h k = ground arith

    read_header_large :
        second % 128 ≡ 127
        → 10 ≤ length p.buffer
        → be_value (sub 2 8 p.buffer) < 2 ^ 63
        → read_header p first second
          ≡ read_payload p op_code fin masked (be_value (sub 2 8 p.buffer)) 10
    unfolding read_header
    read_header_large h k l = ground arith

module _ (is_server fin : Bool) (op_code payload_len : ℕ) where
  abbrev pub first : ℕ
  first = if fin then op_code + 0x80 else op_code

  abbrev pub second : ℕ
  second = (if is_server then 0 else 0x80) + length_code payload_len

  abbrev pub header : List ℕ
  header = first ∷ second ∷ extended_length payload_len

  first_lem : op_code < 16 → (leb 0x80 first ≡ fin) × (first % 16 ≡ op_code)
  first_lem h = ground arith

  second_lem : (leb 0x80 second ≡ not is_server) × (second % 128 ≡ length_code payload_len)
  unfolding length_code
  second_lem = ground arith

-- The header, read back: the length that the second byte and the bytes after it hold.
module _ (p : Parser) (is_server fin : Bool) (op_code : ℕ) (key body rest : List ℕ) where
  abbrev byte1 : ℕ
  byte1 = first is_server fin op_code (length body)

  abbrev byte2 : ℕ
  byte2 = second is_server fin op_code (length body)

  abbrev head : List ℕ
  head = header is_server fin op_code (length body)

  abbrev pub accepted : FrameResult
  accepted =
      accept_frame p op_code fin (not is_server) key
        (if not is_server then apply_mask key 0 body else body)
        (length head + length key + length body)

  module _ (ho : op_code < 16) (hs : p.is_server ≡ not is_server)
      (hk : length key ≡ (if is_server then 0 else 4)) (hm : length body ≤ p.max_frame_size)
      (hl : length body < 2 ^ 63) (hb : p.buffer ≡ head ++ (key ++ (body ++ rest))) where
    payload_accepted :
        (header_len : ℕ)
        → length head ≡ header_len
        → read_payload p op_code fin (not is_server) (length body) header_len ≡ accepted
    payload_accepted n e =
        ap (λ (n : ℕ). read_payload p op_code fin (not is_server) (length body) n) (sym e)
        ∙ (read_payload_lem p op_code fin (not is_server) head key body rest (ground arith) hm hb)

    -- With `ext` for the bytes of the length.
    buffer_with :
        (ext : List ℕ)
        → extended_length (length body) ≡ ext
        → p.buffer ≡ byte1 ∷ byte2 ∷ (ext ++ (key ++ (body ++ rest)))
    buffer_with ext e = hb ∙ ap (λ (l : List ℕ). byte1 ∷ byte2 ∷ (l ++ (key ++ (body ++ rest)))) e

    -- `len` is what the header says, `n` its size.
    accepted_as :
        (len n : ℕ)
        → len ≡ length body
        → length head ≡ n
        → read_header p byte1 byte2 ≡ read_payload p op_code fin (not is_server) len n
        → read_header p byte1 byte2 ≡ accepted
    accepted_as len n e k h =
        h
        ∙ (ap (λ (l : ℕ). read_payload p op_code fin (not is_server) l n) e ∙ payload_accepted n k)

    code : (c : ℕ) → length_code (length body) ≡ c → byte2 % 128 ≡ c
    code c e = (second_lem is_server fin op_code (length body)).1 ∙ e

    pub read_header_lem : read_header p byte1 byte2 ≡ accepted
    read_header_lem =
        let f = first_lem is_server fin op_code (length body) ho in
        let s = second_lem is_server fin op_code (length body) in
        elim (Bool-cases (leb 65536 (length body))) [
          | inl large ↦
              let b =
                buffer_with (be_bytes 8 (length body))
                  (extended_length-large (length body) large) in
              let e : be_value (sub 2 8 p.buffer) ≡ length body =
                ap (λ (l : List ℕ). be_value (sub 2 8 l)) b
                ∙ be_value-be_bytes-eight (length body) hl in
              accepted_as (be_value (sub 2 8 p.buffer)) 10 e
                (ap (λ (l : List ℕ). suc (suc (length l)))
                  (extended_length-large (length body) large))
                (read_header_large p byte1 byte2 op_code fin (not is_server) f.0 f.1 s.0 hs
                  (code 127 (length_code-large (length body) large)) (omega (arith, ap length b))
                  (omega (arith, e)))
          | inr below ↦ elim (Bool-cases (leb 126 (length body))) [
            | inl medium ↦
                let b =
                  buffer_with (be_bytes 2 (length body))
                    (extended_length-medium (length body) below medium) in
                let e : be_value (sub 2 2 p.buffer) ≡ length body =
                  ap (λ (l : List ℕ). be_value (sub 2 2 l)) b
                  ∙ be_value-be_bytes-two (length body) (ground arith) in
                accepted_as (be_value (sub 2 2 p.buffer)) 4 e
                  (ap (λ (l : List ℕ). suc (suc (length l)))
                    (extended_length-medium (length body) below medium))
                  (read_header_medium p byte1 byte2 op_code fin (not is_server) f.0 f.1 s.0 hs
                    (code 126 (length_code-medium (length body) below medium))
                    (omega (arith, ap length b)))
            | inr small ↦
                let c = code (length body) (length_code-small (length body) below small) in
                accepted_as (byte2 % 128) 2 c
                  (ap (λ (l : List ℕ). suc (suc (length l)))
                    (extended_length-small (length body) below small))
                  (read_header_small p byte1 byte2 op_code fin (not is_server) f.0 f.1 s.0 hs
                    (ground (arith, c)))
          ]
        ]
