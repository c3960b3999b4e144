-- ===== src/Net/WebSocket/Loop.antt =====
-- websocket.go: the loop of `Parse` ends, and reads a stream however it is cut into pieces.
use live_chat_room.Prelude.{
  ℕ, ◌+◌, ◌≤◌, ◌≡◌, refl, Bool, true, false, List, ◌++◌, arith, length, length-append, sub-append,
  get_or-append,
}
use live_chat_room.Net.WebSocket.{
  Parser, FrameResult, failed, need_more, fragment, complete, validate_frame, handle_fragmentation,
  accept_frame, read_payload, read_header, parse_frame,
}

-- A frame that was read took at least its two header bytes, and no more than the buffer holds.
abbrev pub Consumes : Parser → FrameResult → Type 0
Consumes p (failed p' e) = p'.buffer ≡ p.buffer
Consumes p need_more = Unit
Consumes p (fragment p' n) = (2 ≤ n) × (n ≤ length p.buffer) × (p'.buffer ≡ p.buffer)
Consumes p (complete p' m n) = (2 ≤ n) × (n ≤ length p.buffer) × (p'.buffer ≡ p.buffer)

module _ (p : Parser) (op_code : ℕ) (fin masked : Bool) where
  accept_frame-Consumes :
      (mask_key payload : List ℕ) (n : ℕ)
      → 2 ≤ n
      → n ≤ length p.buffer
      → Consumes p (accept_frame p op_code fin masked mask_key payload n)
  unfolding accept_frame validate_frame handle_fragmentation
  accept_frame-Consumes mask_key payload n h k = ground arith

  read_payload-Consumes :
      (payload_len header_len : ℕ)
      → 2 ≤ header_len
      → Consumes p (read_payload p op_code fin masked payload_len header_len)
  unfolding read_payload
  read_payload-Consumes payload_len header_len h = grind (arith, accept_frame-Consumes)

pub parse_frame-Consumes : (p : Parser) → Consumes p (parse_frame p)
unfolding parse_frame read_header
parse_frame-Consumes p = grind (arith, read_payload-Consumes)

-- The same parser, with more bytes behind those that it holds.
abbrev pub more : List ℕ → Parser → Parser
more ys p = record p { buffer = p.buffer ++ ys }

abbrev pub more_result : List ℕ → FrameResult → FrameResult
more_result ys (failed p e) = failed (more ys p) e
more_result ys need_more = need_more
more_result ys (fragment p n) = fragment (more ys p) n
more_result ys (complete p m n) = complete (more ys p) m n

accept_frame-more :
    (ys : List ℕ) (p : Parser) (op_code : ℕ) (fin masked : Bool) (mask_key payload : List ℕ) (n : ℕ)
    → accept_frame (more ys p) op_code fin masked mask_key payload n
      ≡ more_result ys (accept_frame p op_code fin masked mask_key payload n)
unfolding accept_frame validate_frame handle_fragmentation
accept_frame-more ys p op_code fin masked mask_key payload n = ground arith

-- What a longer buffer gives: the same, unless more bytes were needed.
abbrev pub Extends : List ℕ → FrameResult → FrameResult → Type 0
Extends ys need_more r = Unit
Extends ys (failed p e) r = r ≡ failed (more ys p) e
Extends ys (fragment p n) r = r ≡ fragment (more ys p) n
Extends ys (complete p m n) r = r ≡ complete (more ys p) m n

Extends-more_result : (ys : List ℕ) (r : FrameResult) → Extends ys r (more_result ys r)
Extends-more_result ys (failed p e) = refl
Extends-more_result ys need_more = tt
Extends-more_result ys (fragment p n) = refl
Extends-more_result ys (complete p m n) = refl

module _ (ys : List ℕ) (p : Parser) where
  accept_frame-Extends :
      (op_code : ℕ) (fin masked : Bool) (mask_key payload : List ℕ) (n : ℕ)
      → Extends ys
          (accept_frame p op_code fin masked mask_key payload n)
          (accept_frame (more ys p) op_code fin masked mask_key payload n)
  accept_frame-Extends op_code fin masked mask_key payload n =
      rw (accept_frame-more ys p op_code fin masked mask_key payload n)
        (Extends-more_result ys (accept_frame p op_code fin masked mask_key payload n))

  read_payload-Extends :
      (op_code : ℕ) (fin masked : Bool) (payload_len header_len : ℕ)
      → Extends ys
          (read_payload p op_code fin masked payload_len header_len)
          (read_payload (more ys p) op_code fin masked payload_len header_len)
  unfolding read_payload
  read_payload-Extends op_code fin true payload_len header_len = grind (
    arith,
    accept_frame-Extends,
    length-append p.buffer ys,
    sub-append header_len 4 p.buffer ys,
    sub-append (header_len + 4) payload_len p.buffer ys,
  )
  read_payload-Extends op_code fin false payload_len header_len = grind (
    arith,
    accept_frame-Extends,
    length-append p.buffer ys,
    sub-append header_len 0 p.buffer ys,
    sub-append (header_len + 0) payload_len p.buffer ys,
  )

  read_header-Extends :
      (first second : ℕ)
      → Extends ys (read_header p first second) (read_header (more ys p) first second)
  unfolding read_header
  read_header-Extends first second = grind (
    arith,
    read_payload-Extends,
    length-append p.buffer ys,
    sub-append 2 2 p.buffer ys,
    sub-append 2 8 p.buffer ys,
  )

  pub parse_frame-Extends : Extends ys (parse_frame p) (parse_frame (more ys p))
  unfolding parse_frame
  parse_frame-Extends = grind (
    arith,
    read_header-Extends,
    length-append p.buffer ys,
    get_or-append 0 0 p.buffer ys,
    get_or-append 1 0 p.buffer ys,
  )
