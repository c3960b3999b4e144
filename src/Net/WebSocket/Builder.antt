-- ===== src/Net/WebSocket/Builder.antt =====
-- util/net/protocol/websocket/builder.go: the frames that are sent.
use live_chat_room.Prelude.{
  ℕ, zero, suc, ◌+◌, ◌-◌, min, Bool, true, not, ◌&&◌, ◌||◌, List, [], ◌∷◌, ◌++◌, if◌then◌else◌, ltb,
  leb, ◌==◌, length, sub, be_bytes, ◌≡◌, refl,
}
use live_chat_room.Net.WebSocket.{
  op_code_continuation, op_code_text, op_code_binary, op_code_close, op_code_ping, op_code_pong,
  is_valid_op_code, is_control_frame, apply_mask, Message,
}

pub data BuildError : Type 0 where
  bad_op_code control_payload_too_large op_code_not_fragmentable not_supported : BuildError

pub data Result {ℓ} (A : Type ℓ) : Type ℓ where
  err : BuildError → Result A
  ok : A → Result A

-- What is made of two results, or the first error.
abbrev pub both {ℓ κ ι} :
    {A : Type ℓ} {B : Type κ} {C : Type ι} → (A → B → C) → Result A → Result B → Result C
both f (err e) r = err e
both f (ok a) (err e) = err e
both f (ok a) (ok b) = ok (f a b)

pub both_ok {ℓ κ ι} :
    {A : Type ℓ} {B : Type κ} {C : Type ι} (f : A → B → C) (m : Result A) (r : Result B) {c : C}
    → both f m r ≡ ok c
    → (a : A) × (b : B) × (m ≡ ok a) × (r ≡ ok b) × (both f (ok a) (ok b) ≡ ok c)
both_ok f (err e) r h = cc
both_ok f (ok a) (err e) h = cc
both_ok f (ok a) (ok b) h = (a, b, refl, refl, h)

-- The length, as the low bits of the second byte and as the bytes that follow it.
unfoldable pub length_code : ℕ → ℕ
length_code payload_len =
    if leb 65536 payload_len then 127 else if leb 126 payload_len then 126 else payload_len

unfoldable pub extended_length : ℕ → List ℕ
extended_length payload_len =
    if leb 65536 payload_len
    then be_bytes 8 payload_len
    else if leb 126 payload_len
    then be_bytes 2 payload_len
    else []

-- `buildFrame`; `mask_key` is what `generateMaskKey` returns, which a server does not call.
unfoldable pub build_frame : Bool → List ℕ → ℕ → List ℕ → Bool → Result (List ℕ)
build_frame is_server mask_key op_code payload fin =
    let first = if fin then op_code + 0x80 else op_code in
    let second = (if is_server then 0 else 0x80) + length_code (length payload) in
    let key = if is_server then [] else mask_key in
    let body = if is_server then payload else apply_mask mask_key 0 payload in
    if not (is_valid_op_code op_code)
    then err bad_op_code
    else if is_control_frame op_code && ltb 125 (length payload)
    then err control_payload_too_large
    else ok (first ∷ second ∷ (extended_length (length payload) ++ (key ++ body)))

module _ (is_server : Bool) (mask_key : List ℕ) where
  -- `BuildMessage`, on a WebSocket message.
  unfoldable pub build_message : Message → Result (List ℕ)
  build_message m = build_frame is_server mask_key m.op_code m.payload m.final

  unfoldable pub build_text_frame : List ℕ → Result (List ℕ)
  build_text_frame bs = build_frame is_server mask_key op_code_text bs true

  unfoldable pub build_binary_frame : List ℕ → Result (List ℕ)
  build_binary_frame bs = build_frame is_server mask_key op_code_binary bs true

  -- The code is a uint16.
  unfoldable pub build_close_frame : ℕ → List ℕ → Result (List ℕ)
  build_close_frame code reason =
      build_frame is_server mask_key op_code_close (be_bytes 2 code ++ reason) true

  unfoldable pub build_ping_frame : List ℕ → Result (List ℕ)
  build_ping_frame bs =
      if ltb 125 (length bs)
      then err control_payload_too_large
      else build_frame is_server mask_key op_code_ping bs true

  unfoldable pub build_pong_frame : List ℕ → Result (List ℕ)
  build_pong_frame bs =
      if ltb 125 (length bs)
      then err control_payload_too_large
      else build_frame is_server mask_key op_code_pong bs true

  unfoldable pub build_error : ℕ → List ℕ → Result (List ℕ)
  unfolding build_close_frame
  build_error status_code message =
      build_close_frame
        (if status_code == 400 then 1002 else if status_code == 413 then 1009 else 1011) message

-- The loop of `BuildFragmentedFrames` from the index `i` on; `keys i` is the key drawn there.
unfoldable pub fragments_from :
    Bool → (ℕ → List ℕ) → ℕ → List ℕ → ℕ → ℕ → ℕ → Result (List (List ℕ))
fragments_from is_server keys op_code bs max_frame_size zero i = ok []
fragments_from is_server keys op_code bs max_frame_size (suc fuel) i =
    let end = min (i + max_frame_size) (length bs) in
    let frame_op_code = if i == 0 then op_code else op_code_continuation in
    let frame =
      build_frame is_server (keys i) frame_op_code (sub i (end - i) bs) (end == length bs) in
    let rest = fragments_from is_server keys op_code bs max_frame_size fuel (i + max_frame_size) in
    if not (ltb i (length bs)) then ok [] else both (λ f fs. f ∷ fs) frame rest

-- `BuildFragmentedFrames`; a size that is not positive stands for 32768. There is a turn for each
-- byte at most.
unfoldable pub build_fragmented_frames :
    Bool → (ℕ → List ℕ) → ℕ → List ℕ → ℕ → Result (List (List ℕ))
build_fragmented_frames is_server keys op_code bs max_frame_size =
    let size = if max_frame_size == 0 then 32768 else max_frame_size in
    if not (is_valid_op_code op_code) || is_control_frame op_code
    then err op_code_not_fragmentable
    else fragments_from is_server keys op_code bs size (length bs) 0
