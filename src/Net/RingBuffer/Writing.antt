-- ===== src/Net/RingBuffer/Writing.antt =====
-- util/net/base/buffer/ring_buffer.go: one turn of `writeFromSlice`, in each of its branches.
use live_chat_room.Prelude.{
  ℕ, ◌+◌, ◌-◌, ◌≤◌, ◌<◌, min, ◌≡◌, refl, ◌⊎◌, true, false, List, ltb, leb, ◌==◌, ◌&&◌, ◌||◌,
  if◌then◌else◌, length, sub, copy_at, arith, take_all,
}
use live_chat_room.Net.RingBuffer.{RingBuffer, write_step}

-- The room that a write finds without growing: an empty buffer, or the place behind `tail` up to the
-- end of the buffer, or up to `head`.
abbrev pub HasRoom : RingBuffer → ℕ → Type 0
HasRoom rb n =
    (rb.size + n ≤ length rb.buf)
    × (((rb.size ≡ 0) × (rb.head ≡ rb.tail))
        ⊎ (((0 < rb.size) × (rb.head + rb.size ≡ rb.tail) × (rb.tail + n ≤ length rb.buf))
            ⊎ ((rb.tail ≤ rb.head)
                × (rb.head < length rb.buf)
                × (rb.head + rb.size ≡ length rb.buf + rb.tail))))

module _ (rb : RingBuffer) (bytes : List ℕ) (pos : 0 < length bytes)
    (fits : rb.size + length bytes ≤ length rb.buf) where
  -- The buffer after a write in one piece, which ends at `tail`
  abbrev pub one_piece : ℕ → RingBuffer
  one_piece tail = record rb { buf = copy_at rb.tail rb.buf bytes; tail = tail }

  whole : sub 0 (length bytes) bytes ≡ bytes
  whole = take_all (length bytes) bytes (omega arith)

  pub behind_step :
      0 < rb.size
      → rb.head ≤ rb.tail
      → rb.tail + length bytes ≤ length rb.buf
      → write_step bytes 0 rb ≡ (length bytes, one_piece (rb.tail + length bytes))
  unfolding write_step
  behind_step s h r =
      let e1 : min (length bytes - 0) (length rb.buf - rb.size) ≡ length bytes = omega arith in
      let e2 : ltb rb.tail rb.head ≡ false = ground arith in
      let e3 : (rb.size == 0) ≡ false = ground arith in
      let e4 : leb rb.head rb.tail ≡ true = ground arith in
      let e5 : min (length rb.buf - rb.tail) (length bytes) ≡ length bytes = omega arith in
      let e6 : 0 + length bytes ≡ length bytes = omega arith in
      rw (e1, e2, e3, e4, e5, e6, whole) refl

  pub one_step :
      (ltb rb.tail rb.head || (leb rb.head rb.tail && (rb.size == 0))) ≡ true
      → rb.tail + length bytes ≤ length rb.buf
      → write_step bytes 0 rb ≡ (
        length bytes,
        one_piece (if rb.tail + length bytes == length rb.buf then 0 else rb.tail + length bytes),
      )
  unfolding write_step
  one_step t r =
      let e1 : min (length bytes - 0) (length rb.buf - rb.size) ≡ length bytes = omega arith in
      let e5 : min (length rb.buf - rb.tail) (length bytes) ≡ length bytes = omega arith in
      let e4 : leb (length bytes) (length rb.buf - rb.tail) ≡ true = ground arith in
      let e6 : 0 + length bytes ≡ length bytes = omega arith in rw (e1, t, e5, e4, e6, whole) refl

  abbrev end_space : ℕ
  end_space = length rb.buf - rb.tail

  -- The buffer after a write that goes round the end
  abbrev pub two_pieces : RingBuffer
  two_pieces = record rb {
    buf =
        copy_at 0 (copy_at rb.tail rb.buf (sub 0 end_space bytes))
          (sub end_space (length bytes - end_space) bytes);
    tail = length bytes - end_space;
  }

  pub round_step :
      rb.size ≡ 0
      → rb.head ≡ rb.tail
      → rb.tail ≤ length rb.buf
      → length rb.buf < rb.tail + length bytes
      → write_step bytes 0 rb ≡ (length bytes, two_pieces)
  unfolding write_step
  round_step z h low over =
      let e1 : min (length bytes - 0) (length rb.buf - rb.size) ≡ length bytes = omega arith in
      let t : (ltb rb.tail rb.head || (leb rb.head rb.tail && (rb.size == 0))) ≡ true =
        ground arith in
      let e4 : leb (length bytes) end_space ≡ false = ground arith in
      let e5 : ltb 0 (length bytes - end_space) ≡ true = ground arith in
      let e6 : ltb 0 rb.head ≡ true = ground arith in
      let e7 : min rb.head (length bytes - end_space) ≡ length bytes - end_space = omega arith in
      let e8 : 0 + end_space ≡ end_space = omega arith in
      let e9 : end_space + (length bytes - end_space) ≡ length bytes = omega arith in
      rw (e1, t, e4, e5, e6, e7, e8, e9) refl
