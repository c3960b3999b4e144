-- ===== src/Net/RingBuffer/Stuck.antt =====
-- util/net/base/buffer/ring_buffer.go: where `tail` or `head` stands at the end of the buffer.
use live_chat_room.Prelude.{
  ℕ, zero, suc, ◌+◌, ◌-◌, ◌≤◌, ◌<◌, min, ◌≡◌, refl, ◌∙◌, true, false, not, none, some, List, [],
  ltb, leb, ◌==◌, ◌&&◌, ◌||◌, length, drop, replicate, sub, length-copy_at, drop_all, arith,
}
use live_chat_room.Net.RingBuffer.{
  RingBuffer, write_step, write_from_slice, count_written, write, read_to_slice, read_all,
}
use live_chat_room.Net.RingBuffer.Ring.{copy_at-nil}
use live_chat_room.Net.RingBuffer.Writing.{one_piece, one_step}
use live_chat_room.Net.RingBuffer.Appending.{one_turn}

-- Bytes are held from `head` on, and more are left to write than fit between `tail` and the end.
abbrev IsStuck : List ℕ → ℕ → RingBuffer → Type 0
IsStuck src written rb =
    (0 < rb.size)
    × (rb.size + length src ≤ length rb.buf)
    × (rb.head ≤ rb.tail)
    × (rb.tail ≤ length rb.buf)
    × (length rb.buf + written < rb.tail + length src)

write_step-IsStuck :
    (src : List ℕ) (written : ℕ) (rb : RingBuffer)
    → IsStuck src written rb
    → IsStuck src (write_step src written rb).0 (write_step src written rb).1
unfolding write_step
write_step-IsStuck src written rb (s, fits, h, low, over) =
    let e1 : ltb rb.tail rb.head ≡ false = ground arith in
    let e2 : leb rb.head rb.tail ≡ true = ground arith in
    let e3 : (rb.size == 0) ≡ false = ground arith in
    let l =
      length-copy_at rb.tail rb.buf
        (sub written (min (length src - written) (length rb.buf - rb.size)) src) in
    rw (e1, e2, e3) (omega arith, omega arith, omega arith, omega arith, omega arith)

stuck :
    (fuel : ℕ) (src : List ℕ) (written : ℕ) (rb : RingBuffer)
    → IsStuck src written rb
    → write_from_slice fuel src written rb ≡ none
unfolding write_from_slice
stuck zero src written rb h = refl
stuck (suc fuel) src written rb h =
    let (s, fits, a, low, over) = h in
    let e : (not (ltb written (length src)) || (length rb.buf - rb.size == 0)) ≡ false =
      ground arith in
    let next = write_step src written rb in
    rw e (stuck fuel src next.0 next.1 (write_step-IsStuck src written rb h))

-- A write never ends, on any fuel, when bytes are held from `head` to `tail`, there is room for the
-- new ones in all, but not between `tail` and the end of the buffer.
pub write_hangs :
    (rb : RingBuffer) (bytes : List ℕ)
    → 0 < rb.size
    → rb.head + rb.size ≡ rb.tail
    → rb.tail ≤ length rb.buf
    → rb.size + length bytes ≤ length rb.buf
    → length rb.buf < rb.tail + length bytes
    → (fuel : ℕ) → write fuel bytes rb ≡ none
unfolding write count_written
write_hangs rb bytes s e low fits over fuel =
    let e1 : ltb (length rb.buf) (rb.size + length bytes) ≡ false = ground arith in
    let e2 : (length bytes == 0) ≡ false = ground arith in
    let h = stuck fuel bytes 0 rb (s, fits, omega arith, low, omega arith) in rw (e2, e1, h) refl

-- With `head` at the end and `tail` at the beginning, the reader copies nothing.
read_nothing :
    (rb : RingBuffer)
    → 0 < rb.size
    → rb.head ≡ length rb.buf
    → rb.tail ≡ 0
    → (read_all rb).0 ≡ replicate rb.size 0
unfolding read_all read_to_slice
read_nothing rb s h t =
    let dst = replicate {A = ℕ} rb.size 0 in
    let e1 : (rb.size == 0) ≡ false = ground arith in
    let e2 : ltb rb.head rb.tail ≡ false = ground arith in
    let e3 : drop rb.head rb.buf ≡ [] = drop_all rb.head rb.buf (omega arith) in
    let e4 : min (length dst) 0 ≡ 0 = omega arith in
    let e5 : leb (min rb.size rb.size) (length rb.buf - rb.head) ≡ false = ground arith in
    let e6 : ltb 0 rb.tail ≡ false = ground arith in
    let e7 : ltb 0 (min rb.size rb.size - 0) ≡ true = ground arith in
    rw (e1, e2, e3, e4, e5, e6, e7, copy_at-nil dst) refl

-- When `head` stands at the end of a valid buffer and a write fills it up to there, the write is
-- complete, but `ReadAll` then gives zeros in the place of all the bytes held and written.
pub read_all_loses :
    (rb : RingBuffer) (bytes : List ℕ) (fuel : ℕ)
    → rb.head ≡ length rb.buf
    → rb.size ≡ rb.tail
    → 0 < length bytes
    → rb.tail + length bytes ≡ length rb.buf
    → (rb' : RingBuffer) × (write (suc (suc fuel)) bytes rb ≡ some (length bytes, rb'))
      × (rb'.size ≡ rb.size + length bytes)
      × ((read_all rb').0 ≡ replicate (rb.size + length bytes) 0)
unfolding write count_written
read_all_loses rb bytes fuel h z pos full =
    let fits : rb.size + length bytes ≤ length rb.buf = omega arith in
    let e1 : ltb (length rb.buf) (rb.size + length bytes) ≡ false = ground arith in
    let e2 : (length bytes == 0) ≡ false = ground arith in
    let e3 : (rb.tail + length bytes == length rb.buf) ≡ true = ground arith in
    let t : (ltb rb.tail rb.head || (leb rb.head rb.tail && (rb.size == 0))) ≡ true =
      ground arith in
    let st : write_step bytes 0 rb ≡ (length bytes, one_piece rb bytes pos fits 0) =
      one_step rb bytes pos fits t (omega arith) ∙ rw e3 refl in
    let rb' = record (one_piece rb bytes pos fits 0) { size = rb.size + length bytes } in
    let l = length-copy_at rb.tail rb.buf bytes in
    (
      rb',
      rw (e2, e1, one_turn rb (one_piece rb bytes pos fits 0) bytes fuel pos fits st) refl,
      refl,
      read_nothing rb' (omega arith) (omega arith) refl,
    )
