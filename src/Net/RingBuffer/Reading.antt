-- ===== src/Net/RingBuffer/Reading.antt =====
-- `readToSlice` of util/net/base/buffer/ring_buffer.go, in each of its branches.
use live_chat_room.Prelude.{
  ℕ, ◌+◌, ◌-◌, ◌≤◌, ◌<◌, min, ◌≡◌, refl, sym, ap, ◌∙◌, inl, inr, true, false, List, ◌++◌, ltb, leb,
  ◌==◌, if◌then◌else◌, length, take, drop, sub, copy_at, length-take, length-drop, arith, dec_lt,
  ==_ne,
}
use live_chat_room.Net.RingBuffer.{RingBuffer, read_to_slice}
use live_chat_room.Net.RingBuffer.View.{contents, straight-Layout, IsValid, Reads}
use live_chat_room.Net.RingBuffer.Ring.{
  length-sub, take-sub, drop-sub, sub-ring, sub-ring_round, sub-ring_back, copy_at_start,
  copy_at_twice,
}

module _ (rb : RingBuffer) (dst : List ℕ) (n : ℕ) (pos : 0 < n) (less : n ≤ rb.size)
    (fits : n ≤ length dst) where
  straight_read :
      rb.head < rb.tail
      → rb.head + n ≤ length rb.buf
      → read_to_slice rb dst n ≡ record {
        count = n;
        dst = copy_at 0 dst (sub rb.head n rb.buf);
        rest = record rb { head = rb.head + n };
      }
  unfolding read_to_slice
  straight_read h h' =
      let e1 : min n rb.size ≡ n = omega arith in
      let e2 : (rb.size == 0) ≡ false = ground arith in
      let e3 : (n == 0) ≡ false = ground arith in
      let e4 : ltb rb.head rb.tail ≡ true = ground arith in
      let e5 : min (length dst) n ≡ n = omega arith in
      rw (e1, e2, e3, e4, length-sub rb.head n rb.buf h', e5) refl

  short_read :
      rb.tail ≤ rb.head
      → rb.head + n ≤ length rb.buf
      → read_to_slice rb dst n ≡ record {
        count = n;
        dst = copy_at 0 dst (sub rb.head n rb.buf);
        rest = record rb { head = if rb.head + n == length rb.buf then 0 else rb.head + n };
      }
  unfolding read_to_slice
  short_read h h' =
      let e1 : min n rb.size ≡ n = omega arith in
      let e2 : (rb.size == 0) ≡ false = ground arith in
      let e3 : (n == 0) ≡ false = ground arith in
      let e4 : ltb rb.head rb.tail ≡ false = ground arith in
      let e5 : min (length dst) n ≡ n = omega arith in
      let e6 : leb n (length rb.buf - rb.head) ≡ true = ground arith in
      rw (e1, e2, e3, e4, length-sub rb.head n rb.buf h', e5, e6) refl

  module _ (low : rb.head ≤ length rb.buf) (over : length rb.buf < rb.head + n)
      (h : rb.tail ≤ rb.head) (some_left : rb.head + n ≤ length rb.buf + rb.tail) where
    long_read : read_to_slice rb dst n ≡ record {
      count = n;
      dst =
          copy_at
            (length (drop rb.head rb.buf))
            (copy_at 0 dst (drop rb.head rb.buf))
            (take (rb.head + n - length rb.buf) rb.buf);
      rest = record rb { head = rb.head + n - length rb.buf };
    }
    unfolding read_to_slice
    long_read =
        let first = drop rb.head rb.buf in
        let e1 : min n rb.size ≡ n = omega arith in
        let e2 : (rb.size == 0) ≡ false = ground arith in
        let e3 : (n == 0) ≡ false = ground arith in
        let e4 : ltb rb.head rb.tail ≡ false = ground arith in
        let f : length first ≡ length rb.buf - rb.head = length-drop rb.head rb.buf in
        let e5 : min (length dst) (length first) ≡ length first = omega arith in
        let e6 : leb n (length rb.buf - rb.head) ≡ false = ground arith in
        let e7 : n - length first ≡ rb.head + n - length rb.buf = omega arith in
        let e8 : ltb 0 (rb.head + n - length rb.buf) ≡ true = ground arith in
        let e9 : ltb 0 rb.tail ≡ true = ground arith in
        let g : min (length dst - length first) (length (take (rb.head + n - length rb.buf) rb.buf))
            ≡ rb.head + n - length rb.buf =
          omega (arith, length-take (rb.head + n - length rb.buf) rb.buf) in
        let e10 : length first + (rb.head + n - length rb.buf) ≡ n = omega arith in
        rw (e1, e2, e3, e4, e5, e6, e7, e8, e9, g, e10) refl

  within :
      rb.head + n ≤ length rb.buf
      → copy_at 0 dst (sub rb.head n rb.buf) ≡ take n (contents rb) ++ drop n dst
  unfolding contents
  within h =
      rw
        (
          take-sub rb.head n rb.size (rb.buf ++ rb.buf) less,
          sub-ring rb.head n rb.buf h,
          copy_at_start dst (sub rb.head n rb.buf) (omega (arith, length-sub rb.head n rb.buf h)),
          length-sub rb.head n rb.buf h,
        )
        refl

  across :
      rb.head ≤ length rb.buf
      → length rb.buf < rb.head + n
      → rb.head + n ≤ length rb.buf + length rb.buf
      → copy_at
          (length (drop rb.head rb.buf))
          (copy_at 0 dst (drop rb.head rb.buf))
          (take (rb.head + n - length rb.buf) rb.buf)
        ≡ take n (contents rb) ++ drop n dst
  unfolding contents
  across low over high =
      let k = rb.head + n - length rb.buf in
      let e : length (drop rb.head rb.buf) + length (take k rb.buf) ≡ n =
        omega (arith, length-drop rb.head rb.buf, length-take k rb.buf) in
      rw
        (
          copy_at_twice dst (drop rb.head rb.buf) (take k rb.buf) (omega arith),
          e,
          take-sub rb.head n rb.size (rb.buf ++ rb.buf) less,
          sub-ring_round rb.head n rb.buf low (omega arith),
        )
        refl

  -- The bytes left after a read that has gone round
  back :
      (i : ℕ)
      → length rb.buf + i ≡ rb.head + n
      → i + (rb.size - n) ≤ length rb.buf
      → sub i (rb.size - n) (rb.buf ++ rb.buf) ≡ drop n (contents rb)
  unfolding contents
  back i e h =
      sym (sub-ring_back i (rb.size - n) rb.buf h)
      ∙ ap (λ j. sub j (rb.size - n) (rb.buf ++ rb.buf)) e
      ∙ sym (drop-sub rb.head n rb.size (rb.buf ++ rb.buf))

  module _ (low : rb.head ≤ length rb.buf) (high : rb.tail ≤ length rb.buf)
      (pos_cap : 0 < length rb.buf) where
    straight-Reads :
        rb.head < rb.tail → rb.head + rb.size ≡ rb.tail → Reads rb dst n (read_to_slice rb dst n)
    unfolding IsValid contents
    straight-Reads h e = rw (straight_read h (omega arith)) (
      refl,
      within (omega arith),
      refl,
      sym (drop-sub rb.head n rb.size (rb.buf ++ rb.buf)),
      (pos_cap, omega arith, high, straight-Layout _ _ _ _ (omega arith)),
    )

    short-Reads :
        rb.tail ≤ rb.head
        → rb.head + rb.size ≡ length rb.buf + rb.tail
        → rb.head + n < length rb.buf
        → Reads rb dst n (read_to_slice rb dst n)
    unfolding IsValid contents
    short-Reads h e end =
        rw (short_read h (omega arith), ==_ne (rb.head + n) (length rb.buf) (λ e'. omega arith))
          (
            refl,
            within (omega arith),
            refl,
            sym (drop-sub rb.head n rb.size (rb.buf ++ rb.buf)),
            (pos_cap, omega arith, high, inr (inr (omega arith, omega arith))),
          )

    -- The read that ends at the end of the buffer
    end-Reads :
        rb.tail ≤ rb.head
        → rb.head + rb.size ≡ length rb.buf + rb.tail
        → length rb.buf ≡ rb.head + n
        → Reads rb dst n (read_to_slice rb dst n)
    unfolding IsValid contents
    end-Reads h e end =
        let e' : (rb.head + n == length rb.buf) ≡ true = ground arith in
        rw (short_read h (omega arith), e')
          (
            refl,
            within (omega arith),
            refl,
            back 0 (omega arith) (omega arith),
            (pos_cap, omega arith, high, straight-Layout _ _ _ _ (omega arith)),
          )

    long-Reads :
        rb.tail ≤ rb.head
        → rb.head + rb.size ≡ length rb.buf + rb.tail
        → length rb.buf < rb.head + n
        → Reads rb dst n (read_to_slice rb dst n)
    unfolding IsValid contents
    long-Reads h e over = rw (long_read low over h (omega arith)) (
      refl,
      across low over (omega arith),
      refl,
      back (rb.head + n - length rb.buf) (omega arith) (omega arith),
      (pos_cap, omega arith, high, straight-Layout _ _ _ _ (omega arith)),
    )

-- The readers' helper, asked for no more than is held and than the destination takes, copies just
-- as many of the bytes held, from the first on, and leaves the others.
pub read_to_slice_lem :
    (rb : RingBuffer) (dst : List ℕ) (n : ℕ)
    → IsValid rb
    → 0 < n
    → n ≤ rb.size
    → n ≤ length dst
    → Reads rb dst n (read_to_slice rb dst n)
unfolding IsValid
read_to_slice_lem rb dst n (pos_cap, low, high, layout) pos less fits = elim layout [
  | inl e ↦ absurd (omega arith)
  | inr (inl (h, e)) ↦ straight-Reads rb dst n pos less fits low high pos_cap h e
  | inr (inr (h, e)) ↦ elim (dec_lt (length rb.buf) (rb.head + n)) [
    | yes over ↦ long-Reads rb dst n pos less fits low high pos_cap h e over
    | no over ↦ elim (dec_lt (rb.head + n) (length rb.buf)) [
      | yes end ↦ short-Reads rb dst n pos less fits low high pos_cap h e end
      | no end ↦ end-Reads rb dst n pos less fits low high pos_cap h e (omega arith)
    ]
  ]
]
