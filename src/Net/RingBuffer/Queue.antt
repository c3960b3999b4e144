-- ===== src/Net/RingBuffer/Queue.antt =====
-- util/net/base/buffer/ring_buffer.go: the readers as operations on a queue of bytes.
use live_chat_room.Prelude.{
  append_nil, ℕ, zero, suc, ◌≤◌, ◌<◌, min, ◌≡◌, refl, ap, ◌∙◌, ◌⊎◌, inl, inr, true, false, none,
  some, List, ◌++◌, ltb, ◌==◌, ◌||◌, length, take, drop, replicate, arith, dec_lt, drop_all,
}
use live_chat_room.Net.RingBuffer.{RingBuffer, Copied, read_to_slice, consume, read, read_frame}
use live_chat_room.Net.RingBuffer.View.{contents, IsValid, Reads}
use live_chat_room.Net.RingBuffer.Reading.{read_to_slice_lem}

pub length-replicate {ℓ} : {A : Type ℓ} (n : ℕ) (a : A) → length (replicate n a) ≡ n
length-replicate zero a = refl
length-replicate (suc n) a = ap suc (length-replicate n a)

-- `n` bytes taken out of the queue, into the front of the destination
abbrev pub Dequeues : RingBuffer → List ℕ → ℕ → Copied → Type 0
Dequeues rb dst n c =
    (c.count ≡ n)
    × (c.dst ≡ take n (contents rb) ++ drop n dst)
    × (contents c.rest ≡ drop n (contents rb))
    × IsValid c.rest

consume-Dequeues :
    (rb : RingBuffer) (dst : List ℕ) (n : ℕ) (c : Copied)
    → Reads rb dst n c
    → Dequeues rb dst n (consume c)
unfolding consume
consume-Dequeues rb dst n c (e, d, e', r, v) = rw (e', e) (refl, d, r, v)

-- A read of a valid buffer copies as many of the bytes held, in their order, as the destination
-- takes, counts them, and leaves the others, in a valid buffer.
pub read-Dequeues :
    (rb : RingBuffer) (dst : List ℕ)
    → IsValid rb
    → Dequeues rb dst (min (length dst) rb.size) (read rb dst)
unfolding read
read-Dequeues rb dst valid = elim (dec_lt 0 (min (length dst) rb.size)) [
  | yes pos ↦
      let n = min (length dst) rb.size in
      let e1 : (rb.size == 0) ≡ false = ground arith in
      let e2 : (length dst == 0) ≡ false = ground arith in
      rw (e1, e2)
        (consume-Dequeues rb dst n (read_to_slice rb dst n)
          (read_to_slice_lem rb dst n valid pos (omega arith) (omega arith)))
  | no z ↦
      let e : min (length dst) rb.size ≡ 0 = omega arith in
      let e' : ((rb.size == 0) || (length dst == 0)) ≡ true = ground arith in
      rw (e', e) (refl, refl, refl, valid)
]

pub full_frame :
    (rb : RingBuffer) (n : ℕ)
    → n ≤ rb.size
    → take n (contents rb) ++ drop n (replicate n 0) ≡ take n (contents rb)
full_frame rb n h =
    rw (drop_all {A = ℕ} n (replicate n 0) (omega (arith, length-replicate {A = ℕ} n 0)))
      (append_nil (take n (contents rb)))

-- A frame is read of a valid buffer exactly when it is not empty and as many bytes are held. It is
-- the first bytes held, in their order, and the others are left, in a valid buffer; without a frame
-- the buffer is as it was.
pub read_frame_dequeues :
    (rb : RingBuffer) (n : ℕ)
    → IsValid rb
    → ((0 < n)
        × (n ≤ rb.size)
        × ((read_frame rb n).0 ≡ some (take n (contents rb)))
        × (contents (read_frame rb n).1 ≡ drop n (contents rb))
        × IsValid (read_frame rb n).1)
      ⊎ (((n ≡ 0) ⊎ (rb.size < n)) × (read_frame rb n ≡ (none, rb)))
unfolding read_frame
read_frame_dequeues rb n valid = elim (dec_lt rb.size n) [
  | yes h ↦ let e : ltb rb.size n ≡ true = ground arith in rw e (inr (inr h, refl))
  | no h ↦ elim (dec_lt 0 n) [
    | no z ↦
        let e : n ≡ 0 = omega arith in
        let e' : (ltb rb.size n || (n == 0)) ≡ true = ground arith in rw e' (inr (inl e, refl))
    | yes pos ↦
        let e : (ltb rb.size n || (n == 0)) ≡ false = ground arith in
        let c = read_to_slice rb (replicate n 0) n in
        let r =
          read_to_slice_lem rb (replicate n 0) n valid pos (omega arith)
            (omega (arith, length-replicate {A = ℕ} n 0)) in
        let d = consume-Dequeues rb (replicate n 0) n c r in
        let e'' : (c.count == n) ≡ true = ground (arith, r.0) in
        rw (e, e'')
          (inl (pos, omega arith, ap some (r.1 ∙ full_frame rb n (omega arith)), d.2, d.3))
  ]
]
