-- ===== src/Net/RingBuffer/Peeking.antt =====
-- util/net/base/buffer/ring_buffer.go: looking at the bytes held, dropping them, and taking all.
use live_chat_room.Prelude.{
  ℕ, ◌+◌, ◌-◌, ◌≤◌, ◌<◌, ◌%◌, min, ◌≡◌, refl, sym, ap, ◌∙◌, inl, inr, true, false, none, some, List,
  [], ◌++◌, ltb, leb, ◌==◌, ◌||◌, if◌then◌else◌, length, take, drop, replicate, sub, length-take,
  length-drop, arith, dec_lt, Bool-cases, take-take, drop_all,
}
use native.Mathlib.Nat.{mod-eq_of_lt, mod-eq-sub-mod, mod-lt}
use live_chat_room.Net.RingBuffer.{
  RingBuffer, read_to_slice, peek_to_slice, read_all, peek, discard, peek_frame,
}
use live_chat_room.Net.RingBuffer.View.{contents, Layout, straight-Layout, IsValid}
use live_chat_room.Net.RingBuffer.Ring.{drop-sub, sub-ring_back}
use live_chat_room.Net.RingBuffer.Reading.{read_to_slice_lem}
use live_chat_room.Net.RingBuffer.Queue.{full_frame, length-replicate}

-- Looking copies what reading copies.
peek-read :
    (rb : RingBuffer) (dst : List ℕ) (n : ℕ)
    → IsValid rb
    → 0 < n
    → n ≤ rb.size
    → n ≤ length dst
    → peek_to_slice rb dst n ≡ (read_to_slice rb dst n).dst
unfolding peek_to_slice read_to_slice IsValid
peek-read rb dst n (pos_cap, low, high, layout) pos less fits =
    let e1 : min n rb.size ≡ n = omega arith in
    let e2 : (rb.size == 0) ≡ false = ground arith in
    let e3 : (n == 0) ≡ false = ground arith in
    elim (Bool-cases (ltb rb.head rb.tail)) [
      | inl e ↦ rw (e1, e2, e3, e) refl
      | inr e ↦ elim (Bool-cases (leb n (length rb.buf - rb.head))) [
        | inl e' ↦ rw (e1, e2, e3, e, e') refl
        | inr e' ↦
            let f = length-drop rb.head rb.buf in
            let k = n - min (length dst) (length (drop rb.head rb.buf)) in
            let over : length rb.buf - rb.head < n = ground arith in
            let e4 : ltb 0 k ≡ true = ground (arith, f) in
            let e5 : ltb 0 rb.tail ≡ true = elim layout [
              | inl z ↦ absurd (omega arith)
              | inr (inl (h, q)) ↦ ground arith
              | inr (inr (h, q)) ↦ ground arith
            ] in
            rw (e1, e2, e3, e, e', e4, e5) refl
      ]
    ]

-- In a valid buffer, `Peek` shows the first bytes held, as many as asked for or all there are, and
-- a frame can be looked at exactly when it is not empty and as many bytes are held.
pub peek_shows :
    (rb : RingBuffer) (n : ℕ)
    → IsValid rb
    → (peek rb n ≡ take (min n rb.size) (contents rb))
      × (peek_frame rb n
          ≡ (if ltb rb.size n || (n == 0) then none else some (take n (contents rb))))
unfolding peek peek_frame
peek_shows rb n valid = (peeked, frame)
  where
    shown :
        (m : ℕ) → 0 < m → m ≤ rb.size → peek_to_slice rb (replicate m 0) m ≡ take m (contents rb)
    shown m pos less =
        let l = length-replicate {A = ℕ} m 0 in
        peek-read rb (replicate m 0) m valid pos less (omega arith)
        ∙ (read_to_slice_lem rb (replicate m 0) m valid pos less (omega arith)).1
        ∙ full_frame rb m less

    peeked : peek rb n ≡ take (min n rb.size) (contents rb)
    peeked = elim (dec_lt 0 (min n rb.size)) [
      | yes pos ↦
          let e : ((rb.size == 0) || (n == 0)) ≡ false = ground arith in
          rw e (shown (min n rb.size) pos (omega arith))
      | no z ↦
          let e : ((rb.size == 0) || (n == 0)) ≡ true = ground arith in
          let e' : min n rb.size ≡ 0 = omega arith in rw (e, e') refl
    ]

    frame :
        peek_frame rb n ≡ (if ltb rb.size n || (n == 0) then none else some (take n (contents rb)))
    frame = elim (Bool-cases (ltb rb.size n || (n == 0))) [
      | inl e ↦ rw e refl
      | inr e ↦ rw e (ap some (shown n (ground arith) (ground arith)))
    ]

-- `ReadAll` of a valid buffer gives all the bytes held, and leaves none, in a valid buffer.
pub read_all_empties :
    (rb : RingBuffer)
    → IsValid rb
    → ((read_all rb).0 ≡ contents rb) × ((read_all rb).1.size ≡ 0) × IsValid (read_all rb).1
unfolding read_all contents IsValid
read_all_empties rb valid = elim (dec_lt 0 rb.size) [
  | yes pos ↦
      let e : (rb.size == 0) ≡ false = ground arith in
      let l = length-replicate {A = ℕ} rb.size 0 in
      let r =
        read_to_slice_lem rb (replicate rb.size 0) rb.size valid pos (omega arith) (omega arith) in
      let v = r.4 in
      rw e (r.1 ∙ full_frame rb rb.size (omega arith) ∙ whole, refl, (v.0, v.1, v.2, inl refl))
  | no z ↦
      let e : rb.size ≡ 0 = omega arith in
      let e' : (rb.size == 0) ≡ true = ground arith in
      rw e' (sym (ap (λ m. take m (drop rb.head (rb.buf ++ rb.buf))) e), e, valid)
]
  where
    whole : take rb.size (contents rb) ≡ contents rb
    whole = take-take rb.size rb.size (drop rb.head (rb.buf ++ rb.buf)) (omega arith)

module _ (rb : RingBuffer) (k : ℕ) (less : k < rb.size) where
  -- Where the rest of the bytes begins
  wraps :
      IsValid rb
      → sub ((rb.head + k) % length rb.buf) (rb.size - k) (rb.buf ++ rb.buf) ≡ drop k (contents rb)
        × ((rb.head + k) % length rb.buf ≤ length rb.buf)
        × Layout (length rb.buf) ((rb.head + k) % length rb.buf) rb.tail (rb.size - k)
  unfolding IsValid contents
  wraps (pos_cap, low, high, layout) = elim (dec_lt (rb.head + k) (length rb.buf)) [
    | yes h ↦
        rw (mod-eq_of_lt h, drop-sub rb.head k rb.size (rb.buf ++ rb.buf))
          (
            refl,
            omega arith,
            elim layout [
              | inl e ↦ absurd (omega arith)
              | inr (inl (a, e)) ↦ straight-Layout _ _ _ _ (omega arith)
              | inr (inr (a, e)) ↦ inr (inr (omega arith, omega arith))
            ],
          )
    | no h ↦ elim layout [
      | inl e ↦ absurd (omega arith)
      | inr (inl (a, e)) ↦ absurd (omega arith)
      | inr (inr (a, e)) ↦
          let i = rb.head + k - length rb.buf in
          let m : (rb.head + k) % length rb.buf ≡ i =
            mod-eq-sub-mod {n = rb.head + k} {m = length rb.buf} (omega arith)
            ∙ mod-eq_of_lt {n = i} {m = length rb.buf} (omega arith) in
          let q : length rb.buf + i ≡ rb.head + k = omega arith in
          rw (m, drop-sub rb.head k rb.size (rb.buf ++ rb.buf))
            (
              sym (sub-ring_back i (rb.size - k) rb.buf (omega arith))
                  ∙ ap (λ j. sub j (rb.size - k) (rb.buf ++ rb.buf)) q,
              omega arith,
              straight-Layout _ _ _ _ (omega arith),
            )
    ]
  ]

-- `Discard` on a valid buffer drops the first bytes held, as many as asked for or all there are, and
-- leaves the others, in a valid buffer.
pub discard_drops :
    (rb : RingBuffer) (n : ℕ)
    → IsValid rb
    → (contents (discard rb n) ≡ drop (min n rb.size) (contents rb))
      × ((discard rb n).size ≡ rb.size - n)
      × IsValid (discard rb n)
unfolding discard IsValid contents
discard_drops rb n valid = elim (dec_lt (min n rb.size) rb.size) [
  | yes less ↦ elim (dec_lt 0 n) [
    | yes pos ↦
        let e : ((rb.size == 0) || (n == 0)) ≡ false = ground arith in
        let k = min n rb.size in
        let w = wraps rb k less valid in rw e (w.0, omega arith, (valid.0, w.1, valid.2, w.2))
    | no z ↦
        let e : ((rb.size == 0) || (n == 0)) ≡ true = ground arith in
        let e' : min n rb.size ≡ 0 = omega arith in rw (e, e') (refl, omega arith, valid)
  ]
  | no less ↦ elim (dec_lt 0 rb.size) [
    | yes pos ↦
        let e : ((rb.size == 0) || (n == 0)) ≡ false = ground arith in
        let k = min n rb.size in
        let z : rb.size - k ≡ 0 = omega arith in
        rw (e, z)
          (
            sym (all_dropped (omega arith)),
            omega arith,
            (valid.0, omega (arith, mod-lt (rb.head + k) valid.0), valid.2, inl refl),
          )
    | no z ↦
        let e : ((rb.size == 0) || (n == 0)) ≡ true = ground arith in
        let z' : rb.size ≡ 0 = omega arith in
        rw e (
          ap (λ m. take m (drop rb.head (rb.buf ++ rb.buf))) z' ∙ sym (all_dropped (omega arith)),
          omega arith,
          valid,
        )
  ]
]
  where
    all_dropped : rb.size ≤ n → drop (min n rb.size) (contents rb) ≡ []
    all_dropped h =
        drop_all (min n rb.size) (contents rb)
          (omega (arith, length-take rb.size (drop rb.head (rb.buf ++ rb.buf))))
