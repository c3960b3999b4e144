-- ===== src/Net/RingBuffer/Resizing.antt =====
-- util/net/base/buffer/ring_buffer.go: `grow` and `Shrink`.
use live_chat_room.Prelude.{
  append_nil, ℕ, ◌+◌, ◌-◌, ◌*◌, ◌/◌, ◌≤◌, ◌<◌, min, ◌≡◌, refl, sym, ap, ◌∙◌, inl, inr, true, false,
  List, ◌++◌, ltb, leb, ◌==◌, ◌&&◌, if◌then◌else◌, length, take, drop, replicate, sub, length-take,
  length-drop, length-append, arith, dec_lt, Bool-cases, take_all, take-append,
}
use live_chat_room.Net.RingBuffer.{RingBuffer, move_to, grow, shrink}
use live_chat_room.Net.RingBuffer.View.{contents, straight-Layout, IsValid, held_fits}
use live_chat_room.Net.RingBuffer.Ring.{
  length-sub, sub-ring, sub-ring_round, copy_at_start, copy_at_twice,
}
use live_chat_room.Net.RingBuffer.Queue.{length-replicate}

module _ (rb : RingBuffer) (new_cap : ℕ) (roomy : rb.size < new_cap) where
  -- The bytes held stand at the front of the new buffer.
  moved :
      (rest : List ℕ)
      → length (contents rb) ≡ rb.size
      → take rb.size (contents rb ++ rest) ≡ contents rb
  moved rest e =
      let z : rb.size - length (contents rb) ≡ 0 = omega arith in
      rw (take-append rb.size (contents rb) rest, z, take_all rb.size (contents rb) (omega arith))
        (append_nil (contents rb))

  abbrev fresh : List ℕ
  fresh = replicate new_cap 0

  abbrev length-fresh : length fresh ≡ new_cap
  length-fresh = length-replicate {A = ℕ} new_cap 0

  moved_buf : IsValid rb → (move_to rb new_cap).buf ≡ contents rb ++ drop rb.size fresh
  unfolding move_to IsValid contents
  moved_buf (pos_cap, low, high, layout) = elim (dec_lt 0 rb.size) [
    | no z ↦
        let e : (rb.size == 0) ≡ true = ground arith in
        let e' : rb.size ≡ 0 = omega arith in
        rw e (sym (ap (λ m. take m (drop rb.head (rb.buf ++ rb.buf)) ++ drop m fresh) e'))
    | yes pos ↦
        let e : (rb.size == 0) ≡ false = ground arith in
        elim layout [
          | inl z ↦ absurd (omega arith)
          | inr (inl (h, q)) ↦
              let t : ltb rb.head rb.tail ≡ true = ground arith in
              let d : rb.tail - rb.head ≡ rb.size = omega arith in
              let l = length-sub rb.head rb.size rb.buf (omega arith) in
              rw
                (
                  e,
                  t,
                  d,
                  copy_at_start fresh (sub rb.head rb.size rb.buf) (omega (arith, length-fresh)),
                  l,
                  sub-ring rb.head rb.size rb.buf (omega arith),
                )
                refl
          | inr (inr (h, q)) ↦
              let t : ltb rb.head rb.tail ≡ false = ground arith in
              let f = length-drop rb.head rb.buf in
              let g = length-take rb.tail rb.buf in
              let m : min new_cap (length (drop rb.head rb.buf)) ≡ length (drop rb.head rb.buf) =
                omega arith in
              let s : length (drop rb.head rb.buf) + length (take rb.tail rb.buf) ≡ rb.size =
                omega arith in
              let r : rb.head + rb.size - length rb.buf ≡ rb.tail = omega arith in
              rw
                (
                  e,
                  t,
                  m,
                  copy_at_twice fresh (drop rb.head rb.buf) (take rb.tail rb.buf)
                      (omega (arith, length-fresh)),
                  s,
                  sub-ring_round rb.head rb.size rb.buf low (omega arith),
                  r,
                )
                refl
        ]
  ]

  pub length-contents : IsValid rb → length (contents rb) ≡ rb.size
  unfolding IsValid contents
  length-contents (pos_cap, low, high, layout) =
      length-sub rb.head rb.size (rb.buf ++ rb.buf) (elim layout [
        | inl z ↦ omega (arith, length-append rb.buf rb.buf)
        | inr (inl (h, q)) ↦ omega (arith, length-append rb.buf rb.buf)
        | inr (inr (h, q)) ↦ omega (arith, length-append rb.buf rb.buf)
      ])

  -- The move to a new buffer that is larger than what is held
  move_to-keeps :
      IsValid rb
      → (contents (move_to rb new_cap) ≡ contents rb)
        × ((move_to rb new_cap).size ≡ rb.size)
        × (length (move_to rb new_cap).buf ≡ new_cap)
        × IsValid (move_to rb new_cap)
  unfolding move_to IsValid contents
  move_to-keeps valid =
      let rest = drop rb.size fresh in
      let l = length-contents valid in
      let b = moved_buf valid in
      let n : length (contents rb ++ rest) ≡ new_cap =
        omega (arith, length-append (contents rb) rest, length-drop rb.size fresh, length-fresh) in
      let n' : length (move_to rb new_cap).buf ≡ new_cap = ap length b ∙ n in
      (
        ap (λ l. take rb.size (l ++ l)) b
            ∙ sub-ring 0 rb.size (contents rb ++ rest) (omega arith)
            ∙ moved rest l,
        refl,
        n',
        (omega arith, omega arith, omega arith, straight-Layout _ 0 rb.size rb.size (omega arith)),
      )

-- Growing a valid buffer keeps the bytes held, and makes it as large as they and the additional
-- bytes need, within the maximum; it never makes it smaller.
pub grow_keeps :
    (rb : RingBuffer) (additional : ℕ)
    → IsValid rb
    → (contents (grow rb additional) ≡ contents rb)
      × ((grow rb additional).size ≡ rb.size)
      × (min (rb.size + additional) rb.max_capacity ≤ length (grow rb additional).buf)
      × (length rb.buf ≤ length (grow rb additional).buf)
      × IsValid (grow rb additional)
unfolding grow
grow_keeps rb additional valid =
    let wanted = length rb.buf + rb.size + additional in
    let doubled = length rb.buf * 2 in
    let enough = if ltb doubled wanted then wanted else doubled in
    let new_cap = if ltb rb.max_capacity enough then rb.max_capacity else enough in
    let big : wanted ≤ enough = ground arith in
    let held : rb.size ≤ length rb.buf = held_fits rb valid in
    let cap : min enough rb.max_capacity ≤ new_cap = ground arith in
    elim (Bool-cases (leb new_cap (length rb.buf))) [
      | inl e ↦ rw e (refl, refl, ground arith, ground arith, valid)
      | inr e ↦
          let h : length rb.buf < new_cap = ground arith in
          let m = move_to-keeps rb new_cap (omega arith) valid in
          rw e (m.0, m.1, omega (arith, m.2), omega (arith, m.2), m.3)
    ]

-- Shrinking a valid buffer keeps the bytes held; it never makes it larger, nor smaller than the
-- initial capacity.
pub shrink_keeps :
    (rb : RingBuffer)
    → IsValid rb
    → (contents (shrink rb) ≡ contents rb)
      × ((shrink rb).size ≡ rb.size)
      × (min (length rb.buf) rb.initial_capacity ≤ length (shrink rb).buf)
      × (length (shrink rb).buf ≤ length rb.buf)
      × IsValid (shrink rb)
unfolding shrink
shrink_keeps rb valid =
    let half = length rb.buf / 2 in
    let new_cap = if ltb half rb.initial_capacity then rb.initial_capacity else half in
    let tests = ltb rb.size (length rb.buf / 4) && ltb rb.initial_capacity (length rb.buf) in
    elim (Bool-cases tests) [
      | inr e ↦ rw e (refl, refl, omega arith, omega arith, valid)
      | inl e ↦
          let h : rb.size < length rb.buf / 4 = ground arith in
          let h' : rb.initial_capacity < length rb.buf = ground arith in
          let a : half ≤ new_cap = ground arith in
          let b : rb.initial_capacity ≤ new_cap = ground arith in
          let c : new_cap ≤ length rb.buf = ground arith in
          let m = move_to-keeps rb new_cap (omega arith) valid in
          rw e (m.0, m.1, omega (arith, m.2), omega (arith, m.2), m.3)
    ]
