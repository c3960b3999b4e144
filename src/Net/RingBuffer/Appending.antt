-- ===== src/Net/RingBuffer/Appending.antt =====
-- util/net/base/buffer/ring_buffer.go: `writeFromSlice` and the bytes held.
use live_chat_room.Prelude.{
  ℕ, suc, ◌+◌, ◌-◌, ◌≤◌, ◌<◌, ◌≡◌, refl, sym, ap, ◌∙◌, inl, inr, true, false, some, List, [], ◌∷◌,
  ◌++◌, ltb, leb, ◌==◌, ◌&&◌, ◌||◌, if◌then◌else◌, length, take, drop, sub, sub_split, copy_at,
  length-copy_at, arith, dec_lt, ==_ne, take_all, take_split,
}
use live_chat_room.Net.RingBuffer.{RingBuffer, write_step, write_from_slice}
use live_chat_room.Net.RingBuffer.View.{contents, Layout, straight-Layout, IsValid}
use live_chat_room.Net.RingBuffer.Ring.{
  length-sub, sub-ring, sub-ring_round, drop-copy_at, take-copy_at, sub-copy_at, sub-copy_at_before,
  drop-copy_at_end,
}
use live_chat_room.Net.RingBuffer.Writing.{
  HasRoom, one_piece, two_pieces, behind_step, one_step, round_step,
}

append_assoc {ℓ} : {A : Type ℓ} (xs ys zs : List A) → (xs ++ ys) ++ zs ≡ xs ++ (ys ++ zs)
append_assoc [] ys zs = refl
append_assoc (x ∷ xs) ys zs = ap (λ l. x ∷ l) (append_assoc xs ys zs)

-- A tail that the end of the buffer sends back to its beginning
end-Layout :
    (cap head tail size : ℕ)
    → head + size ≡ tail
    → tail ≤ cap
    → ((if tail == cap then 0 else tail) ≤ cap)
      × Layout cap head (if tail == cap then 0 else tail) size
end-Layout cap head tail size e h = elim (dec_lt tail cap) [
  | yes l ↦ rw (==_ne tail cap (λ q. omega arith)) (h, straight-Layout cap head tail size e)
  | no l ↦
      let q : (tail == cap) ≡ true = ground arith in
      rw q (omega arith, inr (inr (omega arith, omega arith)))
]

module _ (rb : RingBuffer) (bytes : List ℕ) (pos : 0 < length bytes)
    (fits : rb.size + length bytes ≤ length rb.buf) where
  -- What a write of all the bytes comes to
  abbrev pub Appends : RingBuffer → Type 0
  Appends rb' =
      (contents (record rb' { size = rb.size + length bytes }) ≡ contents rb ++ bytes)
      × (rb'.size ≡ rb.size)
      × IsValid (record rb' { size = rb.size + length bytes })

  abbrev length-copied : length (copy_at rb.tail rb.buf bytes) ≡ length rb.buf
  length-copied = length-copy_at rb.tail rb.buf bytes

  -- Behind the bytes held, whichever value the new tail has
  straight_append :
      (tail : ℕ)
      → rb.head + rb.size ≡ rb.tail
      → rb.tail + length bytes ≤ length rb.buf
      → contents (record (one_piece rb bytes pos fits tail) { size = rb.size + length bytes })
        ≡ contents rb ++ bytes
  unfolding contents
  straight_append tail e r =
      rw
        (
          sub-ring rb.head (rb.size + length bytes) (copy_at rb.tail rb.buf bytes)
              (omega (arith, length-copied)),
          sub_split rb.head rb.size (length bytes) (copy_at rb.tail rb.buf bytes),
          sub-copy_at_before rb.head rb.size rb.tail rb.buf bytes (omega arith),
          e,
          sub-copy_at rb.tail rb.buf bytes r,
          sub-ring rb.head rb.size rb.buf (omega arith),
        )
        refl

  round_append :
      rb.tail ≤ rb.head
      → rb.head < length rb.buf
      → rb.head + rb.size ≡ length rb.buf + rb.tail
      → contents (record (one_piece rb bytes pos fits (rb.tail + length bytes)) {
        size = rb.size + length bytes;
      })
        ≡ contents rb ++ bytes
  unfolding contents
  round_append h low e =
      let ys = copy_at rb.tail rb.buf bytes in
      let l = length-copied in
      let k : rb.head + (rb.size + length bytes) - length ys ≡ rb.tail + length bytes =
        omega arith in
      let k' : rb.head + rb.size - length rb.buf ≡ rb.tail = omega arith in
      rw
        (
          sub-ring_round rb.head (rb.size + length bytes) ys (omega arith) (omega arith),
          k,
          take_split rb.tail (length bytes) ys,
          take-copy_at rb.tail rb.tail rb.buf bytes (omega arith),
          sub-copy_at rb.tail rb.buf bytes (omega arith),
          drop-copy_at rb.head rb.tail rb.buf bytes (omega arith),
          sub-ring_round rb.head rb.size rb.buf (omega arith) (omega arith),
          k',
        )
        (sym (append_assoc (drop rb.head rb.buf) (take rb.tail rb.buf) bytes))

  split_append :
      rb.size ≡ 0
      → rb.head ≡ rb.tail
      → rb.tail ≤ length rb.buf
      → length rb.buf < rb.tail + length bytes
      → contents (record (two_pieces rb bytes pos fits) { size = rb.size + length bytes })
        ≡ contents rb ++ bytes
  unfolding contents
  split_append z h low over =
      let end = length rb.buf - rb.tail in
      let k = length bytes - end in
      let front = sub 0 end bytes in
      let back = sub end k bytes in
      let xs = copy_at rb.tail rb.buf front in
      let ys = copy_at 0 xs back in
      let f : length front ≡ end = length-sub 0 end bytes (omega arith) in
      let b : length back ≡ k = length-sub end k bytes (omega arith) in
      let x : length xs ≡ length rb.buf = length-copy_at rb.tail rb.buf front in
      let y : length ys ≡ length xs = length-copy_at 0 xs back in
      let q : rb.head + (rb.size + length bytes) - length ys ≡ k = omega arith in
      let d : drop rb.head ys ≡ front =
        drop-copy_at rb.head 0 xs back (omega arith)
        ∙ ap (λ i. drop i xs) h
        ∙ drop-copy_at_end rb.tail rb.buf front (omega arith) in
      let t : take k ys ≡ back =
        ap (λ i. take i ys) (sym b) ∙ sub-copy_at 0 xs back (omega arith) in
      let w : end + k ≡ length bytes = omega arith in
      let all : front ++ back ≡ bytes =
        sym (take_split end k bytes) ∙ take_all (end + k) bytes (omega arith) in
      let none_held : contents rb ≡ [] = ap (λ i. take i (drop rb.head (rb.buf ++ rb.buf))) z in
      sub-ring_round rb.head (rb.size + length bytes) ys (omega arith) (omega arith)
      ∙ rw (q, d, t, all) (sym (ap (λ l. l ++ bytes) none_held))

  abbrev pub Written : Type 0
  Written = (rb' : RingBuffer) × (write_step bytes 0 rb ≡ (length bytes, rb')) × Appends rb'

  written_behind :
      IsValid rb
      → 0 < rb.size
      → rb.head + rb.size ≡ rb.tail
      → rb.tail + length bytes ≤ length rb.buf
      → Written
  unfolding IsValid
  written_behind (pos_cap, low, high, _) s e r =
      let l = length-copied in
      (
        one_piece rb bytes pos fits (rb.tail + length bytes),
        behind_step rb bytes pos fits s (omega arith) r,
        (
          straight_append (rb.tail + length bytes) e r,
          refl,
          (omega arith, omega arith, omega arith, straight-Layout _ _ _ _ (omega arith)),
        ),
      )

  written_before :
      IsValid rb
      → rb.tail ≤ rb.head
      → rb.head < length rb.buf
      → rb.head + rb.size ≡ length rb.buf + rb.tail
      → Written
  unfolding IsValid
  written_before (pos_cap, low, high, _) h r e =
      let l = length-copied in
      let t : (ltb rb.tail rb.head || (leb rb.head rb.tail && (rb.size == 0))) ≡ true =
        ground arith in
      (
        one_piece rb bytes pos fits (rb.tail + length bytes),
        one_step rb bytes pos fits t (omega arith)
            ∙ rw (==_ne (rb.tail + length bytes) (length rb.buf) (λ q. omega arith)) refl,
        (
          round_append h r e,
          refl,
          (omega arith, omega arith, omega arith, inr (inr (omega arith, omega arith))),
        ),
      )

  written_empty : IsValid rb → rb.size ≡ 0 → rb.head ≡ rb.tail → Written
  unfolding IsValid
  written_empty (pos_cap, low, high, _) z h =
      elim (dec_lt (length rb.buf) (rb.tail + length bytes)) [
        | yes over ↦
            let l =
              length-copy_at 0 (copy_at rb.tail rb.buf (sub 0 (length rb.buf - rb.tail) bytes))
                (sub (length rb.buf - rb.tail) (length bytes - (length rb.buf - rb.tail)) bytes) in
            let l' = length-copy_at rb.tail rb.buf (sub 0 (length rb.buf - rb.tail) bytes) in
            (
              two_pieces rb bytes pos fits,
              round_step rb bytes pos fits z h high over,
              (
                split_append z h high over,
                refl,
                (omega arith, omega arith, omega arith, inr (inr (omega arith, omega arith))),
              ),
            )
        | no over ↦
            let l = length-copied in
            let t : (ltb rb.tail rb.head || (leb rb.head rb.tail && (rb.size == 0))) ≡ true =
              ground arith in
            let v =
              end-Layout (length rb.buf) rb.head (rb.tail + length bytes) (rb.size + length bytes)
                (omega arith) (omega arith) in
            let tail =
              if rb.tail + length bytes == length rb.buf then 0 else rb.tail + length bytes in
            (
              one_piece rb bytes pos fits tail,
              one_step rb bytes pos fits t (omega arith),
              (
                straight_append tail (omega arith) (omega arith),
                refl,
                (omega arith, omega arith, omega (arith, v.0, l), rw l v.1),
              ),
            )
      ]

pub one_turn :
    (rb rb' : RingBuffer) (bytes : List ℕ) (fuel : ℕ)
    → 0 < length bytes
    → rb.size + length bytes ≤ length rb.buf
    → write_step bytes 0 rb ≡ (length bytes, rb')
    → write_from_slice (suc (suc fuel)) bytes 0 rb ≡ some (length bytes, rb')
unfolding write_from_slice
one_turn rb rb' bytes fuel pos fits w =
    let e3 : ltb 0 (length bytes) ≡ true = ground arith in
    let e4 : (length rb.buf - rb.size == 0) ≡ false = ground arith in
    let e5 : ltb (length bytes) (length bytes) ≡ false = ground arith in rw (e3, e4, w, e5) refl

-- A write that finds its room, before its bytes are counted
pub room-Written :
    (rb : RingBuffer) (bytes : List ℕ) (pos : 0 < length bytes)
    → IsValid rb
    → (room : HasRoom rb (length bytes)) → Written rb bytes pos room.0
room-Written rb bytes pos valid (fits, place) = elim place [
  | inl (z, h) ↦ written_empty rb bytes pos fits valid z h
  | inr (inl (s, e, r)) ↦ written_behind rb bytes pos fits valid s e r
  | inr (inr (h, r, e)) ↦ written_before rb bytes pos fits valid h r e
]
