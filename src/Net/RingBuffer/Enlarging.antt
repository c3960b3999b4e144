-- ===== src/Net/RingBuffer/Enlarging.antt =====
-- util/net/base/buffer/ring_buffer.go: `Write`, with the room that it finds or makes.
use live_chat_room.Prelude.{
  ℕ, suc, ◌+◌, ◌*◌, ◌≤◌, ◌<◌, ◌≡◌, refl, ap, ◌∙◌, ◌⊎◌, inl, inr, true, false, some, List, ◌++◌, ltb,
  leb, ◌==◌, if◌then◌else◌, length, arith, dec_lt,
}
use live_chat_room.Net.RingBuffer.{
  RingBuffer, move_to, grow, write_from_slice, count_written, write,
}
use live_chat_room.Net.RingBuffer.View.{contents, IsValid}
use live_chat_room.Net.RingBuffer.Writing.{HasRoom}
use live_chat_room.Net.RingBuffer.Appending.{room-Written, one_turn}
use live_chat_room.Net.RingBuffer.Resizing.{grow_keeps}

-- The room that a write finds, or that growing within the maximum makes
abbrev pub FindsRoom : RingBuffer → ℕ → Type 0
FindsRoom rb n = HasRoom rb n ⊎ ((length rb.buf < rb.size + n) × (rb.size + n ≤ rb.max_capacity))

-- What a write of all the bytes gives
abbrev pub Stores : RingBuffer → List ℕ → RingBuffer → Type 0
Stores rb bytes rb' =
    (contents rb' ≡ contents rb ++ bytes) × (rb'.size ≡ rb.size + length bytes) × IsValid rb'

-- Growing for bytes that do not fit puts the bytes held at the beginning.
grow-front :
    (rb : RingBuffer) (n : ℕ)
    → length rb.buf < rb.size + n
    → rb.size + n ≤ rb.max_capacity
    → ((grow rb n).head ≡ 0) × ((grow rb n).tail ≡ rb.size)
unfolding grow move_to
grow-front rb n over fits =
    let wanted = length rb.buf + rb.size + n in
    let doubled = length rb.buf * 2 in
    let enough = if ltb doubled wanted then wanted else doubled in
    let new_cap = if ltb rb.max_capacity enough then rb.max_capacity else enough in
    let big : wanted ≤ enough = ground arith in
    let e : leb new_cap (length rb.buf) ≡ false = ground arith in rw e (refl, refl)

grow-HasRoom :
    (rb : RingBuffer) (n : ℕ)
    → IsValid rb
    → length rb.buf < rb.size + n
    → rb.size + n ≤ rb.max_capacity
    → HasRoom (grow rb n) n
grow-HasRoom rb n valid over fits =
    let (h, t) = grow-front rb n over fits in
    let g = grow_keeps rb n valid in
    (
      omega (arith, g.1, g.2),
      elim (dec_lt 0 rb.size) [
        | yes pos ↦ inr (inl (omega (arith, g.1), omega (arith, g.1), omega (arith, g.2)))
        | no z ↦ inl (omega (arith, g.1), omega arith)
      ],
    )

module _ (rb : RingBuffer) (bytes : List ℕ) (fuel : ℕ) (pos : 0 < length bytes) where
  -- In a buffer that has the room
  stored :
      IsValid rb
      → HasRoom rb (length bytes)
      → (rb' : RingBuffer) × (count_written (write_from_slice (suc (suc fuel)) bytes 0 rb)
          ≡ some (length bytes, rb'))
        × Stores rb bytes rb'
  unfolding count_written
  stored valid room =
      let w = room-Written rb bytes pos valid room in
      (
        record (w.0) { size = w.0.size + length bytes },
        rw (one_turn rb w.0 bytes fuel pos room.0 w.1) refl,
        (rw w.2.1 w.2.0, rw w.2.1 refl, rw w.2.1 w.2.2),
      )

-- A write that finds its room, or makes it by growing within the maximum, takes all the bytes in
-- one turn of its loop, and appends them to the bytes held, in a valid buffer.
pub write_appends :
    (rb : RingBuffer) (bytes : List ℕ) (fuel : ℕ)
    → 0 < length bytes
    → IsValid rb
    → FindsRoom rb (length bytes)
    → (rb' : RingBuffer) × (write (suc (suc fuel)) bytes rb ≡ some (length bytes, rb'))
      × Stores rb bytes rb'
unfolding write
write_appends rb bytes fuel pos valid (inl room) =
    let e1 : ltb (length rb.buf) (rb.size + length bytes) ≡ false = ground (arith, room.0) in
    let e2 : (length bytes == 0) ≡ false = ground arith in
    let s = stored rb bytes fuel pos valid room in (s.0, rw (e2, e1) s.1, s.2)
write_appends rb bytes fuel pos valid (inr (over, fits)) =
    let g = grow_keeps rb (length bytes) valid in
    let e1 : ltb (length rb.buf) (rb.size + length bytes) ≡ true = ground arith in
    let e2 : (length bytes == 0) ≡ false = ground arith in
    let s =
      stored (grow rb (length bytes)) bytes fuel pos g.4
        (grow-HasRoom rb (length bytes) valid over fits) in
    (
      s.0,
      rw (e2, e1) s.1,
      (s.2.0 ∙ ap (λ held. held ++ bytes) g.0, s.2.1 ∙ ap (λ n. n + length bytes) g.1, s.2.2),
    )
