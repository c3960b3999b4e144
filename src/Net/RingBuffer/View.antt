-- ===== src/Net/RingBuffer/View.antt =====
-- util/net/base/buffer/ring_buffer.go: the bytes that a buffer holds, and where they lie.
use live_chat_room.Prelude.{
  ℕ, ◌+◌, ◌-◌, ◌≤◌, ◌<◌, ◌≡◌, ◌⊎◌, inl, inr, List, ◌++◌, take, drop, length, sub, arith, dec_lt,
}
use live_chat_room.Net.RingBuffer.{RingBuffer, capacity, Copied}

-- The bytes held: `size` of them, from `head` on round the ring.
unfoldable pub contents : RingBuffer → List ℕ
contents rb = sub rb.head rb.size (rb.buf ++ rb.buf)

-- Where the bytes lie: none, from `head` to `tail`, or from `head` round the end to `tail`.
abbrev pub Layout : ℕ → ℕ → ℕ → ℕ → Type 0
Layout cap head tail size =
    (size ≡ 0)
    ⊎ (((head < tail) × (head + size ≡ tail)) ⊎ ((tail ≤ head) × (head + size ≡ cap + tail)))

pub straight-Layout : (cap head tail size : ℕ) → head + size ≡ tail → Layout cap head tail size
straight-Layout cap head tail size e = elim (dec_lt head tail) [
  | yes h ↦ inr (inl (h, e))
  | no h ↦ inl (omega arith)
]

unfoldable pub IsValid : RingBuffer → Type 0
IsValid rb =
    (0 < capacity rb)
    × (rb.head ≤ capacity rb)
    × (rb.tail ≤ capacity rb)
    × Layout (capacity rb) rb.head rb.tail rb.size

-- What a read of `n` of the bytes held comes to
abbrev pub Reads : RingBuffer → List ℕ → ℕ → Copied → Type 0
Reads rb dst n c =
    (c.count ≡ n)
    × (c.dst ≡ take n (contents rb) ++ drop n dst)
    × (c.rest.size ≡ rb.size)
    × (contents (record (c.rest) { size = rb.size - n }) ≡ drop n (contents rb))
    × IsValid (record (c.rest) { size = rb.size - n })

-- A valid buffer holds no more than it has room for.
pub held_fits : (rb : RingBuffer) → IsValid rb → rb.size ≤ length rb.buf
unfolding IsValid
held_fits rb (pos_cap, low, high, layout) = elim layout [
  | inl z ↦ omega arith
  | inr (inl (h, q)) ↦ omega arith
  | inr (inr (h, q)) ↦ omega arith
]
