-- ===== src/Net/RingBuffer.antt =====
-- util/net/base/buffer/ring_buffer.go: `RingBuffer`. Bytes are numbers; `cap(rb.buf)` and
-- `len(rb.buf)` are both the length of `buf`. A destination slice is passed in and handed back
-- changed. A length or a count below 0 behaves as 0.
pub mod Ring
pub mod View
pub mod Reading
pub mod Queue
pub mod Peeking
pub mod Resizing
pub mod Writing
pub mod Appending
pub mod Enlarging
pub mod Stuck
use live_chat_room.Prelude.{
  ℕ, zero, suc, ◌+◌, ◌-◌, ◌*◌, ◌/◌, ◌%◌, min, Bool, true, false, not, ◌&&◌, ◌||◌, Option, none,
  some, List, [], ◌++◌, if◌then◌else◌, ltb, leb, ◌==◌, length, take, drop, replicate, sub, copy_at,
}

pub record RingBuffer : Type 0 where
  pub buf : List ℕ
  pub head : ℕ
  pub tail : ℕ
  pub size : ℕ
  pub initial_capacity : ℕ
  pub max_capacity : ℕ

abbrev pub capacity : RingBuffer → ℕ
capacity rb = length rb.buf

-- `NewRingBufferWithCapacity`
unfoldable pub new_ring_buffer_with_capacity : ℕ → ℕ → RingBuffer
new_ring_buffer_with_capacity initial most =
    let initial' = if initial == 0 then 4096 else initial in
    record {
      buf = replicate initial' 0;
      head = 0;
      tail = 0;
      size = 0;
      initial_capacity = initial';
      max_capacity = if most == 0 then 1024 * 1024 else most;
    }

-- `Reset`
unfoldable pub reset : RingBuffer → RingBuffer
reset rb = record rb { head = 0; tail = 0; size = 0 }

pub record Copied : Type 0 where
  pub count : ℕ
  pub dst : List ℕ
  pub rest : RingBuffer

-- `readToSlice`
unfoldable pub read_to_slice : RingBuffer → List ℕ → ℕ → Copied
read_to_slice rb dst n =
    let to_read = min n rb.size in
    let part = sub rb.head to_read rb.buf in
    let copied = min (length dst) (length part) in
    let first = drop rb.head rb.buf in
    let copied_first = min (length dst) (length first) in
    let remaining = to_read - copied_first in
    let second = take remaining rb.buf in
    let copied_second = min (length dst - copied_first) (length second) in
    if (rb.size == 0) || (n == 0)
    then record { count = 0; dst = dst; rest = rb }
    else if ltb rb.head rb.tail
    then record {
      count = copied;
      dst = copy_at 0 dst part;
      rest = record rb { head = rb.head + copied };
    }
    else if leb to_read (length rb.buf - rb.head)
    then record {
      count = copied;
      dst = copy_at 0 dst part;
      rest = record rb { head = if rb.head + copied == length rb.buf then 0 else rb.head + copied };
    }
    else if ltb 0 remaining && ltb 0 rb.tail
    then record {
      count = copied_first + copied_second;
      dst = copy_at copied_first (copy_at 0 dst first) second;
      rest = record rb { head = copied_second };
    }
    else record { count = copied_first; dst = copy_at 0 dst first; rest = record rb { head = 0 } }

-- `peekToSlice`: the destination
unfoldable pub peek_to_slice : RingBuffer → List ℕ → ℕ → List ℕ
peek_to_slice rb dst n =
    let to_read = min n rb.size in
    let first = drop rb.head rb.buf in
    let copied_first = min (length dst) (length first) in
    let remaining = to_read - copied_first in
    if (rb.size == 0) || (n == 0)
    then dst
    else if ltb rb.head rb.tail
    then copy_at 0 dst (sub rb.head to_read rb.buf)
    else if leb to_read (length rb.buf - rb.head)
    then copy_at 0 dst (sub rb.head to_read rb.buf)
    else if ltb 0 remaining
    then copy_at copied_first (copy_at 0 dst first) (take remaining rb.buf)
    else copy_at 0 dst first

unfoldable pub consume : Copied → Copied
consume c = record c { rest = record (c.rest) { size = c.rest.size - c.count } }

-- `Read`; it has no error.
unfoldable pub read : RingBuffer → List ℕ → Copied
read rb dst =
    if (rb.size == 0) || (length dst == 0)
    then record { count = 0; dst = dst; rest = rb }
    else consume (read_to_slice rb dst (min (length dst) rb.size))

-- `ReadAll`; a nil slice is empty.
unfoldable pub read_all : RingBuffer → List ℕ × RingBuffer
read_all rb =
    let c = read_to_slice rb (replicate rb.size 0) rb.size in
    if rb.size == 0 then ([], rb) else (c.dst, record (c.rest) { size = 0 })

-- `Peek`
unfoldable pub peek : RingBuffer → ℕ → List ℕ
peek rb n =
    let to_peek = min n rb.size in
    if (rb.size == 0) || (n == 0) then [] else peek_to_slice rb (replicate to_peek 0) to_peek

-- `Discard`
unfoldable pub discard : RingBuffer → ℕ → RingBuffer
discard rb n =
    let to_discard = min n rb.size in
    if (rb.size == 0) || (n == 0)
    then rb
    else record rb { head = (rb.head + to_discard) % length rb.buf; size = rb.size - to_discard }

-- `ReadFrame`
unfoldable pub read_frame : RingBuffer → ℕ → Option (List ℕ) × RingBuffer
read_frame rb frame_len =
    let c = read_to_slice rb (replicate frame_len 0) frame_len in
    if ltb rb.size frame_len || (frame_len == 0)
    then (none, rb)
    else if c.count == frame_len
    then (some c.dst, (consume c).rest)
    else (none, c.rest)

-- `PeekFrame`
unfoldable pub peek_frame : RingBuffer → ℕ → Option (List ℕ)
peek_frame rb frame_len =
    if ltb rb.size frame_len || (frame_len == 0)
    then none
    else some (peek_to_slice rb (replicate frame_len 0) frame_len)

-- The copy of the data into a new slice, which `grow` and `Shrink` have in common.
unfoldable pub move_to : RingBuffer → ℕ → RingBuffer
move_to rb new_cap =
    let fresh = replicate new_cap 0 in
    let first = drop rb.head rb.buf in
    record rb {
      buf =
          if rb.size == 0
          then fresh
          else if ltb rb.head rb.tail
          then copy_at 0 fresh (sub rb.head (rb.tail - rb.head) rb.buf)
          else copy_at (min new_cap (length first)) (copy_at 0 fresh first) (take rb.tail rb.buf);
      head = 0;
      tail = rb.size;
    }

-- `grow`
unfoldable pub grow : RingBuffer → ℕ → RingBuffer
grow rb additional =
    let wanted = length rb.buf + rb.size + additional in
    let doubled = length rb.buf * 2 in
    let enough = if ltb doubled wanted then wanted else doubled in
    let new_cap = if ltb rb.max_capacity enough then rb.max_capacity else enough in
    if leb new_cap (length rb.buf) then rb else move_to rb new_cap

-- `Shrink`
unfoldable pub shrink : RingBuffer → RingBuffer
shrink rb =
    let half = length rb.buf / 2 in
    let new_cap = if ltb half rb.initial_capacity then rb.initial_capacity else half in
    if ltb rb.size (length rb.buf / 4) && ltb rb.initial_capacity (length rb.buf)
    then move_to rb new_cap
    else rb

-- One turn of the loop of `writeFromSlice`: the number of bytes written so far, and the buffer. `size`
-- is as it was before the write.
unfoldable pub write_step : List ℕ → ℕ → RingBuffer → ℕ × RingBuffer
write_step src written rb =
    let to_write = min (length src - written) (length rb.buf - rb.size) in
    let end_space = length rb.buf - rb.tail in
    let copied = min end_space to_write in
    let after = record rb {
      buf = copy_at rb.tail rb.buf (sub written to_write src);
      tail = rb.tail + copied;
    } in
    let wrapped = record rb {
      buf = copy_at rb.tail rb.buf (sub written end_space src);
      tail = 0;
    } in
    let remaining = to_write - end_space in
    let copied2 = min rb.head remaining in
    if ltb rb.tail rb.head || (leb rb.head rb.tail && (rb.size == 0))
    then (if leb to_write end_space
        then (
          written + copied,
          record after { tail = if rb.tail + copied == length rb.buf then 0 else rb.tail + copied },
        )
        else if ltb 0 remaining && ltb 0 rb.head
        then (
          written + end_space + copied2,
          record wrapped {
            buf = copy_at 0 wrapped.buf (sub (written + end_space) copied2 src);
            tail = copied2;
          },
        )
        else (written + end_space, wrapped))
    else (written + copied, after)

-- `writeFromSlice`, with one unit of fuel to each turn of its loop
unfoldable pub write_from_slice : ℕ → List ℕ → ℕ → RingBuffer → Option (ℕ × RingBuffer)
write_from_slice zero src written rb = none
write_from_slice (suc fuel) src written rb =
    let next = write_step src written rb in
    let rest = write_from_slice fuel src next.0 next.1 in
    if not (ltb written (length src)) || (length rb.buf - rb.size == 0)
    then some (written, rb)
    else rest

unfoldable pub count_written : Option (ℕ × RingBuffer) → Option (ℕ × RingBuffer)
count_written none = none
count_written (some (written, rb)) = some (written, record rb { size = rb.size + written })

-- `Write`; growing has no error. `none` is a loop that is still running.
unfoldable pub write : ℕ → List ℕ → RingBuffer → Option (ℕ × RingBuffer)
write fuel bytes rb =
    let roomy =
      if ltb (length rb.buf) (rb.size + length bytes) then grow rb (length bytes) else rb in
    if length bytes == 0 then some (0, rb) else count_written (write_from_slice fuel bytes 0 roomy)
