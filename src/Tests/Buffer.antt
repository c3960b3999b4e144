-- ===== src/Tests/Buffer.antt =====
-- util/net/base/buffer/ring_buffer.go: runs, and the theorems at concrete buffers.
use live_chat_room.Prelude.{◌≡◌, copy_at, refl, inl, inr, none, some, [], ◌∷◌, arith}
use live_chat_room.Net.RingBuffer.{
  RingBuffer, new_ring_buffer_with_capacity, read_to_slice, consume, read, read_all, write_step,
  write_from_slice, count_written, write,
}
use live_chat_room.Net.RingBuffer.View.{contents, IsValid}
use live_chat_room.Net.RingBuffer.Queue.{read-Dequeues, Dequeues}
use live_chat_room.Net.RingBuffer.Enlarging.{Stores, write_appends}
use live_chat_room.Net.RingBuffer.Stuck.{write_hangs, read_all_loses}

-- The bytes 1, 2 and 3, round the end
abbrev round_end : RingBuffer
round_end = record {
  buf = 2 ∷ 3 ∷ 9 ∷ 9 ∷ 1 ∷ [];
  head = 4;
  tail = 2;
  size = 3;
  initial_capacity = 4;
  max_capacity = 64;
}

round_end-IsValid : IsValid round_end
unfolding IsValid
round_end-IsValid = (omega arith, omega arith, omega arith, inr (inr (omega arith, refl)))

round_end-contents : contents round_end ≡ 1 ∷ 2 ∷ 3 ∷ []
unfolding contents
round_end-contents = refl

read-Dequeues_example : Dequeues round_end (0 ∷ 0 ∷ []) 2 (read round_end (0 ∷ 0 ∷ []))
read-Dequeues_example = read-Dequeues round_end (0 ∷ 0 ∷ []) round_end-IsValid

-- The buffer after a new one has taken three bytes and given two back: the next two bytes do not
-- fit behind the third.
abbrev behind : RingBuffer
behind = record {
  buf = 1 ∷ 2 ∷ 3 ∷ 0 ∷ [];
  head = 2;
  tail = 3;
  size = 1;
  initial_capacity = 4;
  max_capacity = 4;
}

reaches_behind :
    write 2 (1 ∷ 2 ∷ 3 ∷ []) (new_ring_buffer_with_capacity 4 4)
      ≡ some (3, record behind { head = 0; size = 3 })
    × ((read (record behind { head = 0; size = 3 }) (0 ∷ 0 ∷ [])).rest ≡ behind)
unfolding write write_from_slice write_step count_written read consume read_to_slice
    new_ring_buffer_with_capacity copy_at
reaches_behind = (refl, refl)

write_hangs_example : write 100 (4 ∷ 5 ∷ []) behind ≡ none
write_hangs_example =
    write_hangs behind (4 ∷ 5 ∷ []) (omega arith) refl (omega arith) (omega arith) (omega arith) 100

-- One byte held in nine, of a buffer that began with four
abbrev sparse : RingBuffer
sparse = record {
  buf = 0 ∷ 0 ∷ 7 ∷ 0 ∷ 0 ∷ 0 ∷ 0 ∷ 0 ∷ 0 ∷ [];
  head = 2;
  tail = 3;
  size = 1;
  initial_capacity = 4;
  max_capacity = 64;
}

sparse-IsValid : IsValid sparse
unfolding IsValid
sparse-IsValid = (omega arith, omega arith, omega arith, inr (inl (omega arith, refl)))

write_appends_example :
    (rb' : RingBuffer) × (write 2 (4 ∷ 5 ∷ 6 ∷ []) round_end ≡ some (3, rb'))
    × Stores round_end (4 ∷ 5 ∷ 6 ∷ []) rb'
write_appends_example =
    write_appends round_end (4 ∷ 5 ∷ 6 ∷ []) 0 (omega arith) round_end-IsValid
      (inr (omega arith, omega arith))

-- The buffer after two writes of two bytes, a read of all four and a third write
abbrev at_end : RingBuffer
at_end = record {
  buf = 5 ∷ 6 ∷ 3 ∷ 4 ∷ [];
  head = 4;
  tail = 2;
  size = 2;
  initial_capacity = 4;
  max_capacity = 4;
}

reaches_at_end :
    write 3
      (5 ∷ 6 ∷ [])
      (read_all (record at_end { buf = 1 ∷ 2 ∷ 3 ∷ 4 ∷ []; head = 0; tail = 4; size = 4 })).1
    ≡ some (2, at_end)
unfolding write write_from_slice write_step count_written read_all read_to_slice copy_at
reaches_at_end = refl

read_all_loses_example :
    (rb' : RingBuffer) × (write 2 (7 ∷ 8 ∷ []) at_end ≡ some (2, rb'))
    × (rb'.size ≡ 4)
    × ((read_all rb').0 ≡ 0 ∷ 0 ∷ 0 ∷ 0 ∷ [])
read_all_loses_example = read_all_loses at_end (7 ∷ 8 ∷ []) 0 refl refl (omega arith) refl
