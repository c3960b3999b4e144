-- ===== src/Client/MessageProcessor.antt =====
-- client/message_processor.go: `MessageProcessor`. Each operation runs as one step, with one reading of
-- the clock in milliseconds; the messages handled are kept in a list. No envelope is nil; a result that
-- is none is a panic. Seen keys are a list without
-- repetitions, in the order in which they came; the order in which a loop visits the map is an argument.
pub mod Seen
pub mod Handled
pub mod Contents
pub mod Order
pub mod Bounds
pub mod Once
use live_chat_room.Prelude.{
  ℕ, zero, suc, ◌+◌, ◌*◌, ◌/◌, ◌%◌, ◌^◌, Bool, true, false, not, ◌||◌, ◌&&◌, Option, none, some,
  List, [], ◌∷◌, ◌++◌, if◌then◌else◌, ltb, leb, ◌==◌, same, length, Ordering, is_some,
}
use live_chat_room.Message.GlobalId.{GlobalId, from_bytes, extract_timestamp, compare_id}
use live_chat_room.Message.Envelope.{
  Bytes, Envelope, Content, chat_message, join_room_ack, leave_room_ack,
  room_message_fetch_response,
}

pub record MessageProcessor : Type 0 where
  pub message_buffer : List Envelope
  pub max_buffer_size : ℕ
  pub seen_messages : List Bytes
  pub process_chan : List Envelope
  pub handled : List Envelope
  pub started : Bool

unfoldable pub new_message_processor : ℕ → MessageProcessor
new_message_processor buffer_size = record {
  message_buffer = [];
  max_buffer_size = buffer_size;
  seen_messages = [];
  process_chan = [];
  handled = [];
  started = false;
}

-- `string(rune(n))`: the low 32 bits as an int32, in UTF-8; what is no code point gives U+FFFD.
unfoldable pub rune_bytes : ℕ → Bytes
rune_bytes n =
    let r = n % 2 ^ 32 in
    if ltb r 0x80
    then r ∷ []
    else if ltb r 0x800
    then (0xC0 + r / 2 ^ 6) ∷ (0x80 + r % 2 ^ 6) ∷ []
    else if leb 0xD800 r && leb r 0xDFFF || ltb 0x10FFFF r
    then 0xEF ∷ 0xBF ∷ 0xBD ∷ []
    else if ltb r 0x10000
    then (0xE0 + r / 2 ^ 12) ∷ (0x80 + r / 2 ^ 6 % 2 ^ 6) ∷ (0x80 + r % 2 ^ 6) ∷ []
    else (0xF0 + r / 2 ^ 18)
      ∷ (0x80 + r / 2 ^ 12 % 2 ^ 6)
      ∷ (0x80 + r / 2 ^ 6 % 2 ^ 6)
      ∷ (0x80 + r % 2 ^ 6)
      ∷ []

-- `getMessageKey`
unfoldable pub get_message_key : Envelope → Bytes
unfolding rune_bytes
get_message_key e = e.message_id ++ (b':' ∷ rune_bytes e.connection_seq_id)

unfoldable pub is_seen : Bytes → List Bytes → Bool
is_seen key [] = false
is_seen key (k ∷ ks) = same k key || is_seen key ks

-- `isDuplicateMessage`
unfoldable pub is_duplicate_message : Envelope → MessageProcessor → Bool
is_duplicate_message e mp = is_seen (get_message_key e) mp.seen_messages

-- `markMessageSeen`, of a message that is not marked.
unfoldable pub mark_message_seen : Envelope → MessageProcessor → MessageProcessor
mark_message_seen e mp = record mp { seen_messages = mp.seen_messages ++ (get_message_key e ∷ []) }

-- `Start`: the context is there, and the loops run.
unfoldable pub start : MessageProcessor → MessageProcessor
start mp = record mp { started = true }

-- Whether the handler of a content reads a field of a nil pointer. `nil` is whether there is one inside an
-- acknowledgement or a fetch response, which their constructors do not tell.
unfoldable pub reads_nil : Bool → Option Content → Bytes → Bool
reads_nil nil (some (chat_message none)) id = is_some (from_bytes id)
reads_nil nil (some (join_room_ack a)) id = nil
reads_nil nil (some (leave_room_ack a)) id = nil
reads_nil nil (some (room_message_fetch_response a)) id = nil
reads_nil nil _ id = false

-- `globalID, _ := message.FromBytes(..)`: an error comes with the zero identifier.
unfoldable pub id_of : Envelope → GlobalId
id_of e = elim (from_bytes e.message_id) [
  | none ↦ 0 ∷ 0 ∷ 0 ∷ 0 ∷ 0 ∷ 0 ∷ 0 ∷ 0 ∷ 0 ∷ 0 ∷ 0 ∷ 0 ∷ 0 ∷ 0 ∷ 0 ∷ 0 ∷ []
  | some id ↦ id
]

-- The test of the sort
unfoldable pub comes_before : Envelope → Envelope → Bool
unfolding id_of
comes_before d e = elim (compare_id (id_of d) (id_of e)) [ Ordering.lt ↦ true | _ ↦ false ]

unfoldable pub insert_message : Envelope → List Envelope → List Envelope
insert_message e [] = e ∷ []
insert_message e (d ∷ ds) = if comes_before d e then d ∷ insert_message e ds else e ∷ d ∷ ds

-- `sort.Slice`, which may put messages of one identifier in any order: here they keep theirs.
unfoldable pub sort_messages : List Envelope → List Envelope
unfolding insert_message
sort_messages [] = []
sort_messages (e ∷ es) = insert_message e (sort_messages es)

unfoldable pub put_sorted : Envelope → List Envelope → MessageProcessor → MessageProcessor
put_sorted e kept mp = record mp { message_buffer = sort_messages (kept ++ (e ∷ [])) }

-- `messageBuffer[1:]` of an empty buffer panics.
unfoldable pub without_oldest :
    Envelope → List Envelope → MessageProcessor → Option MessageProcessor
without_oldest e [] mp = none
without_oldest e (d ∷ ds) mp = some (put_sorted e ds mp)

-- `addToBuffer`
unfoldable pub add_to_buffer : Envelope → MessageProcessor → Option MessageProcessor
add_to_buffer e mp =
    if leb mp.max_buffer_size (length mp.message_buffer)
    then without_oldest e mp.message_buffer mp
    else some (put_sorted e mp.message_buffer mp)

-- The loop of `processBufferedMessages`: the messages handled, and those left. A message with a bad
-- identifier is passed over, and goes only if a later one is handled.
unfoldable pub take_ready : ℕ → List Envelope → List Envelope × List Envelope
take_ready now [] = ([], [])
take_ready now (e ∷ es) =
    let rest = take_ready now es in
    elim (from_bytes e.message_id) [
      | none ↦ if length rest.0 == 0 then ([], e ∷ es) else rest
      | some id ↦ if ltb now (extract_timestamp id + 50) then ([], e ∷ es) else (e ∷ rest.0, rest.1)
    ]

-- The loop of `cleanupSeenMessages`, after `count` deletions.
unfoldable pub delete_seen : ℕ → List Bytes → List Bytes
delete_seen count [] = []
delete_seen count (k ∷ ks) =
    if leb (length ks / 2) (count + 1) then ks else delete_seen (count + 1) ks

-- `cleanupSeenMessages`; `visit` puts the keys in the order in which the loop visits them.
unfoldable pub cleanup_seen_messages :
    (List Bytes → List Bytes) → MessageProcessor → MessageProcessor
unfolding delete_seen
cleanup_seen_messages visit mp =
    if ltb 10000 (length mp.seen_messages)
    then record mp { seen_messages = delete_seen 0 (visit mp.seen_messages) }
    else mp

-- One turn of `processLoop` that receives from the channel; an empty channel waits.
unfoldable pub receive : List Envelope → MessageProcessor → Option MessageProcessor
receive [] mp = some mp
receive (e ∷ es) mp = add_to_buffer e (record mp { process_chan = es })

unfoldable pub process_loop_receive : MessageProcessor → Option MessageProcessor
process_loop_receive mp = receive mp.process_chan mp

-- What a processor does, one thing at a time.
pub data ProcessorStep : Type 0 where
  start_up : ProcessorStep
  process : Bool → Envelope → ProcessorStep
  take_one : ProcessorStep
  tick : ℕ → ProcessorStep

-- `nil_inside e` is whether a pointer inside an acknowledgement or a fetch response is nil.
module _ (nil_inside : Envelope → Bool) where
  -- `handleMessage`, which only logs.
  unfoldable pub handle_message : Envelope → MessageProcessor → Option MessageProcessor
  handle_message e mp =
      if reads_nil (nil_inside e) e.message e.message_id
      then none
      else some (record mp { handled = mp.handled ++ (e ∷ []) })

  -- `ProcessMessage`; `cancelled` is whether the select takes the end of the context, which is nil before
  -- the processor is started.
  unfoldable pub process_message : Bool → Envelope → MessageProcessor → Option MessageProcessor
  unfolding mark_message_seen
  process_message cancelled e mp =
      let marked = mark_message_seen e mp in
      if is_duplicate_message e mp
      then some mp
      else if not mp.started
      then none
      else if cancelled
      then some marked
      else if ltb (length mp.process_chan) mp.max_buffer_size
      then some (record marked { process_chan = mp.process_chan ++ (e ∷ []) })
      else handle_message e marked

  unfoldable pub handle_each : List Envelope → MessageProcessor → Option MessageProcessor
  handle_each [] mp = some mp
  handle_each (e ∷ es) mp = elim (handle_message e mp) [
    | none ↦ none
    | some next ↦ handle_each es next
  ]

  -- `processBufferedMessages`
  unfoldable pub process_buffered_messages : ℕ → MessageProcessor → Option MessageProcessor
  process_buffered_messages now mp = elim (handle_each (take_ready now mp.message_buffer).0 mp) [
    | none ↦ none
    | some next ↦ some (record next { message_buffer = (take_ready now mp.message_buffer).1 })
  ]

  -- The loops do nothing before the processor is started.
  unfoldable pub processor_step : ProcessorStep → MessageProcessor → Option MessageProcessor
  processor_step start_up mp = some (start mp)
  processor_step (process cancelled e) mp = process_message cancelled e mp
  processor_step take_one mp = if mp.started then process_loop_receive mp else some mp
  processor_step (tick now) mp = if mp.started then process_buffered_messages now mp else some mp

  unfoldable pub processor_steps : List ProcessorStep → MessageProcessor → Option MessageProcessor
  processor_steps [] mp = some mp
  processor_steps (s ∷ ss) mp = elim (processor_step s mp) [
    | none ↦ none
    | some next ↦ processor_steps ss next
  ]
