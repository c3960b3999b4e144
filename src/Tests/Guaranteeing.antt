-- ===== src/Tests/Guaranteeing.antt =====
-- connection/reliability_guarantor.go on concrete messages.
use live_chat_room.Prelude.{◌+◌, ◌%◌, ◌^◌, ◌≡◌, refl, true, false, some, List, [], ◌∷◌, hex, same}
use live_chat_room.Message.GlobalId.{build_id_with_seq, from_bytes, extract_room_id}
use live_chat_room.Message.Envelope.{Bytes, Envelope}
use live_chat_room.Pending.{find, delete, insert, update}
use live_chat_room.Pending.Queues.{keys_of}
use live_chat_room.Connection.Guarantor.{
  message_timeout, router, client, PendingServerMessage, Guarantor, new_reliability_guarantor,
  get_message_key, returned, content_room, get_envelope_room, write_to, arm, enqueue_room,
  enqueue_room_pending, send_tracked, send_reliable_message, handle_message_fetch_response,
  handle_ack,
}
use live_chat_room.Connection.Guarantor.Matching.{IsMatched, in_room}
use live_chat_room.Connection.Guarantor.Run.{
  Handler, send, acknowledge, clean_up, handle, handle_all, SendsNew, handle_all_keeps,
}
use live_chat_room.Connection.Guarantor.Answers.{
  room_ack, handle_ack_takes_oldest, handle_message_fetch_response_settles,
}
use live_chat_room.Connection.Guarantor.Expiry.{RunsOut, timers_run_out}
use live_chat_room.Tests.Sending.{noon, id_at, joining, greeting, reply}

abbrev waiting : Envelope → PendingServerMessage
waiting e = record {
  envelope = e;
  bytes = [];
  target = client (b'c' ∷ []);
  sent_time = noon;
  retries = 1;
  timer = some message_timeout;
}

-- Two messages of one room are pending.
abbrev pending : List (Bytes × PendingServerMessage)
pending = (hex (id_at 0), waiting joining) ∷ (hex (id_at 1), waiting greeting) ∷ []

abbrev guarantor : Guarantor
guarantor = record {
  enable_reliability = true;
  max_retries = 3;
  pending_message_ttl = 9;
  pending_messages = pending;
  room_pending_queues = λ r. keys_of (in_room r) pending;
  total_retries = 0;
  total_fetches = 0;
  total_failed = 0;
  writes = [];
}

guarantor-IsMatched : IsMatched guarantor
unfolding same hex build_id_with_seq keys_of get_envelope_room content_room from_bytes
    extract_room_id
guarantor-IsMatched = record {
  distinct = ((refl, tt), (tt, tt));
  named = (refl, (refl, tt));
  rooms = λ r. refl;
}

oldest_first : guarantor.room_pending_queues 12 ≡ hex (id_at 0) ∷ hex (id_at 1) ∷ []
unfolding keys_of get_envelope_room content_room build_id_with_seq hex from_bytes extract_room_id
oldest_first = refl

handle_ack_takes_oldest_example :
    (p : PendingServerMessage) × (find (hex (id_at 0)) pending ≡ some p)
    × (get_envelope_room p.envelope ≡ some (12 % 2 ^ 32))
    × ((handle_ack reply guarantor).0 ≡ true)
    × ((handle_ack reply guarantor).1.pending_messages ≡ delete (hex (id_at 0)) pending)
    × ((handle_ack reply guarantor).1.room_pending_queues (12 % 2 ^ 32) ≡ hex (id_at 1) ∷ [])
    × IsMatched (handle_ack reply guarantor).1
unfolding room_ack
handle_ack_takes_oldest_example =
    handle_ack_takes_oldest reply (record { room_id = 12; status = 0; reason = [] }) guarantor
      (hex (id_at 0)) (hex (id_at 1) ∷ []) guarantor-IsMatched refl oldest_first

found_joining : find (hex (id_at 0)) pending ≡ some (waiting joining)
unfolding find same hex build_id_with_seq
found_joining = refl

-- The server does not have the message.
handle_message_fetch_response_settles_example :
    (rg : Guarantor) × (handle_message_fetch_response
        (record { message_id = id_at 0; exists = false; status = 4; reason = [] })
        guarantor
      ≡ returned rg)
    × (rg.pending_messages ≡ delete (hex (id_at 0)) pending)
    × (rg.total_failed ≡ 0)
handle_message_fetch_response_settles_example =
    handle_message_fetch_response_settles
      (record { message_id = id_at 0; exists = false; status = 4; reason = [] }) guarantor
      (waiting joining) guarantor-IsMatched found_joining

timers_run_out_example : RunsOut 2 (some greeting) true (hex (id_at 0)) guarantor (waiting joining)
timers_run_out_example =
    timers_run_out 2 (some greeting) true (hex (id_at 0)) guarantor (waiting joining)
      guarantor-IsMatched.distinct found_joining refl refl

-- Two messages are sent, the first is acknowledged, and what is old is cleaned up.
abbrev session : List Handler
session =
    send noon (some []) true router joining
    ∷ send noon (some []) true (client []) greeting
    ∷ acknowledge reply
    ∷ clean_up (noon + 9)
    ∷ []

session-SendsNew : SendsNew session (new_reliability_guarantor true 3 9)
unfolding SendsNew handle send_reliable_message send_tracked new_reliability_guarantor
    get_message_key hex build_id_with_seq update insert same arm write_to enqueue_room_pending
    enqueue_room get_envelope_room from_bytes
session-SendsNew = (tt, refl, ((refl, tt), refl, tt))

handle_all_keeps_example : IsMatched (handle_all session (new_reliability_guarantor true 3 9))
handle_all_keeps_example = handle_all_keeps true 3 9 session session-SendsNew
