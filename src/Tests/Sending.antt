-- ===== src/Tests/Sending.antt =====
-- client/reliability.go on concrete messages.
use live_chat_room.Prelude.{ℕ, ◌+◌, ◌≡◌, refl, true, false, some, List, [], ◌∷◌, hex, same}
use live_chat_room.Message.GlobalId.{build_id_with_seq, from_bytes, extract_room_id}
use live_chat_room.Message.Envelope.{Bytes, chat_message, join_room, chat_message_ack, Envelope}
use live_chat_room.Pending.{find, delete, insert, update}
use live_chat_room.Pending.Queues.{keys_of}
use live_chat_room.Client.Reliability.{
  PendingMessage, ReliabilityManager, message_timeout, Network, blocked, match_of, get_message_key,
  enqueue_for_ack_matching, handle_ack, handle_message_timeout, send_message,
  new_reliability_manager,
}
use live_chat_room.Client.Reliability.Run.{
  Handler, send, acknowledge, clean_up, handle, handle_all, IsNew, SendsNew, handle_all-IsMatched,
}
use live_chat_room.Client.Reliability.Matching.{IsMatched, in_room}
use live_chat_room.Client.Reliability.Acknowledge.{Confirms, handle_ack_fifo}
use live_chat_room.Client.Reliability.Retry.{tried, handle_message_timeout_blocks}
use live_chat_room.Client.Reliability.Expiry.{RunsOut, retransmissions_run_out}

abbrev pub noon : ℕ
noon = 1750000000000

abbrev pub id_at : ℕ → Bytes
id_at s = build_id_with_seq noon 77 12 3 0 s

abbrev pub joining : Envelope
joining = record {
  connection_seq_id = 1;
  message_id = id_at 0;
  message = some (join_room (some (record { password = [] })));
}

abbrev pub greeting : Envelope
greeting = record {
  connection_seq_id = 2;
  message_id = id_at 1;
  message =
      some (chat_message (some (record { content = 104 ∷ []; message_type = 0; reply_to = 0 })));
}

abbrev pub reply : Envelope
reply = record {
  connection_seq_id = 3;
  message_id = id_at 7;
  message = some (chat_message_ack (record { room_id = 12; status = 0; reason = [] }));
}

abbrev waiting : Envelope → PendingMessage
waiting e = record {
  envelope = e;
  bytes = [];
  sent_time = noon;
  retries = 0;
  timer = some message_timeout;
}

-- Two messages of one room are pending.
abbrev manager : ReliabilityManager
manager = record {
  max_retries = 3;
  pending_messages = (hex (id_at 0), waiting joining) ∷ (hex (id_at 1), waiting greeting) ∷ [];
  room_pending_queues = λ r.
      keys_of (in_room r)
        ((hex (id_at 0), waiting joining) ∷ (hex (id_at 1), waiting greeting) ∷ []);
  allocate_queue = [];
  room_fetch_pending = λ r. [];
  total_retries = 0;
  total_fetches = 0;
  total_messages_sent = 2;
  events = [];
}

manager-IsMatched : IsMatched manager
unfolding same hex build_id_with_seq keys_of match_of from_bytes extract_room_id
manager-IsMatched = record {
  distinct = ((refl, tt), (tt, tt));
  named = (refl, (refl, tt));
  rooms = λ r. refl;
  allocations = refl;
}

oldest_first : keys_of (in_room 12) manager.pending_messages ≡ hex (id_at 0) ∷ hex (id_at 1) ∷ []
unfolding keys_of match_of build_id_with_seq hex from_bytes extract_room_id
oldest_first = refl

handle_ack_fifo_example :
    let (handled, rm) = handle_ack reply manager in
    (handled ≡ true)
    × ((p : PendingMessage) × Confirms (hex (id_at 0)) p manager rm × (in_room 12 p ≡ true))
    × (keys_of (in_room 12) rm.pending_messages ≡ hex (id_at 1) ∷ [])
    × IsMatched rm
handle_ack_fifo_example =
    handle_ack_fifo reply 12 manager (hex (id_at 0)) (hex (id_at 1) ∷ []) manager-IsMatched refl
      oldest_first

found_joining : find (hex (id_at 0)) manager.pending_messages ≡ some (waiting joining)
unfolding find same hex build_id_with_seq
found_joining = refl

abbrev good : Network
good = record { resent = true; switched = true; fetch_built = true; fetch_sent = true }

abbrev down : Network
down = record { resent = false; switched = false; fetch_built = true; fetch_sent = true }

handle_message_timeout_blocks_example :
    (rm : ReliabilityManager) × (handle_message_timeout down (hex (id_at 0)) manager ≡ blocked rm)
    × (rm.events ≡ [])
    × (rm.pending_messages
        ≡ delete (hex (id_at 0)) (tried (hex (id_at 0)) (waiting joining) manager).pending_messages)
handle_message_timeout_blocks_example =
    handle_message_timeout_blocks down (hex (id_at 0)) manager (waiting joining) found_joining refl

retransmissions_run_out_example : RunsOut 3 (λ i. good) (hex (id_at 0)) manager (waiting joining)
retransmissions_run_out_example =
    retransmissions_run_out 3 (λ i. good) (hex (id_at 0)) manager (waiting joining)
      manager-IsMatched.distinct found_joining refl refl (λ i. refl)

-- Two messages are sent, the first is acknowledged, and what is old is cleaned up.
abbrev session : List Handler
session =
    send noon true joining []
    ∷ send noon true greeting []
    ∷ acknowledge reply
    ∷ clean_up (noon + 9)
    ∷ []

session-SendsNew : SendsNew session (new_reliability_manager 3)
unfolding SendsNew IsNew handle send_message new_reliability_manager get_message_key hex
    build_id_with_seq update enqueue_for_ack_matching match_of from_bytes insert same
session-SendsNew = ((tt, refl), (((refl, tt), refl), (tt, (tt, tt))))

handle_all-IsMatched_example : IsMatched (handle_all session (new_reliability_manager 3))
handle_all-IsMatched_example = handle_all-IsMatched 3 session session-SendsNew
