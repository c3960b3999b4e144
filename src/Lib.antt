-- ===== src/Lib.antt =====
-- The chat system lankunGitHub/liveChatRoom (Go), its core modelled and verified. Clients
-- (client/) hold connections to connection servers (connection/), these to routers (router/),
-- and chat messages reach the message centre (msgcenter/). All speak the envelopes of message/,
-- which carry 128-bit identifiers, over the network framework of util/.
--
-- What is modelled, and where:
--
-- - Message/GlobalId: message/idgen.go, `GlobalID`. An array of 16 bytes is a list of numbers,
--   times are milliseconds as natural numbers, `uint64(now - Epoch)` wraps at 2^64. `RoundTrip`
--   and `Order` are about the layout and `Compare`.
-- - Message/Generator: message/idgen.go, `GenerateGlobalID` as one goroutine runs it, on a list
--   of clock readings (one for each `time.Now`); a call that runs out of readings still waits, and
--   `Progress` says when it does not. `Race` is the same code as any number of goroutines run it,
--   one atomic access at a step, over a schedule.
-- - Message/Envelope, Message/Codec: message/message.proto and message/codec.go. Strings are
--   lists of bytes. Protobuf is a parameter of `serialize` and `deserialize`, with its round trip
--   as a hypothesis.
-- - Router/Classifier: router/message_classifier.go, the switch over the message types, and its
--   counters.
-- - Pending: the map of pending messages and the queues of keys, as both reliability layers use
--   them.
-- - Client/Reliability: client/reliability.go. Each handler is a step on the manager's state;
--   what the network answers is an argument; a timer is the callback that it is armed with. A
--   handler that locks a mutex which its goroutine holds ends in `blocked`. `Matching`, `Keeping`,
--   `Answers` and `Run` have the invariant of the queues, `Acknowledge` and `Retry` what the
--   handlers do, `Expiry` what becomes of a message whose timers run out.
-- - Client/MessageProcessor: client/message_processor.go. The channel, the buffer and the
--   messages handled are lists; the order in which the cleanup visits the map is an argument, and
--   so is whether a pointer inside an acknowledgement or a fetch response is nil. A panic is none;
--   `Handled` and `Contents` say what the handlers and the buffer keep. `Order` is about the order
--   of the buffer and what a tick handles, `Bounds` about its size and panics, `Once` about
--   messages that come again, `Seen` about the cleanup.
-- - Router/LoadBalancer: router/load_balancer.go. The healthy nodes are an argument, CRC-32 a
--   parameter; a node is its name and number of connections. `Choosing` and `Hashing` say which
--   node is taken.
-- - Connection/RoomManager: connection/room_manager.go. The table of rooms is an association
--   list, the members of a room a set of connection names; the answer of Redis to each call is an
--   argument, the commands sent to it a list. `Consistent` and `Run` are about the invariant of
--   rooms, `Membership` about joining and leaving, `Reload` about a room read back.
-- - Connection/Guarantor: connection/reliability_guarantor.go, as the client's, towards clients
--   and routers; whether a write succeeds and the fetch request that is made are arguments.
--   `Matching`, `Run`, `Answers` and `Expiry` as for the client, `Timeouts` has what a timeout
--   changes.
-- - Connection/MemberManager, Connection/LiveRoomManager: connection/live_room_manager.go, the
--   members of live and game rooms, and the rooms over them. The commands to Redis are lists.
--   `Counted` is about the counts and the index by user, `Capacity` about the places of a game
--   room.
-- - Connection/ConnectionManager: connection/connection_manager.go and
--   connection/client_connection.go. Connections are numbers that stand for the objects as well,
--   which the table and the index by user share. `Counted` is about the table, `UserIndex` about
--   the index.
-- - Net/WebSocket: util/net/protocol/websocket/websocket.go, the parser: its buffer and
--   fragments are its state, a frame's parts are functions of `parse_frame`. `Builder` is
--   builder.go; a mask key is an argument. `Loop`, `Stream` and `Pieces` are about the loop of
--   `Parse` and bytes that come in pieces, `Header`, `Frames` and `Transfer` about built frames
--   and what is parsed of them, `Fragments`, `Opening` and `Reassembly` about fragmented messages.
--   Net/Utf8 is the test `utf8.Valid` of Go's library.
-- - Net/RingBuffer: util/net/base/buffer/ring_buffer.go. A buffer is a list of bytes; the bytes
--   held are the slice of `size` bytes from `head` on in the buffer followed by itself (`View`),
--   and the operations are compared with those of a queue. `Stuck` is about the states at the end
--   of the buffer.
-- - Prelude: shared names, tests and lemmas; `Words` has big-endian bytes and exclusive or,
--   `Maps` Go's maps with numbers for keys, `Slices` parts of lists.
-- - Tests: runs on concrete inputs, and each theorem at an input that meets its hypotheses.
--
-- Bounds and fuel: `trailing_zeros` has fuel 64, one for each bit of a word. The loops of
-- `GenerateGlobalID` recur on the clock readings. The loop of `writeFromSlice` has one unit of
-- fuel for each turn: two are enough for a write that finds or makes its room: one turn and the
-- test after it. `decimal` has fuel 20, and its numbers, the replicas of a node, have fewer
-- digits. The loop of `Parse` has one unit more than the buffer has bytes, and each turn takes a
-- frame of two bytes at least; that of `BuildFragmentedFrames` one for each byte of the data,
-- and each turn sends one at least.
--
-- Not modelled: the wire encoding of protobuf, sockets, Redis, Kafka and MySQL, logging, and the
-- interleaving of the operations of the reliability layers, room managers and connection manager
-- with one another (each runs as one step, with one reading of the clock). Of the router only
-- the classifier and the balancer have a model; the message centre, HTTP, the timer wheel, the
-- event loops and the servers' glue have none. No envelope is nil, and of the acknowledgements
-- and fetch responses only the message processor asks whether one is; a nil pointer inside a
-- create-room message, at which the code would panic, is treated as a message without a room.
pub mod Prelude
pub mod Message
pub mod Router
pub mod Pending
pub mod Client
pub mod Tests
pub mod Net
pub mod Connection
