-- ===== src/Connection/RoomManager/Run.antt =====
-- connection/room_manager.go: sequences of calls.
use live_chat_room.Prelude.{
  ℕ, ◌<◌, ◌^◌, refl, Option, none, some, List, [], ◌∷◌, length, All, arith, is_some, Option-cases,
  inl, inr, leb, if_cases,
}
use live_chat_room.Message.Envelope.{Bytes}
use live_chat_room.Connection.RoomManager.{
  Room, RoomError, RoomManager, find_room, new_room, create_room, load_room_from_redis, keep_loaded,
  get_room, store_room, on_room, join, join_room, leave, leave_room, close, close_room,
  cleanup_empty_rooms, new_room_manager,
}
use live_chat_room.Connection.RoomManager.Consistent.{
  IsConsistent, AllConsistent, join-IsConsistent, leave-IsConsistent, close-IsConsistent,
  find_room-IsConsistent, put_room-AllConsistent, live_rooms-AllConsistent,
}

-- A call, with the time and the answer of Redis that it meets
pub data Call : Type 0 where
  create : (now r : ℕ) (name : Bytes) (creator_id max_members : ℕ) (password : Bytes) → Call
  enter : (now : ℕ) (stored : Option Room) (r : ℕ) (conn password : Bytes) → Call
  exit : (now : ℕ) (stored : Option Room) (r : ℕ) (conn : Bytes) → Call
  shut : (now : ℕ) (stored : Option Room) (r creator_id : ℕ) → Call
  clean : (now : ℕ) → Call

unfoldable pub call : Call → RoomManager → RoomManager
call (create now r name creator_id max_members password) rm =
    (create_room now r name creator_id max_members password rm).1
call (enter now stored r conn password) rm = (join_room now stored r conn password rm).1
call (exit now stored r conn) rm = (leave_room now stored r conn rm).1
call (shut now stored r creator_id) rm = (close_room now stored r creator_id rm).1
call (clean now) rm = cleanup_empty_rooms now rm

unfoldable pub run : List Call → RoomManager → RoomManager
run [] rm = rm
run (c ∷ cs) rm = run cs (call c rm)

-- What Redis gives back, once its members are lost, is consistent.
abbrev pub LoadsConsistent : Option Room → Type 0
LoadsConsistent none = Unit {0}
LoadsConsistent (some room) = IsConsistent (record room { members = [] })

-- The parameters of a call are of the types of the source, and its answer from Redis is consistent.
unfoldable pub IsFair : Call → Type 0
IsFair (create now r name creator_id max_members password) = max_members < 2 ^ 32
IsFair (enter now stored r conn password) = LoadsConsistent stored
IsFair (exit now stored r conn) = LoadsConsistent stored
IsFair (shut now stored r creator_id) = LoadsConsistent stored
IsFair (clean now) = Unit {0}

-- A room that is found is consistent, and so are those in the table.
abbrev Gives : Option Room × RoomManager → Type 0
Gives (none, rm) = AllConsistent rm.rooms
Gives (some room, rm) = IsConsistent room × AllConsistent rm.rooms

get_room-Gives :
    (stored : Option Room) (r : ℕ) (rm : RoomManager)
    → LoadsConsistent stored
    → AllConsistent rm.rooms
    → Gives (get_room stored r rm)
unfolding get_room keep_loaded load_room_from_redis
get_room-Gives stored r rm s a = elim (Option-cases (find_room r rm.rooms)) [
  | inl e ↦ rw e (loaded stored s)
  | inr (room, e) ↦ rw e (find_room-IsConsistent r rm.rooms {room = room} a e, a)
]
  where
    loaded :
        (o : Option Room) → LoadsConsistent o → Gives (keep_loaded r (load_room_from_redis o) rm)
    loaded none c = a
    loaded (some room) c = (c, put_room-AllConsistent r (record room { members = [] }) rm.rooms c a)

on_room-AllConsistent :
    (f : Room → Option RoomError × Room) (r : ℕ) (found : Option Room × RoomManager)
    → ((room : Room) → IsConsistent room → IsConsistent (f room).1)
    → Gives found
    → AllConsistent (on_room f r found).1.rooms
unfolding on_room store_room
on_room-AllConsistent f r (none, rm) h g = g
on_room-AllConsistent f r (some room, rm) h g = stored (f room) (h room g.0)
  where
    stored :
        (result : Option RoomError × Room)
        → IsConsistent result.1
        → AllConsistent (store_room r result rm).1.rooms
    stored (none, room') c = put_room-AllConsistent r room' rm.rooms c g.1
    stored (some e, room') c = put_room-AllConsistent r room' rm.rooms c g.1

create_room-AllConsistent :
    (now r : ℕ) (name : Bytes) (creator_id max_members : ℕ) (password : Bytes) (rm : RoomManager)
    → max_members < 2 ^ 32
    → AllConsistent rm.rooms
    → AllConsistent (create_room now r name creator_id max_members password rm).1.rooms
unfolding create_room IsConsistent new_room
create_room-AllConsistent now r name creator_id max_members password rm w a =
    let Q : Option RoomError × RoomManager → Type 0 = λ x. AllConsistent x.1.rooms in
    if_cases Q (is_some (find_room r rm.rooms)) (λ e. a)
      (λ e.
        if_cases Q (leb rm.max_rooms (length rm.rooms)) (λ e. a)
          (λ e. put_room-AllConsistent r room rm.rooms made a))
  where
    room : Room
    room = new_room now r name creator_id max_members password

    made : IsConsistent room
    made = (tt, refl, omega arith, w, inr refl)

call-AllConsistent :
    (c : Call) (rm : RoomManager)
    → IsFair c
    → AllConsistent rm.rooms
    → AllConsistent (call c rm).rooms
unfolding call IsFair join_room leave_room close_room cleanup_empty_rooms
call-AllConsistent (create now r name creator_id max_members password) rm f a =
    create_room-AllConsistent now r name creator_id max_members password rm f a
call-AllConsistent (enter now stored r conn password) rm f a =
    on_room-AllConsistent (join now conn password) r (get_room stored r rm)
      (λ room c. join-IsConsistent now conn room c password) (get_room-Gives stored r rm f a)
call-AllConsistent (exit now stored r conn) rm f a =
    on_room-AllConsistent (leave now conn) r (get_room stored r rm)
      (λ room c. leave-IsConsistent now conn room c) (get_room-Gives stored r rm f a)
call-AllConsistent (shut now stored r creator_id) rm f a =
    on_room-AllConsistent (close now creator_id) r (get_room stored r rm)
      (λ room c. close-IsConsistent now [] room c creator_id) (get_room-Gives stored r rm f a)
call-AllConsistent (clean now) rm f a = live_rooms-AllConsistent now rm.rooms a

-- After any sequence of calls on a new manager, as long as each room that Redis gives back is
-- consistent without members, every room has distinct members, counts them, has no more than its
-- maximum, is full only at the maximum, and empty once closed.
pub run-AllConsistent :
    (max_rooms : ℕ) (calls : List Call)
    → All IsFair calls
    → AllConsistent (run calls (new_room_manager max_rooms)).rooms
unfolding new_room_manager run
run-AllConsistent max_rooms calls fair = go calls _ fair tt
  where
    go :
        (cs : List Call) (rm : RoomManager)
        → All IsFair cs
        → AllConsistent rm.rooms
        → AllConsistent (run cs rm).rooms
    go [] rm f a = a
    go (c ∷ cs) rm f a = go cs (call c rm) f.1 (call-AllConsistent c rm f.0 a)
