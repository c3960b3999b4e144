-- ===== src/Connection/RoomManager.antt =====
-- connection/room_manager.go: `RoomManager`. An operation runs as one step, under the room's mutex.
-- `stored` is what Redis answers to `Get`, decoded; the commands that the code sends to Redis are
-- kept in a list, the last one first. Times are in milliseconds.
pub mod Consistent
pub mod Run
pub mod Membership
pub mod Reload
use live_chat_room.Prelude.{
  ℕ, ◌+◌, ◌-◌, ◌*◌, ◌%◌, ◌^◌, Bool, true, false, not, ◌&&◌, ◌||◌, Option, none, some, List, [], ◌∷◌,
  if◌then◌else◌, ltb, leb, ◌==◌, same, length, is_some,
}
use live_chat_room.Message.Envelope.{Bytes}
use live_chat_room.Pending.{find, delete, insert}

pub data RoomStatus : Type 0 where
  status_open status_closed status_full : RoomStatus

pub record Room : Type 0 where
  pub id : ℕ
  pub name : Bytes
  pub creator_id : ℕ
  pub max_members : ℕ
  pub password : Bytes
  pub created_at : ℕ
  pub updated_at : ℕ
  pub status : RoomStatus
  pub member_count : ℕ  -- uint32
  pub last_activity : ℕ
  pub members : List (Bytes × Unit {0})  -- each value of the map is `true`

-- The errors, in the order of the file
pub data RoomError : Type 0 where
  room_exists max_rooms_reached room_not_found room_closed room_is_full : RoomError
  invalid_password already_in_room not_in_room not_creator : RoomError

pub data Command : Type 0 where
  save : Room → Command
  remove : ℕ → Command

pub record RoomManager : Type 0 where
  pub rooms : List (ℕ × Room)
  pub max_rooms : ℕ
  pub total_rooms : ℕ
  pub active_rooms : ℕ  -- int64, as a word of 64 bits
  pub commands : List Command

-- `NewRoomManager`
unfoldable pub new_room_manager : ℕ → RoomManager
new_room_manager max_rooms = record {
  rooms = [];
  max_rooms = max_rooms;
  total_rooms = 0;
  active_rooms = 0;
  commands = [];
}

-- `rm.rooms[roomID]`
unfoldable pub find_room : ℕ → List (ℕ × Room) → Option Room
find_room r [] = none
find_room r ((i, room) ∷ rooms) = if i == r then some room else find_room r rooms

unfoldable pub put_room : ℕ → Room → List (ℕ × Room) → List (ℕ × Room)
put_room r room [] = (r, room) ∷ []
put_room r room ((i, old) ∷ rooms) =
    if i == r then (i, room) ∷ rooms else (i, old) ∷ put_room r room rooms

-- `room.members[connID]`
unfoldable pub has_member : Bytes → Room → Bool
has_member conn room = is_some (find conn room.members)

-- The room that `CreateRoom` makes
unfoldable pub new_room : ℕ → ℕ → Bytes → ℕ → ℕ → Bytes → Room
new_room now r name creator_id max_members password = record {
  id = r;
  name = name;
  creator_id = creator_id;
  max_members = max_members;
  password = password;
  created_at = now;
  updated_at = now;
  status = status_open;
  member_count = 0;
  last_activity = now;
  members = [];
}

-- `CreateRoom`
unfoldable pub create_room :
    ℕ → ℕ → Bytes → ℕ → ℕ → Bytes → RoomManager → Option RoomError × RoomManager
create_room now r name creator_id max_members password rm =
    let room = new_room now r name creator_id max_members password in
    if is_some (find_room r rm.rooms)
    then (some room_exists, rm)
    else if leb rm.max_rooms (length rm.rooms)
    then (some max_rooms_reached, rm)
    else (
      none,
      record rm {
        rooms = put_room r room rm.rooms;
        total_rooms = (rm.total_rooms + 1) % 2 ^ 64;
        active_rooms = (rm.active_rooms + 1) % 2 ^ 64;
        commands = save room ∷ rm.commands;
      },
    )

-- `loadRoomFromRedis`: the members are no field of the JSON object, so they are empty.
unfoldable pub load_room_from_redis : Option Room → Option Room
load_room_from_redis none = none
load_room_from_redis (some room) = some (record room { members = [] })

unfoldable pub keep_loaded : ℕ → Option Room → RoomManager → Option Room × RoomManager
keep_loaded r none rm = (none, rm)
keep_loaded r (some room) rm = (some room, record rm { rooms = put_room r room rm.rooms })

-- `GetRoom`
unfoldable pub get_room : Option Room → ℕ → RoomManager → Option Room × RoomManager
get_room stored r rm =
    let found = find_room r rm.rooms in
    if is_some found then (found, rm) else keep_loaded r (load_room_from_redis stored) rm

-- What an operation does with the room that `GetRoom` gives: the room is changed in place, and saved
-- if there is no error.
unfoldable pub store_room :
    ℕ → Option RoomError × Room → RoomManager → Option RoomError × RoomManager
store_room r (none, room) rm =
    (none, record rm { rooms = put_room r room rm.rooms; commands = save room ∷ rm.commands })
store_room r (some e, room) rm = (some e, record rm { rooms = put_room r room rm.rooms })

unfoldable pub on_room :
    (Room → Option RoomError × Room)
    → ℕ
    → Option Room × RoomManager
    → Option RoomError × RoomManager
on_room f r (none, rm) = (some room_not_found, rm)
on_room f r (some room, rm) = store_room r (f room) rm

unfoldable pub is_closed : RoomStatus → Bool
is_closed status_closed = true
is_closed _ = false

unfoldable pub is_full : RoomStatus → Bool
is_full status_full = true
is_full _ = false

-- `JoinRoom`, with the room at hand; one reading of the clock stands for its two
unfoldable pub join : ℕ → Bytes → Bytes → Room → Option RoomError × Room
join now conn password room =
    let count = (room.member_count + 1) % 2 ^ 32 in
    if is_closed room.status
    then (some room_closed, room)
    else if is_full room.status
    then (some room_is_full, room)
    else if not (same room.password []) && not (same room.password password)
    then (some invalid_password, room)
    else if has_member conn room
    then (some already_in_room, room)
    else if leb room.max_members room.member_count
    then (some room_is_full, record room { status = status_full })
    else (
      none,
      record room {
        members = insert conn tt room.members;
        member_count = count;
        last_activity = now;
        updated_at = now;
        status = if leb room.max_members count then status_full else room.status;
      },
    )

unfoldable pub join_room :
    ℕ → Option Room → ℕ → Bytes → Bytes → RoomManager → Option RoomError × RoomManager
join_room now stored r conn password rm = on_room (join now conn password) r (get_room stored r rm)

-- `LeaveRoom`, likewise
unfoldable pub leave : ℕ → Bytes → Room → Option RoomError × Room
leave now conn room =
    let count = (room.member_count + (2 ^ 32 - 1)) % 2 ^ 32 in
    if not (has_member conn room) then (some not_in_room, room) else (
      none,
      record room {
        members = delete conn room.members;
        member_count = count;
        last_activity = now;
        updated_at = now;
        status =
            if is_full room.status && ltb count room.max_members then status_open else room.status;
      },
    )

unfoldable pub leave_room :
    ℕ → Option Room → ℕ → Bytes → RoomManager → Option RoomError × RoomManager
leave_room now stored r conn rm = on_room (leave now conn) r (get_room stored r rm)

-- `CloseRoom`, with the room at hand
unfoldable pub close : ℕ → ℕ → Room → Option RoomError × Room
close now creator_id room =
    if not (room.creator_id == creator_id) then (some not_creator, room) else (
      none,
      record room { status = status_closed; updated_at = now; members = []; member_count = 0 },
    )

unfoldable pub close_room : ℕ → Option Room → ℕ → ℕ → RoomManager → Option RoomError × RoomManager
close_room now stored r creator_id rm = on_room (close now creator_id) r (get_room stored r rm)

-- Whether `CleanupEmptyRooms` removes a room
unfoldable pub is_expired : ℕ → Room → Bool
is_expired now room =
    (room.member_count == 0 && ltb (room.last_activity + 10 * 60 * 1000) now)
    || is_closed room.status

unfoldable pub live_rooms : ℕ → List (ℕ × Room) → List (ℕ × Room)
live_rooms now [] = []
live_rooms now ((r, room) ∷ rooms) =
    if is_expired now room then live_rooms now rooms else (r, room) ∷ live_rooms now rooms

unfoldable pub expired_rooms : ℕ → List (ℕ × Room) → List ℕ
expired_rooms now [] = []
expired_rooms now ((r, room) ∷ rooms) =
    if is_expired now room then r ∷ expired_rooms now rooms else expired_rooms now rooms

unfoldable pub send_removals : List ℕ → List Command → List Command
send_removals [] commands = commands
send_removals (r ∷ rs) commands = send_removals rs (remove r ∷ commands)

-- `CleanupEmptyRooms`
unfoldable pub cleanup_empty_rooms : ℕ → RoomManager → RoomManager
cleanup_empty_rooms now rm =
    let expired = expired_rooms now rm.rooms in
    record rm {
      rooms = live_rooms now rm.rooms;
      active_rooms = (rm.active_rooms + length expired * (2 ^ 64 - 1)) % 2 ^ 64;
      commands = send_removals expired rm.commands;
    }
