-- ===== src/Connection/LiveRoomManager.antt =====
-- connection/live_room_manager.go: `LiveRoomManager`, live rooms and game rooms over the member manager.
-- Times are in milliseconds, with one reading of the clock in an operation; the expiry commands
-- sent to Redis are kept in a list, the last one first. Counters are natural numbers.
pub mod Capacity
use live_chat_room.Prelude.{
  ℕ, zero, suc, ◌+◌, ◌-◌, ◌*◌, Bool, true, false, Option, none, some, List, [], ◌∷◌, ◌++◌,
  if◌then◌else◌, ltb, leb, get, put,
}
use live_chat_room.Message.Envelope.{Bytes}
use live_chat_room.Connection.RoomManager.{Room, status_open}
use live_chat_room.Connection.MemberManager.{
  RoomType, room_type_chat, room_type_live, room_type_game, MemberRole, role_viewer, role_player,
  role_streamer, role_owner, LiveMember, MemberManager, new_memory_member_manager, add_member,
}

-- `LiveRoomConfig`, but for the thresholds and switches that no code reads.
pub record LiveRoomConfig : Type 0 where
  pub live_room_active_ttl : ℕ
  pub live_room_inactive_ttl : ℕ
  pub game_room_active_ttl : ℕ
  pub game_room_inactive_ttl : ℕ
  pub live_active_threshold : ℕ
  pub game_active_threshold : ℕ
  pub enable_memory_first : Bool

unfoldable pub default_live_room_config : LiveRoomConfig
default_live_room_config = record {
  live_room_active_ttl = 4 * 60 * 60 * 1000;
  live_room_inactive_ttl = 30 * 60 * 1000;
  game_room_active_ttl = 2 * 60 * 60 * 1000;
  game_room_inactive_ttl = 10 * 60 * 1000;
  live_active_threshold = 5 * 60 * 1000;
  game_active_threshold = 2 * 60 * 1000;
  enable_memory_first = true;
}

pub record LiveRoom : Type 0 where
  pub room : Room
  pub streamer_id : ℕ
  pub stream_status : ℕ
  pub viewer_count : ℕ
  pub stream_title : Bytes
  pub category : Bytes
  pub last_viewer_update : ℕ
  pub hot_level : ℕ

pub record GameRoom : Type 0 where
  pub room : Room
  pub game_type : Bytes
  pub game_mode : Bytes
  pub map_name : Bytes
  pub game_state : ℕ
  pub round_number : ℕ
  pub last_state_update : ℕ
  pub update_frequency : ℕ

pub record LiveRoomManager : Type 0 where
  pub config : LiveRoomConfig
  pub live_rooms : List (ℕ × LiveRoom)
  pub game_rooms : List (ℕ × GameRoom)
  pub member_manager : MemberManager
  pub live_room_count : ℕ
  pub game_room_count : ℕ
  pub expiries : List (ℕ × ℕ)

-- A nil configuration stands for the default.
unfoldable pub or_default : Option LiveRoomConfig → LiveRoomConfig
unfolding default_live_room_config
or_default none = default_live_room_config
or_default (some config) = config

unfoldable pub new_live_room_manager : Option LiveRoomConfig → LiveRoomManager
unfolding or_default new_memory_member_manager
new_live_room_manager config = record {
  config = or_default config;
  live_rooms = [];
  game_rooms = [];
  member_manager = new_memory_member_manager (or_default config).enable_memory_first;
  live_room_count = 0;
  game_room_count = 0;
  expiries = [];
}

-- The activity of a room that is not there is the zero time, long ago.
unfoldable pub is_active : ℕ → ℕ → Option Room → Bool
is_active now threshold none = false
is_active now threshold (some room) = ltb (now - room.last_activity) threshold

unfoldable pub live_base : Option LiveRoom → Option Room
live_base none = none
live_base (some l) = some l.room

unfoldable pub game_base : Option GameRoom → Option Room
game_base none = none
game_base (some g) = some g.room

-- `calculateTTL`
unfoldable pub calculate_ttl : ℕ → ℕ → RoomType → LiveRoomManager → ℕ
unfolding is_active live_base game_base
calculate_ttl now r room_type_live lrm =
    if is_active now lrm.config.live_active_threshold (live_base (get r lrm.live_rooms))
    then lrm.config.live_room_active_ttl
    else lrm.config.live_room_inactive_ttl
calculate_ttl now r room_type_game lrm =
    if is_active now lrm.config.game_active_threshold (game_base (get r lrm.game_rooms))
    then lrm.config.game_room_active_ttl
    else lrm.config.game_room_inactive_ttl
calculate_ttl now r room_type_chat lrm = 24 * 60 * 60 * 1000

-- `setRoomTTL`; what Redis answers is only logged.
unfoldable pub set_room_ttl : ℕ → ℕ → RoomType → LiveRoomManager → LiveRoomManager
unfolding calculate_ttl
set_room_ttl now r t lrm = record lrm { expiries = (r, calculate_ttl now r t lrm) ∷ lrm.expiries }

-- `updateHotLevel`
unfoldable pub hot_level_of : ℕ → ℕ
hot_level_of viewers =
    if leb 100000 viewers
    then 5
    else if leb 10000 viewers
    then 4
    else if leb 1000 viewers
    then 3
    else if leb 100 viewers
    then 2
    else 1

unfoldable pub base_room : ℕ → ℕ → Bytes → ℕ → ℕ → Room
base_room now r name creator_id max_members = record {
  id = r;
  name = name;
  creator_id = creator_id;
  max_members = max_members;
  password = [];
  created_at = now;
  updated_at = now;
  status = status_open;
  member_count = 0;
  last_activity = now;
  members = [];
}

-- The members that the operations add.
unfoldable pub new_member : ℕ → ℕ → ℕ → Bytes → MemberRole → Bool → Bool → ℕ → LiveMember
new_member now user_id login_id conn_id role is_viewer is_player permission = record {
  user_id = user_id;
  login_id = login_id;
  conn_id = conn_id;
  role = role;
  joined_at = now;
  last_seen = now;
  online = true;
  is_viewer = is_viewer;
  is_player = is_player;
  permission = permission;
}

-- `CreateLiveRoom`
unfoldable pub create_live_room : ℕ → ℕ → ℕ → ℕ → Bytes → Bytes → LiveRoomManager → LiveRoomManager
unfolding base_room new_member set_room_ttl
create_live_room now r creator_id streamer_id title category lrm =
    let live : LiveRoom = record {
      room = base_room now r title creator_id 100000;
      streamer_id = streamer_id;
      stream_status = 1;
      viewer_count = 0;
      stream_title = title;
      category = category;
      last_viewer_update = now;
      hot_level = 1;
    } in
    set_room_ttl now r room_type_live (record lrm {
      live_rooms = put r live lrm.live_rooms;
      live_room_count = lrm.live_room_count + 1;
      member_manager =
          add_member now r (new_member now streamer_id 0 [] role_streamer false false 100)
            lrm.member_manager;
    })

-- `CreateGameRoom`; the name is the type and the mode, with " - " between them.
unfoldable pub create_game_room :
    ℕ → ℕ → ℕ → Bytes → Bytes → Bytes → LiveRoomManager → LiveRoomManager
unfolding base_room new_member set_room_ttl
create_game_room now r creator_id game_type game_mode map_name lrm =
    let game : GameRoom = record {
      room = base_room now r (game_type ++ (b' ' ∷ b'-' ∷ b' ' ∷ game_mode)) creator_id 50;
      game_type = game_type;
      game_mode = game_mode;
      map_name = map_name;
      game_state = 0;
      round_number = 0;
      last_state_update = now;
      update_frequency = 60;
    } in
    set_room_ttl now r room_type_game (record lrm {
      game_rooms = put r game lrm.game_rooms;
      game_room_count = lrm.game_room_count + 1;
      member_manager =
          add_member now r (new_member now creator_id 0 [] role_owner false true 100)
            lrm.member_manager;
    })

pub data JoinError : Type 0 where
  not_live_room not_game_room game_room_full : JoinError

-- `JoinAsViewer`
unfoldable pub join_as_viewer :
    ℕ → ℕ → ℕ → ℕ → Bytes → LiveRoomManager → Option JoinError × LiveRoomManager
unfolding new_member hot_level_of set_room_ttl
join_as_viewer now r user_id login_id conn_id lrm = elim (get r lrm.live_rooms) [
  | none ↦ (some not_live_room, lrm)
  | some live ↦ (
    none,
    set_room_ttl now r room_type_live (record lrm {
      live_rooms =
          put r
            (record live {
              room = record live.room { last_activity = now };
              viewer_count = live.viewer_count + 1;
              last_viewer_update = now;
              hot_level = hot_level_of (live.viewer_count + 1);
            })
            lrm.live_rooms;
      member_manager =
          add_member now r (new_member now user_id login_id conn_id role_viewer true false 1)
            lrm.member_manager;
    }),
  )
]

unfoldable pub admit_player : ℕ → ℕ → ℕ → ℕ → Bytes → GameRoom → LiveRoomManager → LiveRoomManager
unfolding new_member set_room_ttl
admit_player now r user_id login_id conn_id game lrm =
    set_room_ttl now r room_type_game (record lrm {
      game_rooms =
          put r
            (record game {
              room = record game.room {
                member_count = game.room.member_count + 1;
                last_activity = now;
              };
              last_state_update = now;
            })
            lrm.game_rooms;
      member_manager =
          add_member now r (new_member now user_id login_id conn_id role_player false true 10)
            lrm.member_manager;
    })

-- `JoinAsPlayer`
unfoldable pub join_as_player :
    ℕ → ℕ → ℕ → ℕ → Bytes → LiveRoomManager → Option JoinError × LiveRoomManager
join_as_player now r user_id login_id conn_id lrm = elim (get r lrm.game_rooms) [
  | none ↦ (some not_game_room, lrm)
  | some game ↦
      if leb game.room.max_members game.room.member_count
      then (some game_room_full, lrm)
      else (none, admit_player now r user_id login_id conn_id game lrm)
]
