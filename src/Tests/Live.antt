-- ===== src/Tests/Live.antt =====
-- connection/live_room_manager.go on concrete rooms.
use live_chat_room.Prelude.{ℕ, ◌+◌, ◌≡◌, refl, true, false, none, some, List, [], ◌∷◌, get, put}
use live_chat_room.Connection.MemberManager.{
  MemberManager, LiveMember, role_player, new_memory_member_manager, add_member, get_member_count,
  add_to_set, or_empty, empty_set, send_command,
}
use live_chat_room.Connection.MemberManager.Counted.{
  has_member, IsCounted, IsCounted, add, remove, member_steps, member_steps-IsCounted,
}
use live_chat_room.Connection.LiveRoomManager.{
  LiveRoomManager, GameRoom, default_live_room_config, base_room, new_live_room_manager,
}
use live_chat_room.Connection.LiveRoomManager.Capacity.{
  LiveStep, live, game, viewer, player, live_steps, join_times, IsFilled, InCapacity,
  join_times_fills, live_steps-InCapacity,
}

abbrev player_of : ℕ → LiveMember
player_of u = record {
  user_id = u;
  login_id = 1;
  conn_id = [];
  role = role_player;
  joined_at = 5;
  last_seen = 5;
  online = true;
  is_viewer = false;
  is_player = true;
  permission = 10;
}

abbrev one_member : MemberManager
one_member = add_member 5 9 (player_of 7) (new_memory_member_manager true)

-- A game room with places for two more.
abbrev arena : GameRoom
arena = record {
  room = record (base_room 5 9 [] 7 50) { member_count = 48 };
  game_type = [];
  game_mode = [];
  map_name = [];
  game_state = 0;
  round_number = 0;
  last_state_update = 5;
  update_frequency = 60;
}

abbrev lobby : LiveRoomManager
lobby = record {
  config = default_live_room_config;
  live_rooms = [];
  game_rooms = (9, arena) ∷ [];
  member_manager = one_member;
  live_room_count = 0;
  game_room_count = 1;
  expiries = [];
}

member_7 : has_member 9 7 one_member ≡ true
unfolding add_member new_memory_member_manager or_empty empty_set add_to_set send_command get put
member_7 = refl

arena_there : get 9 lobby.game_rooms ≡ some arena
unfolding get
arena_there = refl

arena_places : arena.room.member_count + 2 ≡ arena.room.max_members
unfolding base_room
arena_places = refl

join_times_fills_example :
    IsFilled 9 (get_member_count 9 one_member) (join_times 2 6 9 7 1 [] lobby)
join_times_fills_example =
    join_times_fills 2 6 9 7 1 [] lobby arena arena_there member_7 arena_places

abbrev evening : List LiveStep
evening =
    game 5 9 7 [] [] []
    ∷ player 6 9 7 1 []
    ∷ player 6 9 8 1 []
    ∷ live 7 10 7 8 [] []
    ∷ viewer 8 10 9 1 []
    ∷ []

live_steps-InCapacity_example :
    InCapacity (live_steps evening (new_live_room_manager none)).game_rooms
live_steps-InCapacity_example = live_steps-InCapacity none evening

member_steps-IsCounted_example : IsCounted (
    member_steps
      (add 5 9 (player_of 7) ∷ add 6 9 (player_of 7) ∷ remove 7 9 7 ∷ [])
      (new_memory_member_manager true))
member_steps-IsCounted_example =
    member_steps-IsCounted true (add 5 9 (player_of 7) ∷ add 6 9 (player_of 7) ∷ remove 7 9 7 ∷ [])
