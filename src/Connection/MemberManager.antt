-- ===== src/Connection/MemberManager.antt =====
-- connection/live_room_manager.go: `MemoryMemberManager`, the members of live and game rooms. An
-- operation runs as one step, under the manager's mutex, with one reading `now` of the clock. The
-- commands that its goroutines send to Redis are kept in a list, the last one first.
pub mod Counted
use live_chat_room.Prelude.{
  ℕ, zero, suc, ◌+◌, ◌-◌, Bool, true, false, Option, none, some, List, [], ◌∷◌, ◌++◌, if◌then◌else◌,
  ◌==◌, is_some, get, put, erase,
}
use live_chat_room.Message.Envelope.{Bytes}

pub data RoomType : Type 0 where
  room_type_chat room_type_live room_type_game : RoomType

pub data MemberRole : Type 0 where
  role_viewer role_player role_moderator role_streamer role_owner : MemberRole

pub record LiveMember : Type 0 where
  pub user_id : ℕ
  pub login_id : ℕ
  pub conn_id : Bytes
  pub role : MemberRole
  pub joined_at : ℕ
  pub last_seen : ℕ
  pub online : Bool
  pub is_viewer : Bool
  pub is_player : Bool
  pub permission : ℕ

pub record MemberSet : Type 0 where
  pub members : List (ℕ × LiveMember)
  pub count : ℕ
  pub room_type : RoomType
  pub last_update : ℕ
  pub hot_members : List (ℕ × Bool)

pub data MemberCommand : Type 0 where
  set_member : ℕ → LiveMember → MemberCommand
  del_member : ℕ → ℕ → MemberCommand

-- A user without an entry has no rooms.
pub record MemberManager : Type 0 where
  pub room_members : List (ℕ × MemberSet)
  pub user_rooms : ℕ → List ℕ
  pub enable_memory_first : Bool
  pub total_members : ℕ
  pub commands : List MemberCommand

unfoldable pub new_memory_member_manager : Bool → MemberManager
new_memory_member_manager enable_memory_first = record {
  room_members = [];
  user_rooms = λ u. [];
  enable_memory_first = enable_memory_first;
  total_members = 0;
  commands = [];
}

unfoldable pub empty_set : ℕ → MemberSet
empty_set now = record {
  members = [];
  count = 0;
  room_type = room_type_chat;
  last_update = now;
  hot_members = [];
}

unfoldable pub or_empty : ℕ → Option MemberSet → MemberSet
unfolding empty_set
or_empty now none = empty_set now
or_empty now (some s) = s

unfoldable pub set_user : ℕ → List ℕ → (ℕ → List ℕ) → ℕ → List ℕ
set_user u rooms table v = if u == v then rooms else table v

-- A member who joins again: the fields that are taken over.
unfoldable pub refreshed : LiveMember → LiveMember → LiveMember
refreshed old member = record old {
  login_id = member.login_id;
  conn_id = member.conn_id;
  last_seen = member.last_seen;
  online = true;
}

-- The commands of the goroutine that follows.
unfoldable pub send_command : MemberCommand → MemberManager → MemberManager
send_command c mm = record mm {
  commands = if mm.enable_memory_first then c ∷ mm.commands else mm.commands;
}

unfoldable pub add_to_set : ℕ → ℕ → LiveMember → MemberSet → MemberManager → MemberManager
unfolding set_user refreshed
add_to_set now r member s mm = elim (get member.user_id s.members) [
  | some old ↦ record mm {
    room_members =
        put r
          (record s {
            members = put member.user_id (refreshed old member) s.members;
            last_update = now;
            hot_members = put member.user_id true s.hot_members;
          })
          mm.room_members;
  }
  | none ↦ record mm {
    room_members =
        put r
          (record s {
            members = put member.user_id member s.members;
            count = s.count + 1;
            last_update = now;
            hot_members = put member.user_id true s.hot_members;
          })
          mm.room_members;
    user_rooms = set_user member.user_id (mm.user_rooms member.user_id ++ (r ∷ [])) mm.user_rooms;
    total_members = mm.total_members + 1;
  }
]

-- `AddMember`, which has no error.
unfoldable pub add_member : ℕ → ℕ → LiveMember → MemberManager → MemberManager
unfolding or_empty send_command
add_member now r member mm =
    send_command (set_member r member)
      (add_to_set now r member (or_empty now (get r mm.room_members)) mm)

-- The loop that takes the first occurrence of a room out.
unfoldable pub remove_room : ℕ → List ℕ → List ℕ
remove_room r [] = []
remove_room r (s ∷ rooms) = if s == r then rooms else s ∷ remove_room r rooms

pub data MemberError : Type 0 where
  room_not_found user_not_found : MemberError

unfoldable pub remove_from_set : ℕ → ℕ → ℕ → MemberSet → MemberManager → MemberManager
unfolding set_user remove_room
remove_from_set now r u s mm = record mm {
  room_members =
      put r
        (record s {
          members = erase u s.members;
          hot_members = erase u s.hot_members;
          count = s.count - 1;
          last_update = now;
        })
        mm.room_members;
  user_rooms = set_user u (remove_room r (mm.user_rooms u)) mm.user_rooms;
  total_members = mm.total_members - 1;
}

-- `RemoveMember`. The counts go down by one; they are positive then, since the member is counted.
unfoldable pub remove_member : ℕ → ℕ → ℕ → MemberManager → Option MemberError × MemberManager
unfolding send_command
remove_member now r u mm = elim (get r mm.room_members) [
  | none ↦ (some room_not_found, mm)
  | some s ↦
      if is_some (get u s.members)
      then (none, send_command (del_member r u) (remove_from_set now r u s mm))
      else (some user_not_found, mm)
]

-- `GetMemberCount`
unfoldable pub get_member_count : ℕ → MemberManager → ℕ
get_member_count r mm = elim (get r mm.room_members) [ none ↦ 0 | some s ↦ s.count ]
