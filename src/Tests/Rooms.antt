-- ===== src/Tests/Rooms.antt =====
-- connection/room_manager.go: runs, and the theorems at concrete rooms.
use live_chat_room.Prelude.{
  ◌≡◌, ◌↔◌, refl, inl, inr, true, none, some, List, [], ◌∷◌, arith, All, same,
}
use live_chat_room.Pending.{find, insert, delete}
use live_chat_room.Connection.RoomManager.{
  status_open, Room, not_in_room, new_room_manager, find_room, put_room, has_member, new_room,
  create_room, keep_loaded, get_room, store_room, on_room, is_closed, is_full, join, join_room,
  leave, leave_room, close, close_room, is_expired, live_rooms, cleanup_empty_rooms,
}
use live_chat_room.Connection.RoomManager.Consistent.{IsConsistent, AllConsistent}
use live_chat_room.Connection.RoomManager.Run.{
  Call, create, enter, exit, shut, clean, call, run, IsFair, run-AllConsistent,
}
use live_chat_room.Connection.RoomManager.Membership.{Admits, joined, join_iff, leave-join}
use live_chat_room.Connection.RoomManager.Reload.{reloaded, reloaded_keeps}

-- A room for two, with one connection in it
abbrev small_room : Room
small_room = record {
  id = 7;
  name = b'r' ∷ [];
  creator_id = 1;
  max_members = 2;
  password = b'p' ∷ [];
  created_at = 5;
  updated_at = 6;
  status = status_open;
  member_count = 1;
  last_activity = 6;
  members = ((b'a' ∷ []), tt) ∷ [];
}

small_room-IsConsistent : IsConsistent small_room
unfolding IsConsistent
small_room-IsConsistent = ((tt, tt), refl, omega arith, omega arith, inl (omega arith))

-- Two connections fill a room, a third is refused, one leaves, the creator closes the room, and the
-- cleanup removes it.
abbrev busy : List Call
busy =
    create 0 7 (b'r' ∷ []) 1 2 []
    ∷ enter 1 none 7 (b'a' ∷ []) []
    ∷ enter 2 none 7 (b'b' ∷ []) []
    ∷ enter 3 none 7 (b'c' ∷ []) []
    ∷ exit 4 none 7 (b'a' ∷ [])
    ∷ shut 5 none 7 1
    ∷ clean 6
    ∷ []

busy_cleans : (run busy (new_room_manager 9)).rooms ≡ []
unfolding run call new_room_manager create_room new_room join_room leave_room close_room on_room
    get_room keep_loaded store_room find_room put_room join leave close is_closed is_full has_member
    same find insert delete cleanup_empty_rooms live_rooms is_expired
busy_cleans = refl

busy-IsFair : All IsFair busy
unfolding IsFair
busy-IsFair = (omega arith, (tt, (tt, (tt, (tt, (tt, (tt, tt)))))))

run-AllConsistent_example : AllConsistent (run busy (new_room_manager 9)).rooms
run-AllConsistent_example = run-AllConsistent 9 busy busy-IsFair

join_iff_example :
    (((join 8 (b'b' ∷ []) (b'p' ∷ []) small_room).0 ≡ none)
      ↔ Admits (b'b' ∷ []) (b'p' ∷ []) small_room)
    × (((join 8 (b'b' ∷ []) (b'p' ∷ []) small_room).0 ≡ none)
        ↔ (join 8 (b'b' ∷ []) (b'p' ∷ []) small_room ≡ (none, joined 8 (b'b' ∷ []) small_room)))
    × (has_member (b'b' ∷ []) (joined 8 (b'b' ∷ []) small_room) ≡ true)
join_iff_example = join_iff 8 (b'b' ∷ []) (b'p' ∷ []) small_room small_room-IsConsistent

admitted : Admits (b'b' ∷ []) (b'p' ∷ []) small_room
unfolding has_member find same
admitted = (refl, inr refl, refl, omega arith)

leave-join_example :
    leave 9 (b'b' ∷ []) (join 8 (b'b' ∷ []) (b'p' ∷ []) small_room).1
    ≡ (none, record small_room { last_activity = 9; updated_at = 9 })
leave-join_example =
    leave-join 8 9 (b'b' ∷ []) (b'p' ∷ []) small_room small_room-IsConsistent admitted

no_room : find_room 7 (new_room_manager 9).rooms ≡ none
unfolding find_room new_room_manager
no_room = refl

reloaded_keeps_example :
    (leave_room 8 (some small_room) 7 (b'a' ∷ []) (new_room_manager 9) ≡ (
      some not_in_room,
      record (new_room_manager 9) {
        rooms = put_room 7 (reloaded small_room) (new_room_manager 9).rooms;
      },
    ))
    × (is_expired 900000 (reloaded small_room) ≡ is_closed small_room.status)
reloaded_keeps_example =
    reloaded_keeps 8 900000 small_room 7 (b'a' ∷ []) (new_room_manager 9) no_room (omega arith)
