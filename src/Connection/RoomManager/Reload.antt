-- ===== src/Connection/RoomManager/Reload.antt =====
-- connection/room_manager.go: a room that comes back from Redis.
use live_chat_room.Prelude.{
  ℕ, ◌<◌, ◌≡◌, refl, ap, false, none, some, List, [], ◌∷◌, ◌==◌, arith, Bool-cases, inl, inr,
  ==_self,
}
use live_chat_room.Message.Envelope.{Bytes}
use live_chat_room.Pending.{find}
use live_chat_room.Connection.RoomManager.{
  Room, not_in_room, RoomManager, find_room, put_room, has_member, load_room_from_redis,
  keep_loaded, get_room, store_room, on_room, leave, leave_room, is_closed, is_expired,
}

-- The room as Redis gives it back
abbrev pub reloaded : Room → Room
reloaded room = record room { members = [] }

put_room-again :
    (r : ℕ) (room : Room) (rooms : List (ℕ × Room))
    → put_room r room (put_room r room rooms) ≡ put_room r room rooms
unfolding put_room
put_room-again r room [] = rw (==_self r) refl
put_room-again r room ((i, old) ∷ rooms) = elim (Bool-cases (i == r)) [
  | inl e ↦ rw (e, e) refl
  | inr e ↦ rw (e, e) (ap (λ l. (i, old) ∷ l) (put_room-again r room rooms))
]

-- When a room that counts members is read back from Redis, no connection can leave it: the answer is
-- that it is not in the room, and the room is as it was read. However late it is, the cleanup then
-- removes the room only if it is closed.
pub reloaded_keeps :
    (now later : ℕ) (room : Room) (r : ℕ) (conn : Bytes) (rm : RoomManager)
    → find_room r rm.rooms ≡ none
    → 0 < room.member_count
    → (leave_room now (some room) r conn rm
        ≡ (some not_in_room, record rm { rooms = put_room r (reloaded room) rm.rooms }))
      × (is_expired later (reloaded room) ≡ is_closed room.status)
unfolding leave_room leave on_room get_room keep_loaded load_room_from_redis store_room has_member
    find is_expired
reloaded_keeps now later room r conn rm h pos =
    let e : (room.member_count == 0) ≡ false = ground arith in
    (rw (h, put_room-again r (reloaded room) rm.rooms) refl, rw e refl)
