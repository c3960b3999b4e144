-- ===== src/Connection/RoomManager/Consistent.antt =====
-- connection/room_manager.go: the member count, the members and the status of a room.
use live_chat_room.Prelude.{
  ℕ, suc, ◌+◌, ◌-◌, ◌%◌, ◌^◌, ◌≤◌, ◌<◌, ◌≡◌, refl, sym, ap, ◌∙◌, ◌⊎◌, inl, inr, true, false, not,
  ◌&&◌, Option, some, List, [], ◌∷◌, if◌then◌else◌, ltb, leb, ◌==◌, same, length, is_some, All,
  arith, Bool-cases, if_cases,
}
use mathlib.Core.Path.{subst}
use mathlib.Core.Option.{some_inj}
use live_chat_room.Message.Envelope.{Bytes}
use live_chat_room.Pending.{find, delete, insert}
use live_chat_room.Pending.Queues.{IsFresh, IsDistinct, IsDistinct-insert, IsDistinct-delete}
use live_chat_room.Connection.RoomManager.{
  RoomStatus, status_open, status_closed, status_full, Room, RoomError, find_room, put_room,
  has_member, is_closed, is_full, join, leave, close, live_rooms, is_expired,
}

module _ {P : Type 0} where
  pub find-none : (k : Bytes) (ps : List (Bytes × P)) → is_some (find k ps) ≡ false → IsFresh k ps
  unfolding find
  find-none k [] e = tt
  find-none k ((j, q) ∷ ps) e = elim (Bool-cases (same j k)) [
    | inl h ↦ let q : true ≡ false = rw h at e in cc
    | inr h ↦ (h, find-none k ps (rw h at e))
  ]

  pub length-insert :
      (k : Bytes) (p : P) (ps : List (Bytes × P))
      → IsFresh k ps
      → length (insert k p ps) ≡ suc (length ps)
  unfolding insert
  length-insert k p [] f = refl
  length-insert k p ((j, q) ∷ ps) f = rw f.0 (ap suc (length-insert k p ps f.1))

  pub length-delete :
      (k : Bytes) (ps : List (Bytes × P))
      → is_some (find k ps) ≡ true
      → suc (length (delete k ps)) ≡ length ps
  unfolding find delete
  length-delete k [] e = cc
  length-delete k ((j, q) ∷ ps) e = elim (Bool-cases (same j k)) [
    | inl h ↦ rw h refl
    | inr h ↦ rw h (ap suc (length-delete k ps (rw h at e)))
  ]

-- What a status says of the count of members and the maximum
abbrev pub StatusFits : RoomStatus → ℕ → ℕ → Type 0
StatusFits status_open count most = (count < most) ⊎ (count ≡ 0)
StatusFits status_closed count most = count ≡ 0
StatusFits status_full count most = count ≡ most

unfoldable pub IsConsistent : Room → Type 0
IsConsistent room =
    IsDistinct room.members
    × (room.member_count ≡ length room.members)
    × (room.member_count ≤ room.max_members)
    × (room.max_members < 2 ^ 32)
    × StatusFits room.status room.member_count room.max_members

pub still_open : (s : RoomStatus) → is_closed s ≡ false → is_full s ≡ false → s ≡ status_open
unfolding is_closed is_full
still_open status_open a b = refl
still_open status_closed a b = cc
still_open status_full a b = cc

reopened :
    (s : RoomStatus) (count most : ℕ)
    → StatusFits s (suc count) most
    → suc count ≤ most
    → StatusFits (if is_full s && ltb count most then status_open else s) count most
unfolding is_full
reopened status_open count most f h = inl (omega arith)
reopened status_closed count most f h = absurd (omega arith)
reopened status_full count most f h =
    let e : ltb count most ≡ true = ground arith in rw e (inl (omega arith))

module _ (now : ℕ) (conn : Bytes) (room : Room) (c : IsConsistent room) where
  added :
      (s : RoomStatus)
      → s ≡ status_open
      → has_member conn room ≡ false
      → room.member_count < room.max_members
      → IsConsistent (record room {
        members = insert conn tt room.members;
        member_count = (room.member_count + 1) % 2 ^ 32;
        last_activity = now;
        updated_at = now;
        status = if leb room.max_members ((room.member_count + 1) % 2 ^ 32) then status_full else s;
      })
  unfolding IsConsistent has_member
  added s e h less =
      let (d, l, m, w, _) = c in
      let f = find-none conn room.members h in
      let n : (room.member_count + 1) % 2 ^ 32 ≡ room.member_count + 1 = omega arith in
      rw (e, n)
        (
          IsDistinct-insert conn tt room.members f d,
          omega (arith, length-insert conn tt room.members f),
          omega arith,
          w,
          elim (Bool-cases (leb room.max_members (room.member_count + 1))) [
            | inl g ↦ rw g (ground arith)
            | inr g ↦ rw g (inl (ground arith))
          ],
        )

  fills :
      leb room.max_members room.member_count ≡ true
      → IsConsistent (record room { status = status_full })
  unfolding IsConsistent
  fills e = let (d, l, m, w, _) = c in (d, l, m, w, ground arith)

  abbrev Keeps : Option RoomError × Room → Type 0
  Keeps result = IsConsistent result.1

  pub join-IsConsistent : (password : Bytes) → Keeps (join now conn password room)
  unfolding join
  join-IsConsistent password =
      if_cases Keeps (is_closed room.status) (λ e. c)
        (λ open'.
          if_cases Keeps (is_full room.status) (λ e. c)
            (λ free.
              if_cases Keeps (not (same room.password []) && not (same room.password password))
                (λ e. c)
                (λ known.
                  if_cases Keeps (has_member conn room) (λ e. c)
                    (λ new. if_cases Keeps (leb room.max_members room.member_count) fills (λ less.
                      added room.status (still_open room.status open' free) new (ground arith))))))

  removed :
      has_member conn room ≡ true
      → IsConsistent (record room {
        members = delete conn room.members;
        member_count = (room.member_count + (2 ^ 32 - 1)) % 2 ^ 32;
        last_activity = now;
        updated_at = now;
        status =
            if is_full room.status
              && ltb ((room.member_count + (2 ^ 32 - 1)) % 2 ^ 32) room.max_members
            then status_open
            else room.status;
      })
  unfolding IsConsistent has_member
  removed e =
      let (d, l, m, w, s) = c in
      let k = length (delete conn room.members) in
      let g : suc k ≡ room.member_count = length-delete conn room.members e ∙ sym l in
      let n : (room.member_count + (2 ^ 32 - 1)) % 2 ^ 32 ≡ k = omega arith in
      rw n (
        IsDistinct-delete conn room.members d,
        refl,
        omega arith,
        w,
        reopened room.status k room.max_members
            (subst (λ i. StatusFits room.status i room.max_members) (sym g) s) (omega arith),
      )

  pub leave-IsConsistent : Keeps (leave now conn room)
  unfolding leave
  leave-IsConsistent =
      if_cases Keeps (not (has_member conn room)) (λ e. c) (λ e. removed (ground arith))

  pub close-IsConsistent : (creator_id : ℕ) → Keeps (close now creator_id room)
  unfolding close IsConsistent
  close-IsConsistent creator_id =
      if_cases Keeps (not (room.creator_id == creator_id)) (λ e. c)
        (λ e. (tt, refl, omega arith, c.3, refl))

-- Every room of a table is consistent.
abbrev pub AllConsistent : List (ℕ × Room) → Type 0
AllConsistent rooms = All (λ e. IsConsistent e.1) rooms

pub find_room-IsConsistent :
    (r : ℕ) (rooms : List (ℕ × Room)) {room : Room}
    → AllConsistent rooms
    → find_room r rooms ≡ some room
    → IsConsistent room
unfolding find_room
find_room-IsConsistent r [] a e = cc
find_room-IsConsistent r ((i, old) ∷ rooms) {room} a e = elim (Bool-cases (i == r)) [
  | inl h ↦ subst IsConsistent (some_inj.0 (rw h at e)) a.0
  | inr h ↦ find_room-IsConsistent r rooms {room = room} a.1 (rw h at e)
]

pub put_room-AllConsistent :
    (r : ℕ) (room : Room) (rooms : List (ℕ × Room))
    → IsConsistent room
    → AllConsistent rooms
    → AllConsistent (put_room r room rooms)
unfolding put_room
put_room-AllConsistent r room [] c a = (c, tt)
put_room-AllConsistent r room ((i, old) ∷ rooms) c a =
    if_cases AllConsistent (i == r) (λ e. (c, a.1))
      (λ e. (a.0, put_room-AllConsistent r room rooms c a.1))

pub live_rooms-AllConsistent :
    (now : ℕ) (rooms : List (ℕ × Room)) → AllConsistent rooms → AllConsistent (live_rooms now rooms)
unfolding live_rooms
live_rooms-AllConsistent now [] a = tt
live_rooms-AllConsistent now ((r, room) ∷ rooms) a =
    let rest = live_rooms-AllConsistent now rooms a.1 in
    if_cases AllConsistent (is_expired now room) (λ e. rest) (λ e. (a.0, rest))
