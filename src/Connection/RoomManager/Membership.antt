-- ===== src/Connection/RoomManager/Membership.antt =====
-- connection/room_manager.go: joining and leaving.
use live_chat_room.Prelude.{
  ℕ, ◌+◌, ◌-◌, ◌%◌, ◌^◌, ◌<◌, ◌≡◌, refl, ap, ◌⊎◌, inl, inr, ◌↔◌, true, false, not, ◌&&◌, Option,
  none, List, [], ◌∷◌, if◌then◌else◌, ltb, leb, same, same_self, same_iff, arith, Bool-cases,
  if_cases,
}
use live_chat_room.Message.Envelope.{Bytes}
use live_chat_room.Pending.{delete, insert}
use live_chat_room.Pending.Queues.{IsFresh, find-insert}
use live_chat_room.Connection.RoomManager.{
  status_open, status_full, Room, RoomError, has_member, is_closed, is_full, join, leave,
}
use live_chat_room.Connection.RoomManager.Consistent.{IsConsistent, find-none, still_open}

delete-insert :
    {P : Type 0} (k : Bytes) (p : P) (ps : List (Bytes × P))
    → IsFresh k ps
    → delete k (insert k p ps) ≡ ps
unfolding delete insert
delete-insert k p [] f = rw (same_self k) refl
delete-insert k p ((j, q) ∷ ps) f = rw (f.0, f.0) (ap (λ l. (j, q) ∷ l) (delete-insert k p ps f.1))

-- Whom a room lets in
abbrev pub Admits : Bytes → Bytes → Room → Type 0
Admits conn password room =
    (room.status ≡ status_open)
    × ((room.password ≡ []) ⊎ (room.password ≡ password))
    × (has_member conn room ≡ false)
    × (room.member_count < room.max_members)

-- The room after a join
abbrev pub joined : ℕ → Bytes → Room → Room
joined now conn room = record room {
  members = insert conn tt room.members;
  member_count = (room.member_count + 1) % 2 ^ 32;
  last_activity = now;
  updated_at = now;
  status =
      if leb room.max_members ((room.member_count + 1) % 2 ^ 32) then status_full else room.status;
}

module _ (now : ℕ) (conn password : Bytes) (room : Room) where
  knows :
      (not (same room.password []) && not (same room.password password)) ≡ false
      → (room.password ≡ []) ⊎ (room.password ≡ password)
  knows e = elim (Bool-cases (same room.password [])) [
    | inl h ↦ inl ((same_iff room.password []).0 h)
    | inr h ↦ inr ((same_iff room.password password).0 (ground arith))
  ]

  join-admitted :
      Admits conn password room → join now conn password room ≡ (none, joined now conn room)
  unfolding join is_closed is_full
  join-admitted (s, p, m, l) =
      let e1 : is_closed room.status ≡ false = rw s refl in
      let e2 : is_full room.status ≡ false = rw s refl in
      let e3 : (not (same room.password []) && not (same room.password password)) ≡ false = elim p [
        | inl q ↦ rw ((same_iff room.password []).1 q) refl
        | inr q ↦ ground (arith, (same_iff room.password password).1 q)
      ] in
      let e4 : leb room.max_members room.member_count ≡ false = ground arith in
      rw (e1, e2, e3, m, e4) refl

  join-Admits : (join now conn password room).0 ≡ none → Admits conn password room
  unfolding join
  join-Admits =
      let Q : Option RoomError × Room → Type 0 = λ x. x.0 ≡ none → Admits conn password room in
      if_cases Q (is_closed room.status) (λ e h. cc)
        (λ open'.
          if_cases Q (is_full room.status) (λ e h. cc)
            (λ free.
              if_cases Q (not (same room.password []) && not (same room.password password))
                (λ e h. cc)
                (λ known.
                  if_cases Q (has_member conn room) (λ e h. cc)
                    (λ new.
                      if_cases Q (leb room.max_members room.member_count) (λ e h. cc)
                        (λ less h.
                          (still_open room.status open' free, knows known, new, ground arith))))))

  -- A connection gets into a room exactly when the room is open, without a password or given the
  -- right one, the connection is not in it, and it has fewer members than its maximum; it is then in
  -- the room, which counts one more and is full at the maximum.
  pub join_iff :
      IsConsistent room
      → (((join now conn password room).0 ≡ none) ↔ Admits conn password room)
        × (((join now conn password room).0 ≡ none)
            ↔ (join now conn password room ≡ (none, joined now conn room)))
        × (has_member conn (joined now conn room) ≡ true)
  unfolding has_member
  join_iff c = (
    (join-Admits, λ a. ap (λ x. x.0) (join-admitted a)),
    (λ h. join-admitted (join-Admits h), λ e. ap (λ x. x.0) e),
    rw (find-insert conn tt room.members) refl,
  )

-- A connection that is let in and leaves leaves the room as it was, but for its times.
pub leave-join :
    (now later : ℕ) (conn password : Bytes) (room : Room)
    → IsConsistent room
    → Admits conn password room
    → leave later conn (join now conn password room).1
      ≡ (none, record room { last_activity = later; updated_at = later })
unfolding leave has_member IsConsistent is_full
leave-join now later conn password room (d, l, m, w, _) admitted =
    let (s, _, new, less) = admitted in
    let f = find-none conn room.members new in
    let e1 : (room.member_count + 1) % 2 ^ 32 ≡ room.member_count + 1 = omega arith in
    let e2 : (room.member_count + 1 + (2 ^ 32 - 1)) % 2 ^ 32 ≡ room.member_count = omega arith in
    let e3 : ltb room.member_count room.max_members ≡ true = ground arith in
    elim (Bool-cases (leb room.max_members (room.member_count + 1))) [
      | inl g ↦
          rw
            (
              join-admitted now conn password room admitted,
              find-insert conn tt room.members,
              delete-insert conn tt room.members f,
              e1,
              e2,
              g,
              e3,
              s,
            )
            refl
      | inr g ↦
          rw
            (
              join-admitted now conn password room admitted,
              find-insert conn tt room.members,
              delete-insert conn tt room.members f,
              e1,
              e2,
              g,
              s,
            )
            refl
    ]
