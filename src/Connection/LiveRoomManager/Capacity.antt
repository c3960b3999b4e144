-- ===== src/Connection/LiveRoomManager/Capacity.antt =====
-- connection/live_room_manager.go: the counts of players and viewers, and the members.
use mathlib.Core.Option.{some_inj}
use live_chat_room.Prelude.{
  ℕ, zero, suc, ◌+◌, ◌≤◌, ◌<◌, true, false, Option, none, some, List, [], ◌∷◌, ◌≡◌, refl, sym, ap,
  subst, ◌∙◌, arith, if_cases, if-true, if-false, ◌==◌, ==_self, Bool-cases, Option-cases, inl, inr,
  is_some, leb, get, put, get-put,
}
use live_chat_room.Message.Envelope.{Bytes}
use live_chat_room.Connection.MemberManager.{
  LiveMember, MemberSet, MemberManager, or_empty, refreshed, set_member, role_player, send_command,
  add_to_set, add_member, get_member_count,
}
use live_chat_room.Connection.MemberManager.Counted.{members_of, has_member}
use live_chat_room.Connection.LiveRoomManager.{
  LiveRoomConfig, GameRoom, LiveRoomManager, new_live_room_manager, create_live_room,
  create_game_room, JoinError, game_room_full, join_as_viewer, admit_player, join_as_player,
  set_room_ttl, new_member, base_room,
}

count_at :
    (r : ℕ) (mm : MemberManager) {s : MemberSet}
    → get r mm.room_members ≡ some s
    → get_member_count r mm ≡ s.count
unfolding get_member_count
count_at r mm {s} e = ap (λ (o : Option MemberSet). elim o [ none ↦ 0 | some s ↦ s.count ]) e

-- Adding a member again.
module _ (now r : ℕ) (member : LiveMember) (mm : MemberManager) where
  abbrev set_again : MemberSet → LiveMember → MemberSet
  set_again s old = record s {
    members = put member.user_id (refreshed old member) s.members;
    last_update = now;
    hot_members = put member.user_id true s.hot_members;
  }

  added :
      (s : MemberSet) (old : LiveMember)
      → get member.user_id s.members ≡ some old
      → get r (send_command (set_member r member) (add_to_set now r member s mm)).room_members
        ≡ some (set_again s old)
  unfolding send_command add_to_set
  added s old f =
      rw (f, add_to_set) (get-put r r (set_again s old) mm.room_members ∙ if-true _ _ (==_self r))

  add_again :
      has_member r member.user_id mm ≡ true
      → (get_member_count r (add_member now r member mm) ≡ get_member_count r mm)
        × (has_member r member.user_id (add_member now r member mm) ≡ true)
  unfolding add_member get_member_count or_empty get
  add_again h = elim (Option-cases (get r mm.room_members)) [
    | inl e ↦
        let no_one : false ≡ true =
          sym (ap (λ (o : Option MemberSet). is_some (get member.user_id (members_of o))) e) ∙ h in
        cc
    | inr (s, e) ↦ elim (Option-cases (get member.user_id s.members)) [
      | inl f ↦
          let no_one : false ≡ true =
            sym (
              ap (λ (o : Option MemberSet). is_some (get member.user_id (members_of o))) e
              ∙ ap is_some f)
            ∙ h in
          cc
      | inr (old, f) ↦
          let again : get r (add_member now r member mm).room_members ≡ some (set_again s old) =
            ap
              (λ (o : Option MemberSet).
                get r
                  (send_command (set_member r member)
                    (add_to_set now r member (or_empty now o) mm)).room_members)
              e
            ∙ added s old f in
          (
            count_at r (add_member now r member mm) again ∙ sym (count_at r mm e),
            ap (λ (o : Option MemberSet). is_some (get member.user_id (members_of o))) again
                ∙ ap is_some (
                    get-put member.user_id member.user_id (refreshed old member) s.members
                    ∙ if-true _ _ (==_self member.user_id)),
          )
    ]
  ]

-- The game room that a user joins once more.
abbrev pub counted_once_more : ℕ → GameRoom → GameRoom
counted_once_more now game = record game {
  room = record game.room { member_count = game.room.member_count + 1; last_activity = now };
  last_state_update = now;
}

module _ (now r user login : ℕ) (conn : Bytes) (lrm : LiveRoomManager) (game : GameRoom)
    (known : get r lrm.game_rooms ≡ some game) where
  join_as_player_full :
      game.room.max_members ≤ game.room.member_count
      → join_as_player now r user login conn lrm ≡ (some game_room_full, lrm)
  unfolding join_as_player
  join_as_player_full h =
      rw (known, join_as_player)
        (if-true {b = leb game.room.max_members game.room.member_count} _ _ (ground arith))

  join_as_player_open :
      game.room.member_count < game.room.max_members
      → join_as_player now r user login conn lrm
        ≡ (none, admit_player now r user login conn game lrm)
  unfolding join_as_player
  join_as_player_open h =
      rw (known, join_as_player)
        (if-false {b = leb game.room.max_members game.room.member_count} _ _ (ground arith))

  admitted :
      get r (admit_player now r user login conn game lrm).game_rooms
      ≡ some (counted_once_more now game)
  unfolding admit_player set_room_ttl
  admitted = get-put r r (counted_once_more now game) lrm.game_rooms ∙ if-true _ _ (==_self r)

  -- A user who is a member already is counted once more as a player, and the members stay as many.
  admitted_again :
      has_member r user lrm.member_manager ≡ true
      → let mm = (admit_player now r user login conn game lrm).member_manager in
        (get_member_count r mm ≡ get_member_count r lrm.member_manager)
        × (has_member r user mm ≡ true)
  unfolding admit_player set_room_ttl new_member
  admitted_again h =
      add_again now r (new_member now user login conn role_player false true 10) lrm.member_manager
        h

-- The same user joins `n` times.
unfoldable pub join_times : ℕ → ℕ → ℕ → ℕ → ℕ → Bytes → LiveRoomManager → LiveRoomManager
join_times zero now r user login conn lrm = lrm
join_times (suc n) now r user login conn lrm =
    join_times n now r user login conn (join_as_player now r user login conn lrm).1

-- The room is full for every user, with `members` members.
abbrev pub IsFilled : ℕ → ℕ → LiveRoomManager → Type 0
IsFilled r members full =
    (get_member_count r full.member_manager ≡ members)
    × ((later user login : ℕ) (conn : Bytes)
        → join_as_player later r user login conn full ≡ (some game_room_full, full))

-- A user who is a member of a game room and joins it again fills a place each time: after as many joins
-- as places are left the room is full for every other user, though it has no more members than before.
pub join_times_fills :
    (n now r user login : ℕ) (conn : Bytes) (lrm : LiveRoomManager) (game : GameRoom)
    → get r lrm.game_rooms ≡ some game
    → has_member r user lrm.member_manager ≡ true
    → game.room.member_count + n ≡ game.room.max_members
    → IsFilled r (get_member_count r lrm.member_manager) (join_times n now r user login conn lrm)
unfolding join_times
join_times_fills zero now r user login conn lrm game known member h = (
  refl,
  λ later other its_login its_conn.
      join_as_player_full later r other its_login its_conn lrm game known (omega arith),
)
join_times_fills (suc n) now r user login conn lrm game known member h =
    let next = admit_player now r user login conn game lrm in
    let (same_count, still) = admitted_again now r user login conn lrm game known member in
    let rest =
      join_times_fills n now r user login conn next (counted_once_more now game)
        (admitted now r user login conn lrm game known) still (omega arith) in
    let step =
      ap (λ (x : Option JoinError × LiveRoomManager). x.1)
        (join_as_player_open now r user login conn lrm game known (omega arith)) in
    subst
      (λ (m : LiveRoomManager).
        IsFilled r (get_member_count r lrm.member_manager) (join_times n now r user login conn m))
      (sym step) (rest.0 ∙ same_count, rest.1)

-- The operations on live and game rooms.
pub data LiveStep : Type 0 where
  live : (now r creator_id streamer_id : ℕ) (title category : Bytes) → LiveStep
  game : (now r creator_id : ℕ) (game_type game_mode map_name : Bytes) → LiveStep
  viewer player : (now r user_id login_id : ℕ) (conn_id : Bytes) → LiveStep

unfoldable pub live_step : LiveStep → LiveRoomManager → LiveRoomManager
live_step (live now r c s t k) lrm = create_live_room now r c s t k lrm
live_step (game now r c t m k) lrm = create_game_room now r c t m k lrm
live_step (viewer now r u l c) lrm = (join_as_viewer now r u l c lrm).1
live_step (player now r u l c) lrm = (join_as_player now r u l c lrm).1

unfoldable pub live_steps : List LiveStep → LiveRoomManager → LiveRoomManager
unfolding live_step
live_steps [] lrm = lrm
live_steps (s ∷ ss) lrm = live_steps ss (live_step s lrm)

-- No game room counts more players than it takes.
abbrev pub InCapacity : List (ℕ × GameRoom) → Type 0
InCapacity rooms =
    (r : ℕ) (g : GameRoom)
    → get r rooms ≡ some g
    → (g.room.member_count ≤ g.room.max_members) × (g.room.max_members ≡ 50)

InCapacity-put :
    (r : ℕ) (g : GameRoom) (rooms : List (ℕ × GameRoom))
    → g.room.member_count ≤ g.room.max_members
    → g.room.max_members ≡ 50
    → InCapacity rooms
    → InCapacity (put r g rooms)
InCapacity-put r g rooms h k v q f e = elim (Bool-cases (r == q)) [
  | inl s ↦
      let same_room : g ≡ f = some_inj.0 (sym (if-true _ _ s) ∙ (sym (get-put q r g rooms) ∙ e)) in
      subst
        (λ (x : GameRoom). (x.room.member_count ≤ x.room.max_members) × (x.room.max_members ≡ 50))
        same_room (h, k)
  | inr s ↦ v q f (sym (if-false _ _ s) ∙ (sym (get-put q r g rooms) ∙ e))
]

module _ (now r user login : ℕ) (conn : Bytes) (lrm : LiveRoomManager)
    (v : InCapacity lrm.game_rooms) where
  viewer-InCapacity : InCapacity (join_as_viewer now r user login conn lrm).1.game_rooms
  unfolding join_as_viewer set_room_ttl
  viewer-InCapacity = elim (Option-cases (get r lrm.live_rooms)) [
    | inl e ↦ rw (e, join_as_viewer) v
    | inr (g, e) ↦ rw (e, join_as_viewer) v
  ]

  player-InCapacity : InCapacity (join_as_player now r user login conn lrm).1.game_rooms
  unfolding join_as_player admit_player set_room_ttl
  player-InCapacity = elim (Option-cases (get r lrm.game_rooms)) [
    | inl e ↦ rw (e, join_as_player) v
    | inr (g, e) ↦
        rw (e, join_as_player)
          (if_cases (λ (x : Option JoinError × LiveRoomManager). InCapacity x.1.game_rooms)
            (leb g.room.max_members g.room.member_count) (λ h. v)
            (λ h.
              InCapacity-put r (counted_once_more now g) lrm.game_rooms (ground arith) (v r g e).1
                v))
  ]

live_step-InCapacity :
    (s : LiveStep) (lrm : LiveRoomManager)
    → InCapacity lrm.game_rooms
    → InCapacity (live_step s lrm).game_rooms
unfolding live_step create_live_room create_game_room set_room_ttl base_room
live_step-InCapacity (live now r c s t k) lrm v = v
live_step-InCapacity (game now r c t m k) lrm v =
    InCapacity-put r _ lrm.game_rooms (omega arith) refl v
live_step-InCapacity (viewer now r u l c) lrm v = viewer-InCapacity now r u l c lrm v
live_step-InCapacity (player now r u l c) lrm v = player-InCapacity now r u l c lrm v

steps-InCapacity :
    (ss : List LiveStep) (lrm : LiveRoomManager)
    → InCapacity lrm.game_rooms
    → InCapacity (live_steps ss lrm).game_rooms
unfolding live_steps
steps-InCapacity [] lrm v = v
steps-InCapacity (s ∷ ss) lrm v =
    steps-InCapacity ss (live_step s lrm) (live_step-InCapacity s lrm v)

-- Whatever rooms are created and joined on a new manager, in any order, no game room ever counts more than
-- its 50 players.
pub live_steps-InCapacity :
    (config : Option LiveRoomConfig) (ss : List LiveStep)
    → InCapacity (live_steps ss (new_live_room_manager config)).game_rooms
unfolding new_live_room_manager get
live_steps-InCapacity config ss = steps-InCapacity ss (new_live_room_manager config) (λ r g e. cc)
