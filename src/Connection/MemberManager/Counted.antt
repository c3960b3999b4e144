-- ===== src/Connection/MemberManager/Counted.antt =====
-- connection/live_room_manager.go: the counts and the two indices of the members.
use mathlib.Core.Option.{some_inj}
use live_chat_room.Prelude.{
  ℕ, ◌+◌, ◌-◌, ◌≤◌, Bool, false, Option, none, some, List, [], ◌∷◌, ◌++◌, ◌≡◌, refl, sym, ap, subst,
  ◌∙◌, arith, if◌then◌else◌, if_cases, if-true, if-false, ◌==◌, ==_iff, ==_self, Bool-cases,
  Option-cases, inl, inr, is_some, length, get, put, erase, IsMap, get-put, get-erase, IsMap-put,
  IsMap-erase, length-put_new, length-put_old, length-erase,
}
use live_chat_room.Connection.MemberManager.{
  LiveMember, MemberSet, MemberCommand, MemberManager, new_memory_member_manager, empty_set,
  or_empty, set_user, refreshed, send_command, add_to_set, add_member, remove_room, remove_from_set,
  remove_member,
}

-- A room's members in the table.
abbrev pub members_of : Option MemberSet → List (ℕ × LiveMember)
members_of none = []
members_of (some s) = s.members

abbrev pub has_member : ℕ → ℕ → MemberManager → Bool
has_member r u mm = is_some (get u (members_of (get r mm.room_members)))

abbrev pub one_if : Bool → ℕ
one_if b = if b then 1 else 0

abbrev pub occurrences : ℕ → List ℕ → ℕ
occurrences r [] = 0
occurrences r (s ∷ rooms) = (one_if (s == r)) + occurrences r rooms

abbrev pub sum_counts : List (ℕ × MemberSet) → ℕ
sum_counts [] = 0
sum_counts ((r, s) ∷ m) = s.count + sum_counts m

-- The members of a set, counted.
pub record IsCountedSet (s : MemberSet) : Type 0 where
  pub is_map : IsMap s.members
  pub counted : s.count ≡ length s.members

-- The manager's two indices and its counts agree.
pub record IsCounted (mm : MemberManager) : Type 0 where
  pub is_map : IsMap mm.room_members
  pub sets : (r : ℕ) (s : MemberSet) → get r mm.room_members ≡ some s → IsCountedSet s
  pub total : mm.total_members ≡ sum_counts mm.room_members
  pub index : (r u : ℕ) → occurrences r (mm.user_rooms u) ≡ (one_if (has_member r u mm))

pub new-IsCounted : (b : Bool) → IsCounted (new_memory_member_manager b)
unfolding new_memory_member_manager get
new-IsCounted b = record { is_map = tt; sets = λ r s e. cc; total = refl; index = λ r u. refl }

occurrences-append :
    (r s : ℕ) (rooms : List ℕ)
    → occurrences r (rooms ++ (s ∷ [])) ≡ occurrences r rooms + (one_if (s == r))
occurrences-append r s [] = omega arith
occurrences-append r s (t ∷ rooms) = omega (arith, occurrences-append r s rooms)

occurrences-remove_room :
    (r s : ℕ) (rooms : List ℕ)
    → occurrences r (remove_room s rooms) ≡ occurrences r rooms - (one_if (s == r))
unfolding remove_room
occurrences-remove_room r s [] = omega arith
occurrences-remove_room r s (t ∷ rooms) = ground (arith, occurrences-remove_room r s rooms)

set_user_self : (u : ℕ) (rooms : List ℕ) (table : ℕ → List ℕ) → set_user u rooms table u ≡ rooms
unfolding set_user
set_user_self u rooms table = if-true _ _ (==_self u)

set_user_other :
    (u w : ℕ) (rooms : List ℕ) (table : ℕ → List ℕ)
    → (u == w) ≡ false
    → set_user u rooms table w ≡ table w
unfolding set_user
set_user_other u w rooms table h = if-false _ _ h

sum_counts_bound :
    (r : ℕ) (m : List (ℕ × MemberSet)) {s : MemberSet} → get r m ≡ some s → s.count ≤ sum_counts m
unfolding get
sum_counts_bound r [] e = cc
sum_counts_bound r ((t, u) ∷ m) {s} e = ground (arith, sum_counts_bound r m {s = s})

sum_counts-put :
    (r : ℕ) (s : MemberSet) (m : List (ℕ × MemberSet))
    → sum_counts (put r s m) + (or_empty 0 (get r m)).count ≡ sum_counts m + s.count
unfolding put get or_empty
sum_counts-put r s [] = omega arith
sum_counts-put r s ((t, u) ∷ m) = ground (arith, sum_counts-put r s m)

module _ (mm : MemberManager) (r : ℕ) (s' : MemberSet) (table : ℕ → List ℕ) (total : ℕ) where
  -- The set of one room replaced, and the other index and the total with it.
  abbrev replaced : MemberManager
  replaced = record mm {
    room_members = put r s' mm.room_members;
    user_rooms = table;
    total_members = total;
  }

  replaced-members :
      (q : ℕ)
      → members_of (get q (put r s' mm.room_members))
        ≡ (if r == q then s'.members else members_of (get q mm.room_members))
  replaced-members q =
      ap members_of (get-put q r s' mm.room_members)
      ∙ if_cases
          (λ (o : Option MemberSet).
            members_of o ≡ (if r == q then s'.members else members_of (get q mm.room_members)))
          (r == q) (λ e. rw e refl) (λ e. rw e refl)

  replaced-IsCounted :
      IsCounted mm
      → IsCountedSet s'
      → total + (or_empty 0 (get r mm.room_members)).count ≡ mm.total_members + s'.count
      → ((q u : ℕ)
          → occurrences q (table u) ≡ (
              one_if (
                is_some
                  (get u (if r == q then s'.members else members_of (get q mm.room_members))))))
      → IsCounted replaced
  replaced-IsCounted v vs ht hi = record {
    is_map = IsMap-put r s' _ v.is_map;
    sets = λ q s e.
        let e' = sym (get-put q r s' mm.room_members) ∙ e in
        elim (Bool-cases (r == q)) [
          | inl h ↦
              let same_set : s' ≡ s = some_inj.0 (sym (if-true _ _ h) ∙ e') in
              subst IsCountedSet same_set vs
          | inr h ↦ v.sets q s (sym (if-false _ _ h) ∙ e')
        ];
    total = omega (arith, ht, sum_counts-put r s' mm.room_members, v.total);
    index = λ q u.
        hi q u
        ∙ ap (λ (l : List (ℕ × LiveMember)). one_if (is_some (get u l))) (sym (replaced-members q));
  }

is_member :
    (u : ℕ) (member : LiveMember) (m : List (ℕ × LiveMember))
    → (one_if (is_some (get u (put u member m)))) ≡ 1
is_member u member m =
    ap (λ (o : Option LiveMember). one_if (is_some o))
      (get-put u u member m ∙ if-true _ _ (==_self u))

-- The set that an operation works on.
module _ (mm : MemberManager) (r now : ℕ) (v : IsCounted mm) where
  abbrev found_set : MemberSet
  found_set = or_empty now (get r mm.room_members)

  found_set-members : members_of (get r mm.room_members) ≡ found_set.members
  unfolding or_empty empty_set
  found_set-members = elim (Option-cases (get r mm.room_members)) [
    | inl e ↦ rw e refl
    | inr (s, e) ↦ rw e refl
  ]

  found_set-count : (or_empty 0 (get r mm.room_members)).count ≡ found_set.count
  unfolding or_empty empty_set
  found_set-count = elim (Option-cases (get r mm.room_members)) [
    | inl e ↦ rw e refl
    | inr (s, e) ↦ rw e refl
  ]

  found_set-IsCountedSet : IsCountedSet found_set
  unfolding or_empty empty_set
  found_set-IsCountedSet = elim (Option-cases (get r mm.room_members)) [
    | inl e ↦ rw e (record { is_map = tt; counted = refl })
    | inr (s, e) ↦ rw e (v.sets r s e)
  ]

  -- The membership of one user in a room after the change of its set.
  index_at :
      (s' : List (ℕ × LiveMember)) (table : ℕ → List ℕ) (u : ℕ)
      → ((w : ℕ)
          → (u == w) ≡ false
          → (table w ≡ mm.user_rooms w) × (get w s' ≡ get w found_set.members))
      → ((q : ℕ) → (r == q) ≡ false → occurrences q (table u) ≡ occurrences q (mm.user_rooms u))
      → occurrences r (table u) ≡ (one_if (is_some (get u s')))
      → (q w : ℕ)
      → occurrences q (table w)
        ≡ (one_if (is_some (get w (if r == q then s' else members_of (get q mm.room_members)))))
  index_at s' table u others elsewhere here q w = elim (Bool-cases (r == q)) [
    | inl e ↦ elim (Bool-cases (u == w)) [
      | inl h ↦
          let at_q = (==_iff r q).0 e in
          let at_w = (==_iff u w).0 h in
          rw e (
            subst (λ (q : ℕ). occurrences q (table w) ≡ (one_if (is_some (get w s')))) at_q
              (subst (λ (w : ℕ). occurrences r (table w) ≡ (one_if (is_some (get w s')))) at_w
                here))
      | inr h ↦
          let at_q = (==_iff r q).0 e in
          let (same_rooms, same_member) = others w h in
          rw (e, same_rooms, same_member)
            (v.index q w
              ∙ ap (λ (l : List (ℕ × LiveMember)). one_if (is_some (get w l)))
                  (ap (λ (q : ℕ). members_of (get q mm.room_members)) (sym at_q)
                    ∙ found_set-members))
    ]
    | inr e ↦ elim (Bool-cases (u == w)) [
      | inl h ↦ let at_w = (==_iff u w).0 h in rw (e, sym at_w) (elsewhere q e ∙ v.index q u)
      | inr h ↦ rw (e, (others w h).0) (v.index q w)
    ]
  ]

  add_to_set-IsCounted : (member : LiveMember) → IsCounted (add_to_set now r member found_set mm)
  unfolding add_to_set set_user
  add_to_set-IsCounted member =
      let u = member.user_id in
      let s = found_set in
      let w = found_set-IsCountedSet in
      let n = found_set-count in
      elim (Option-cases (get u s.members)) [
        | inl e ↦
            let table = set_user u (mm.user_rooms u ++ (r ∷ [])) mm.user_rooms in
            let absent : occurrences r (mm.user_rooms u) ≡ 0 =
              v.index r u
              ∙ ap (λ (l : List (ℕ × LiveMember)). one_if (is_some (get u l))) found_set-members
              ∙ ap (λ (o : Option LiveMember). one_if (is_some o)) e in
            rw (e, add_to_set)
              (replaced-IsCounted mm r _ table (mm.total_members + 1) v
                (record {
                  is_map = IsMap-put u member _ w.is_map;
                  counted = omega (arith, w.counted, length-put_new u member s.members e);
                })
                (omega (arith, n))
                (index_at (put u member s.members) table u
                  (λ x h. (if-false _ _ h, get-put x u member s.members ∙ if-false _ _ h))
                  (λ q h.
                    ap (occurrences q) (if-true _ _ (==_self u))
                    ∙ occurrences-append q r (mm.user_rooms u)
                    ∙ (ap (λ (n : ℕ). occurrences q (mm.user_rooms u) + n) (ap one_if h)
                        ∙ omega arith))
                  (ap (occurrences r) (if-true _ _ (==_self u))
                    ∙ (occurrences-append r r (mm.user_rooms u)
                        ∙ (omega (arith, absent, ap one_if (==_self r))
                            ∙ sym (is_member u member s.members))))))
        | inr (old, e) ↦
            rw (e, add_to_set)
              (replaced-IsCounted mm r _ mm.user_rooms mm.total_members v
                (record {
                  is_map = IsMap-put u (refreshed old member) _ w.is_map;
                  counted = w.counted ∙ sym (length-put_old u (refreshed old member) s.members e);
                })
                (omega (arith, n))
                (index_at (put u (refreshed old member) s.members) mm.user_rooms u
                  (λ x h. (refl, get-put x u (refreshed old member) s.members ∙ if-false _ _ h))
                  (λ q h. refl)
                  (v.index r u
                    ∙ (ap (λ (l : List (ℕ × LiveMember)). one_if (is_some (get u l)))
                          found_set-members
                        ∙ (ap (λ (o : Option LiveMember). one_if (is_some o)) e
                            ∙ sym (is_member u (refreshed old member) s.members))))))
      ]

send_command-IsCounted :
    (c : MemberCommand) (mm : MemberManager) → IsCounted mm → IsCounted (send_command c mm)
unfolding send_command
send_command-IsCounted c mm v = record {
  is_map = v.is_map;
  sets = v.sets;
  total = v.total;
  index = v.index;
}

add_member-IsCounted :
    (now r : ℕ) (member : LiveMember) (mm : MemberManager)
    → IsCounted mm
    → IsCounted (add_member now r member mm)
unfolding add_member
add_member-IsCounted now r member mm v =
    send_command-IsCounted _ _ (add_to_set-IsCounted mm r now v member)

module _ (mm : MemberManager) (r now u : ℕ) (s : MemberSet) (old : LiveMember) (v : IsCounted mm)
    (known : get r mm.room_members ≡ some s) (joined : get u s.members ≡ some old) where
  remove_from_set-IsCounted : IsCounted (remove_from_set now r u s mm)
  unfolding remove_from_set or_empty
  remove_from_set-IsCounted =
      let w = v.sets r s known in
      let found : or_empty now (get r mm.room_members) ≡ s = ap (or_empty now) known in
      let size = length-erase u s.members joined in
      let count : (or_empty 0 (get r mm.room_members)).count ≡ s.count =
        ap (λ (o : Option MemberSet). (or_empty 0 o).count) known in
      let present : occurrences r (mm.user_rooms u) ≡ 1 =
        v.index r u
        ∙ (ap (λ (o : Option MemberSet). one_if (is_some (get u (members_of o)))) known
            ∙ ap (λ (o : Option LiveMember). one_if (is_some o)) joined) in
      let gone : get u (erase u s.members) ≡ none =
        get-erase u u s.members w.is_map ∙ if-true _ _ (==_self u) in
      replaced-IsCounted mm r _ (set_user u (remove_room r (mm.user_rooms u)) mm.user_rooms)
        (mm.total_members - 1) v
        (record { is_map = IsMap-erase u _ w.is_map; counted = omega (arith, w.counted, size) })
        (omega (arith, count, w.counted, size, v.total, sum_counts_bound r mm.room_members known))
        (index_at mm r now v (erase u s.members)
          (set_user u (remove_room r (mm.user_rooms u)) mm.user_rooms) u
          (λ x h. (
            set_user_other u x _ mm.user_rooms h,
            get-erase x u s.members w.is_map
                ∙ if-false _ _ h
                ∙ ap (λ (s : MemberSet). get x s.members) (sym found),
          ))
          (λ q h.
            ap (occurrences q) (set_user_self u _ mm.user_rooms)
            ∙ (occurrences-remove_room q r (mm.user_rooms u)
                ∙ (ap (λ (n : ℕ). occurrences q (mm.user_rooms u) - n) (ap one_if h)
                    ∙ omega arith)))
          (ap (occurrences r) (set_user_self u _ mm.user_rooms)
            ∙ (occurrences-remove_room r r (mm.user_rooms u)
                ∙ (omega (arith, present, ap one_if (==_self r))
                    ∙ sym (ap (λ (o : Option LiveMember). one_if (is_some o)) gone)))))

remove_member-IsCounted :
    (now r u : ℕ) (mm : MemberManager) → IsCounted mm → IsCounted (remove_member now r u mm).1
unfolding remove_member
remove_member-IsCounted now r u mm v = elim (Option-cases (get r mm.room_members)) [
  | inl e ↦ rw (e, remove_member) v
  | inr (s, e) ↦ elim (Option-cases (get u s.members)) [
    | inl h ↦ rw (e, remove_member, h) v
    | inr (old, h) ↦
        rw (e, remove_member, h)
          (send_command-IsCounted _ _ (remove_from_set-IsCounted mm r now u s old v e h))
  ]
]

-- The operations that change the members.
pub data MemberStep : Type 0 where
  add : (now r : ℕ) (member : LiveMember) → MemberStep
  remove : (now r u : ℕ) → MemberStep

unfoldable pub member_step : MemberStep → MemberManager → MemberManager
member_step (add now r member) mm = add_member now r member mm
member_step (remove now r u) mm = (remove_member now r u mm).1

unfoldable pub member_steps : List MemberStep → MemberManager → MemberManager
unfolding member_step
member_steps [] mm = mm
member_steps (s ∷ ss) mm = member_steps ss (member_step s mm)

steps-IsCounted :
    (ss : List MemberStep) (mm : MemberManager) → IsCounted mm → IsCounted (member_steps ss mm)
unfolding member_steps
steps-IsCounted [] mm v = v
steps-IsCounted (add now r member ∷ ss) mm v =
    steps-IsCounted ss _ (add_member-IsCounted now r member mm v)
steps-IsCounted (remove now r u ∷ ss) mm v =
    steps-IsCounted ss _ (remove_member-IsCounted now r u mm v)

-- After any additions and removals on a new manager, in any order, the count of each room is the number
-- of its members, the total is the sum of the counts, and a user's list of rooms has each room
-- of which the user is a member once and no other.
pub member_steps-IsCounted :
    (b : Bool) (ss : List MemberStep) → IsCounted (member_steps ss (new_memory_member_manager b))
member_steps-IsCounted b ss = steps-IsCounted ss (new_memory_member_manager b) (new-IsCounted b)
