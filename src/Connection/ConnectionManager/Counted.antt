-- ===== src/Connection/ConnectionManager/Counted.antt =====
-- connection/connection_manager.go: the table of connections, its bound and its count.
use live_chat_room.Prelude.{
  ℕ, ◌≤◌, true, false, Option, none, List, [], ◌∷◌, ◌≡◌, refl, sym, ap, ◌∙◌, arith, if_cases, leb,
  ◌==◌, Option-cases, inl, inr, is_some, length, get, put, IsMap, IsMap-put, IsMap-erase,
  length-put_new, length-erase,
}
use live_chat_room.Connection.ConnectionManager.{
  ClientConnection, ConnectionManager, new_connection_manager, new_client_connection, change_object,
  update_last_activity, close_connection, ConnectionError, add_connection, get_user_id,
  set_user_conns, unregister, drop_connection, remove_connection, update_user_connection,
  expired_conns, drop_connections, cleanup_expired_connections, close_each, close_all_connections,
}

-- The counter of active connections is the size of the table, which keeps its bound.
pub record IsCounted (cm : ConnectionManager) : Type 0 where
  pub is_map : IsMap cm.connections
  pub counted : cm.active_connections ≡ length cm.connections
  pub bounded : length cm.connections ≤ cm.max_connections

-- The invariant speaks of the table, its count and its bound only.
same_table :
    {cm cm' : ConnectionManager}
    → cm'.connections ≡ cm.connections
    → cm'.active_connections ≡ cm.active_connections
    → cm'.max_connections ≡ cm.max_connections
    → IsCounted cm
    → IsCounted cm'
same_table e h k v = record {
  is_map = rw e v.is_map;
  counted = rw (e, h) v.counted;
  bounded = rw (e, k) v.bounded;
}

pub change_object-keeps :
    (c : ℕ) (f : ClientConnection → ClientConnection) (cm : ConnectionManager)
    → ((change_object c f cm).connections ≡ cm.connections)
      × ((change_object c f cm).active_connections ≡ cm.active_connections)
      × ((change_object c f cm).max_connections ≡ cm.max_connections)
      × ((change_object c f cm).user_conns ≡ cm.user_conns)
unfolding change_object
change_object-keeps c f cm = elim (Option-cases (get c cm.objects)) [
  | inl e ↦ rw (e, change_object) (refl, refl, refl, refl)
  | inr (o, e) ↦ rw (e, change_object) (refl, refl, refl, refl)
]

change_object-IsCounted :
    (c : ℕ) (f : ClientConnection → ClientConnection) (cm : ConnectionManager)
    → IsCounted cm
    → IsCounted (change_object c f cm)
change_object-IsCounted c f cm v =
    let (a, b, d, e) = change_object-keeps c f cm in same_table a b d v

add_connection-IsCounted :
    (c : ℕ) (cm : ConnectionManager) → IsCounted cm → IsCounted (add_connection c cm).1
unfolding add_connection
add_connection-IsCounted c cm v =
    let Q : Option ConnectionError × ConnectionManager → Type 0 = λ x. IsCounted x.1 in
    if_cases Q (leb cm.max_connections (length cm.connections)) (λ h. same_table refl refl refl v)
      (λ h.
        if_cases Q (is_some (get c cm.connections)) (λ k. v)
          (λ k.
            let absent : get c cm.connections ≡ none = ground arith in
            let size = length-put_new c tt cm.connections absent in
            record {
              is_map = IsMap-put c tt _ v.is_map;
              counted = omega (arith, v.counted, size);
              bounded = ground (arith, size);
            }))

drop_connection-IsCounted :
    (c : ℕ) (cm : ConnectionManager)
    → is_some (get c cm.connections) ≡ true
    → IsCounted cm
    → IsCounted (drop_connection c cm)
unfolding drop_connection unregister
drop_connection-IsCounted c cm h v = elim (Option-cases (get c cm.connections)) [
  | inl e ↦ let no_one : false ≡ true = sym (ap is_some e) ∙ h in cc
  | inr (t, e) ↦
      let size = length-erase c cm.connections e in
      change_object-IsCounted c close_connection _ (record {
        is_map = IsMap-erase c _ v.is_map;
        counted = omega (arith, v.counted, size);
        bounded = omega (arith, v.bounded, size);
      })
]

remove_connection-IsCounted :
    (c : ℕ) (cm : ConnectionManager) → IsCounted cm → IsCounted (remove_connection c cm).1
unfolding remove_connection
remove_connection-IsCounted c cm v =
    if_cases (λ (x : Option ConnectionError × ConnectionManager). IsCounted x.1)
      (is_some (get c cm.connections)) (λ h. drop_connection-IsCounted c cm h v) (λ h. v)

update_user_connection-IsCounted :
    (c : ℕ) (cm : ConnectionManager) → IsCounted cm → IsCounted (update_user_connection c cm)
unfolding update_user_connection
update_user_connection-IsCounted c cm v =
    let u = get_user_id c cm in
    if_cases IsCounted (u == 0) (λ h. v)
      (λ h.
        same_table
          {cm' = record cm {
            user_conns = set_user_conns u (put c tt (cm.user_conns u)) cm.user_conns;
          }}
          refl refl refl v)

drop_connections-IsCounted :
    (cs : List ℕ) (cm : ConnectionManager) → IsCounted cm → IsCounted (drop_connections cs cm)
unfolding drop_connections
drop_connections-IsCounted [] cm v = v
drop_connections-IsCounted (c ∷ cs) cm v = drop_connections-IsCounted cs _ (
    if_cases IsCounted (is_some (get c cm.connections)) (λ h. drop_connection-IsCounted c cm h v)
      (λ h. v))

close_each-keeps :
    (conns : List (ℕ × Unit {0})) (cm : ConnectionManager)
    → (close_each conns cm).max_connections ≡ cm.max_connections
unfolding close_each
close_each-keeps [] cm = refl
close_each-keeps ((c, t) ∷ conns) cm =
    let (a, b, d, e) = change_object-keeps c close_connection cm in
    close_each-keeps conns (change_object c close_connection cm) ∙ d

-- The operations that change the connections.
pub data ConnectionStep : Type 0 where
  accept : (now c : ℕ) → ConnectionStep
  add register remove : (c : ℕ) → ConnectionStep
  message : (now c user_id room_id login_id : ℕ) → ConnectionStep
  clean_up : (now : ℕ) → ConnectionStep
  close_all : ConnectionStep

unfoldable pub connection_step : ConnectionStep → ConnectionManager → ConnectionManager
connection_step (accept now c) cm = record cm {
  objects = put c (new_client_connection now) cm.objects;
}
connection_step (add c) cm = (add_connection c cm).1
connection_step (register c) cm = update_user_connection c cm
connection_step (remove c) cm = (remove_connection c cm).1
connection_step (message now c u r l) cm = change_object c (update_last_activity now u r l) cm
connection_step (clean_up now) cm = cleanup_expired_connections now cm
connection_step close_all cm = close_all_connections cm

unfoldable pub connection_steps : List ConnectionStep → ConnectionManager → ConnectionManager
connection_steps [] cm = cm
connection_steps (s ∷ ss) cm = connection_steps ss (connection_step s cm)

step-IsCounted :
    (s : ConnectionStep) (cm : ConnectionManager) → IsCounted cm → IsCounted (connection_step s cm)
unfolding connection_step cleanup_expired_connections close_all_connections
step-IsCounted (accept now c) cm v = same_table refl refl refl v
step-IsCounted (add c) cm v = add_connection-IsCounted c cm v
step-IsCounted (register c) cm v = update_user_connection-IsCounted c cm v
step-IsCounted (remove c) cm v = remove_connection-IsCounted c cm v
step-IsCounted (message now c u r l) cm v = change_object-IsCounted c _ cm v
step-IsCounted (clean_up now) cm v =
    drop_connections-IsCounted (expired_conns now cm cm.connections) cm v
step-IsCounted close_all cm v = record { is_map = tt; counted = refl; bounded = omega arith }

steps-IsCounted :
    (ss : List ConnectionStep) (cm : ConnectionManager)
    → IsCounted cm
    → IsCounted (connection_steps ss cm)
unfolding connection_steps
steps-IsCounted [] cm v = v
steps-IsCounted (s ∷ ss) cm v = steps-IsCounted ss (connection_step s cm) (step-IsCounted s cm v)

-- After any connections, registrations, messages, removals and cleanups on a new manager, the counter of
-- active connections is the number of connections in the table, which is never above the maximum.
pub connection_steps-IsCounted :
    (max_connections : ℕ) (ss : List ConnectionStep)
    → IsCounted (connection_steps ss (new_connection_manager max_connections))
unfolding new_connection_manager
connection_steps-IsCounted max_connections ss =
    steps-IsCounted ss (new_connection_manager max_connections)
      (record { is_map = tt; counted = refl; bounded = omega arith })
