-- ===== src/Connection/ConnectionManager/UserIndex.antt =====
-- connection/connection_manager.go: the index of connections by user, and the connections that it gives.
use live_chat_room.Prelude.{
  ℕ, ◌-◌, Bool, true, false, ◌&&◌, ◌||◌, Option, none, some, List, [], ◌∷◌, ◌≡◌, refl, ap, ◌∙◌,
  arith, if_cases, if-true, if-false, ◌==◌, Option-cases, inl, inr, is_some, get, put, erase,
  get-put,
}
use live_chat_room.Connection.ConnectionManager.{
  ClientConnection, ConnectionManager, change_object, update_last_activity, close_connection,
  is_connected, get_user_id, ConnectionError, set_user_conns, unregister, drop_connection,
  remove_connection, connected_only, get_user_connections, update_user_connection,
}
use live_chat_room.Connection.ConnectionManager.Counted.{change_object-keeps}

unfoldable pub is_in : ℕ → List ℕ → Bool
is_in c [] = false
is_in c (d ∷ ds) = (d == c) || is_in c ds

-- A connection is given exactly when it is in the index of the user and connected.
pub connected_only-is_in :
    (c : ℕ) (cm : ConnectionManager) (conns : List (ℕ × Unit {0}))
    → is_in c (connected_only cm conns) ≡ is_some (get c conns) && is_connected c cm
unfolding is_in connected_only get
connected_only-is_in c cm [] = refl
connected_only-is_in c cm ((d, t) ∷ conns) = ground (arith, connected_only-is_in c cm conns)

get-put_same : {V : Type 0} (k : ℕ) (v : V) (m : List (ℕ × V)) → get k (put k v m) ≡ some v
get-put_same k v m = get-put k k v m ∙ if-true {b = k == k} _ _ (ground arith)

is_connected-close :
    (c : ℕ) (cm : ConnectionManager) → is_connected c (change_object c close_connection cm) ≡ false
unfolding is_connected change_object close_connection
is_connected-close c cm = elim (Option-cases (get c cm.objects)) [
  | inl e ↦ rw (e, change_object, is_connected, e) refl
  | inr (o, e) ↦
      rw (e, change_object, is_connected, get-put_same c (close_connection o) cm.objects) refl
]

and_false : (b : Bool) → b && false ≡ false
and_false true = refl
and_false false = refl

drop_connection_gone :
    (c u : ℕ) (cm : ConnectionManager)
    → is_in c (get_user_connections u (drop_connection c cm)) ≡ false
unfolding drop_connection get_user_connections
drop_connection_gone c u cm =
    let out = unregister c cm in
    let left = record out {
      connections = erase c out.connections;
      active_connections = out.active_connections - 1;
    } in
    let after = change_object c close_connection left in
    connected_only-is_in c after (after.user_conns u)
    ∙ ap (λ b. is_some (get c (after.user_conns u)) && b) (is_connected-close c left)
    ∙ and_false _

-- A connection of the table is removed without an error and is then given for no user, whichever users it
-- was registered for.
pub remove_connection_gone :
    (c u : ℕ) (cm : ConnectionManager)
    → is_some (get c cm.connections) ≡ true
    → ((remove_connection c cm).0 ≡ none)
      × (is_in c (get_user_connections u (remove_connection c cm).1) ≡ false)
unfolding remove_connection
remove_connection_gone c u cm h =
    let Q : Option ConnectionError × ConnectionManager → Type 0 =
      λ r. (r.0 ≡ none) × (is_in c (get_user_connections u r.1) ≡ false) in
    if_cases Q (is_some (get c cm.connections)) (λ _. (refl, drop_connection_gone c u cm)) (λ k. cc)

-- A connection that is registered for one user and whose next message names another user.
unfoldable pub renamed : (now c w r l : ℕ) → ConnectionManager → ConnectionManager
renamed now c w r l cm =
    change_object c (update_last_activity now w r l) (update_user_connection c cm)

-- The same, of a connection whose object is `o`.
unfoldable pub renamed_of :
    (now c w r l : ℕ) → ClientConnection → ConnectionManager → ConnectionManager
renamed_of now c w r l o cm = record cm {
  objects = put c (update_last_activity now w r l o) cm.objects;
  user_conns = set_user_conns o.user_id (put c tt (cm.user_conns o.user_id)) cm.user_conns;
}

get_user_id-of :
    (c : ℕ) (cm : ConnectionManager) {o : ClientConnection}
    → get c cm.objects ≡ some o
    → get_user_id c cm ≡ o.user_id
unfolding get_user_id
get_user_id-of c cm e = rw (get_user_id, e) refl

update_user_connection-eq :
    (c u : ℕ) (cm : ConnectionManager)
    → get_user_id c cm ≡ u
    → u == 0 ≡ false
    → update_user_connection c cm
      ≡ record cm { user_conns = set_user_conns u (put c tt (cm.user_conns u)) cm.user_conns }
unfolding update_user_connection
update_user_connection-eq c u cm e h = rw (update_user_connection, e, h) refl

renamed-eq :
    (now c w r l : ℕ) (o : ClientConnection) (cm : ConnectionManager)
    → get c cm.objects ≡ some o
    → o.user_id == 0 ≡ false
    → renamed now c w r l cm ≡ renamed_of now c w r l o cm
unfolding renamed renamed_of change_object
renamed-eq now c w r l o cm e h =
    ap (change_object c (update_last_activity now w r l))
      (update_user_connection-eq c o.user_id cm (get_user_id-of c cm e) h)
    ∙ rw (change_object, e) refl

remove_connection_drops :
    (c : ℕ) (cm : ConnectionManager)
    → is_some (get c cm.connections) ≡ true
    → (remove_connection c cm).1 ≡ drop_connection c cm
unfolding remove_connection
remove_connection_drops c cm h = rw (remove_connection, h) refl

set_user_conns_same :
    (u : ℕ) (conns : List (ℕ × Unit {0})) (table : ℕ → List (ℕ × Unit {0}))
    → set_user_conns u conns table u ≡ conns
unfolding set_user_conns
set_user_conns_same u conns table = if-true {b = u == u} _ _ (ground arith)

is_connected-of :
    (c : ℕ) (cm : ConnectionManager) {o : ClientConnection}
    → get c cm.objects ≡ some o
    → o.connected ≡ true
    → is_connected c cm ≡ true
unfolding is_connected
is_connected-of c cm e h = rw (is_connected, e) h

-- Removing a connection changes the index of no user but the one that it has.
pub drop_connection_other :
    (c u w : ℕ) (cm : ConnectionManager)
    → get_user_id c cm ≡ w
    → w == u ≡ false
    → (drop_connection c cm).user_conns u ≡ cm.user_conns u
unfolding drop_connection unregister set_user_conns
drop_connection_other c u w cm e k =
    ap (λ t. t u) ((change_object-keeps c close_connection _).3)
    ∙ rw e (
        if_cases (λ (t : ℕ → List (ℕ × Unit {0})). t u ≡ cm.user_conns u) (w == 0) (λ _. refl)
          (λ _. if-false {b = w == u} _ _ k))

-- In the index as it is after that, the connection is given for the old user and, once it is removed, has
-- an entry there still.
renamed_of_stale :
    (now c w r l : ℕ) (o : ClientConnection) (cm : ConnectionManager)
    → o.connected ≡ true
    → w == o.user_id ≡ false
    → (is_in c (get_user_connections o.user_id (renamed_of now c w r l o cm)) ≡ true)
      × (get c ((drop_connection c (renamed_of now c w r l o cm)).user_conns o.user_id) ≡ some tt)
unfolding renamed_of get_user_connections update_last_activity
renamed_of_stale now c w r l o cm h k =
    let after = renamed_of now c w r l o cm in
    let u = o.user_id in
    let object = get-put_same c (update_last_activity now w r l o) cm.objects in
    let entry : get c (after.user_conns u) ≡ some tt =
      ap (get c) (set_user_conns_same u _ cm.user_conns) ∙ get-put_same c tt (cm.user_conns u) in
    let alive : is_connected c after ≡ true = is_connected-of c after object h in
    let user : get_user_id c after ≡ w = get_user_id-of c after object in
    (
      connected_only-is_in c after (after.user_conns u) ∙ rw (entry, alive) refl,
      ap (get c) (drop_connection_other c u w after user k) ∙ entry,
    )

-- A connected connection that is registered for its user, which is not 0, and whose next message names
-- another user is still given for the old user; and once it is removed the index of the old user has its
-- entry still.
pub renamed_stays :
    (now c w r l : ℕ) (cm : ConnectionManager) (o : ClientConnection)
    → get c cm.objects ≡ some o
    → o.connected ≡ true
    → o.user_id == 0 ≡ false
    → w == o.user_id ≡ false
    → is_some (get c cm.connections) ≡ true
    → (is_in c (get_user_connections o.user_id (renamed now c w r l cm)) ≡ true)
      × (get c ((remove_connection c (renamed now c w r l cm)).1.user_conns o.user_id) ≡ some tt)
unfolding renamed_of
renamed_stays now c w r l cm o e h n k t = rw (renamed-eq now c w r l o cm e n) (
  (renamed_of_stale now c w r l o cm h k).0,
  ap (λ m. get c (m.user_conns o.user_id))
        (remove_connection_drops c (renamed_of now c w r l o cm) t)
      ∙ (renamed_of_stale now c w r l o cm h k).1,
)
