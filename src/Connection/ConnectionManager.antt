-- ===== src/Connection/ConnectionManager.antt =====
-- connection/connection_manager.go and connection/client_connection.go: the connections of a server and
-- their index by user. A connection's id, which is only compared, is a number, and stands for the
-- object too: `objects` holds what the pointers point to. Times are in milliseconds.
pub mod Counted
pub mod UserIndex
use live_chat_room.Prelude.{
  ℕ, zero, suc, ◌+◌, ◌-◌, ◌*◌, Bool, true, false, not, ◌||◌, Option, none, some, List, [], ◌∷◌,
  ◌++◌, if◌then◌else◌, ltb, leb, ◌==◌, is_some, length, get, put, erase,
}

-- `ClientConnection`, but for the socket, the send buffer and the counters of bytes.
pub record ClientConnection : Type 0 where
  pub user_id : ℕ
  pub login_id : ℕ
  pub current_room : ℕ
  pub connected : Bool
  pub last_activity : ℕ
  pub messages_received : ℕ

-- A user without an entry in the index has no connections.
pub record ConnectionManager : Type 0 where
  pub objects : List (ℕ × ClientConnection)
  pub connections : List (ℕ × Unit {0})
  pub user_conns : ℕ → List (ℕ × Unit {0})
  pub max_connections : ℕ
  pub connection_timeout : ℕ
  pub total_connections : ℕ
  pub active_connections : ℕ
  pub rejected_connections : ℕ

unfoldable pub new_connection_manager : ℕ → ConnectionManager
new_connection_manager max_connections = record {
  objects = [];
  connections = [];
  user_conns = λ u. [];
  max_connections = max_connections;
  connection_timeout = 5 * 60 * 1000;
  total_connections = 0;
  active_connections = 0;
  rejected_connections = 0;
}

-- `NewClientConnection`
unfoldable pub new_client_connection : ℕ → ClientConnection
new_client_connection now = record {
  user_id = 0;
  login_id = 0;
  current_room = 0;
  connected = true;
  last_activity = now;
  messages_received = 0;
}

unfoldable pub change_object :
    ℕ → (ClientConnection → ClientConnection) → ConnectionManager → ConnectionManager
change_object c f cm = elim (get c cm.objects) [
  | none ↦ cm
  | some o ↦ record cm { objects = put c (f o) cm.objects }
]

-- `UpdateLastActivity`
unfoldable pub update_last_activity : ℕ → ℕ → ℕ → ℕ → ClientConnection → ClientConnection
update_last_activity now user_id room_id login_id o = record o {
  last_activity = now;
  user_id = user_id;
  login_id = login_id;
  current_room = if room_id == 0 then o.current_room else room_id;
  messages_received = o.messages_received + 1;
}

-- `Close`, but for the socket
unfoldable pub close_connection : ClientConnection → ClientConnection
close_connection o = record o { connected = false }

-- `IsConnected` of the object that a pointer points to
unfoldable pub is_connected : ℕ → ConnectionManager → Bool
is_connected c cm = elim (get c cm.objects) [ none ↦ false | some o ↦ o.connected ]

unfoldable pub get_user_id : ℕ → ConnectionManager → ℕ
get_user_id c cm = elim (get c cm.objects) [ none ↦ 0 | some o ↦ o.user_id ]

-- `IsExpired`
unfoldable pub is_expired : ℕ → ℕ → ClientConnection → Bool
is_expired now timeout o = ltb timeout (now - o.last_activity)

pub data ConnectionError : Type 0 where
  max_connections_reached already_exists not_found : ConnectionError

-- `AddConnection`, of a connection that is not nil
unfoldable pub add_connection : ℕ → ConnectionManager → Option ConnectionError × ConnectionManager
add_connection c cm =
    if leb cm.max_connections (length cm.connections)
    then (
      some max_connections_reached,
      record cm { rejected_connections = cm.rejected_connections + 1 },
    )
    else if is_some (get c cm.connections)
    then (some already_exists, cm)
    else (
      none,
      record cm {
        connections = put c tt cm.connections;
        total_connections = cm.total_connections + 1;
        active_connections = cm.active_connections + 1;
      },
    )

unfoldable pub set_user_conns :
    ℕ → List (ℕ × Unit {0}) → (ℕ → List (ℕ × Unit {0})) → ℕ → List (ℕ × Unit {0})
set_user_conns u conns table v = if u == v then conns else table v

-- A connection out of the index, under the user that it has now
unfoldable pub unregister : ℕ → ConnectionManager → ConnectionManager
unfolding set_user_conns
unregister c cm =
    let u = get_user_id c cm in
    record cm {
      user_conns =
          if u == 0
          then cm.user_conns
          else set_user_conns u (erase c (cm.user_conns u)) cm.user_conns;
    }

-- What `RemoveConnection` and the cleanup do with a connection of the table
unfoldable pub drop_connection : ℕ → ConnectionManager → ConnectionManager
unfolding unregister change_object close_connection
drop_connection c cm =
    let out = unregister c cm in
    change_object c close_connection (record out {
      connections = erase c out.connections;
      active_connections = out.active_connections - 1;
    })

-- `RemoveConnection`
unfoldable pub remove_connection :
    ℕ → ConnectionManager → Option ConnectionError × ConnectionManager
remove_connection c cm =
    if is_some (get c cm.connections) then (none, drop_connection c cm) else (some not_found, cm)

unfoldable pub connected_only : ConnectionManager → List (ℕ × Unit {0}) → List ℕ
unfolding is_connected
connected_only cm [] = []
connected_only cm ((c, t) ∷ conns) =
    if is_connected c cm then c ∷ connected_only cm conns else connected_only cm conns

-- `GetUserConnections`
unfoldable pub get_user_connections : ℕ → ConnectionManager → List ℕ
unfolding connected_only
get_user_connections u cm = connected_only cm (cm.user_conns u)

-- `UpdateUserConnection`
unfoldable pub update_user_connection : ℕ → ConnectionManager → ConnectionManager
unfolding set_user_conns
update_user_connection c cm =
    let u = get_user_id c cm in
    if u == 0
    then cm
    else record cm { user_conns = set_user_conns u (put c tt (cm.user_conns u)) cm.user_conns }

unfoldable pub is_lost : ℕ → ℕ → ConnectionManager → Bool
unfolding is_connected is_expired
is_lost now c cm =
    not (is_connected c cm)
    || elim (get c cm.objects) [ none ↦ false | some o ↦ is_expired now cm.connection_timeout o ]

unfoldable pub expired_conns : ℕ → ConnectionManager → List (ℕ × Unit {0}) → List ℕ
unfolding is_lost
expired_conns now cm [] = []
expired_conns now cm ((c, t) ∷ conns) =
    if is_lost now c cm then c ∷ expired_conns now cm conns else expired_conns now cm conns

unfoldable pub drop_connections : List ℕ → ConnectionManager → ConnectionManager
drop_connections [] cm = cm
drop_connections (c ∷ cs) cm =
    drop_connections cs (if is_some (get c cm.connections) then drop_connection c cm else cm)

-- `CleanupExpiredConnections`
unfoldable pub cleanup_expired_connections : ℕ → ConnectionManager → ConnectionManager
cleanup_expired_connections now cm = drop_connections (expired_conns now cm cm.connections) cm

unfoldable pub close_each : List (ℕ × Unit {0}) → ConnectionManager → ConnectionManager
unfolding change_object close_connection
close_each [] cm = cm
close_each ((c, t) ∷ conns) cm = close_each conns (change_object c close_connection cm)

-- `CloseAllConnections`
unfoldable pub close_all_connections : ConnectionManager → ConnectionManager
close_all_connections cm = record (close_each cm.connections cm) {
  connections = [];
  user_conns = λ u. [];
  active_connections = 0;
}

unfoldable pub get_login_id : ℕ → ConnectionManager → ℕ
get_login_id c cm = elim (get c cm.objects) [ none ↦ 0 | some o ↦ o.login_id ]

unfoldable pub first_of_login : ℕ → ConnectionManager → List ℕ → Option ℕ
unfolding get_login_id
first_of_login l cm [] = none
first_of_login l cm (c ∷ cs) = if get_login_id c cm == l then some c else first_of_login l cm cs

-- `GetConnectionByUserAndLogin`
unfoldable pub get_connection_by_user_and_login : ℕ → ℕ → ConnectionManager → Option ℕ
unfolding get_user_connections first_of_login
get_connection_by_user_and_login u l cm = first_of_login l cm (get_user_connections u cm)
