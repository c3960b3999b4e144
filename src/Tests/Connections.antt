-- ===== src/Tests/Connections.antt =====
-- connection/connection_manager.go on concrete connections.
use live_chat_room.Prelude.{◌≡◌, refl, true, some, List, [], ◌∷◌, get, is_some}
use live_chat_room.Connection.ConnectionManager.{
  ClientConnection, ConnectionManager, new_connection_manager, new_client_connection,
  get_user_connections, remove_connection,
}
use live_chat_room.Connection.ConnectionManager.Counted.{
  IsCounted, ConnectionStep, accept, add, message, register, remove, clean_up, close_all,
  connection_steps, connection_steps-IsCounted,
}
use live_chat_room.Connection.ConnectionManager.UserIndex.{is_in, renamed, renamed_stays}

abbrev speaker : ClientConnection
speaker = record (new_client_connection 100) { user_id = 7 }

-- Connection 1, of user 7.
abbrev server : ConnectionManager
server = record (new_connection_manager 3) {
  objects = (1, speaker) ∷ [];
  connections = (1, tt) ∷ [];
}

in_table : is_some (get 1 server.connections) ≡ true
unfolding get
in_table = refl

in_objects : get 1 server.objects ≡ some speaker
unfolding get
in_objects = refl

alive : speaker.connected ≡ true
unfolding new_client_connection
alive = refl

-- The next message of the connection names user 8.
renamed_stays_example :
    (is_in 1 (get_user_connections 7 (renamed 200 1 8 0 0 server)) ≡ true)
    × (get 1 ((remove_connection 1 (renamed 200 1 8 0 0 server)).1.user_conns 7) ≡ some tt)
renamed_stays_example = renamed_stays 200 1 8 0 0 server speaker in_objects alive refl refl in_table

abbrev day : List ConnectionStep
day =
    accept 100 1
    ∷ add 1
    ∷ message 110 1 7 12 1
    ∷ register 1
    ∷ accept 120 2
    ∷ add 2
    ∷ remove 1
    ∷ clean_up 900000
    ∷ close_all
    ∷ []

connection_steps-IsCounted_example : IsCounted (connection_steps day (new_connection_manager 1))
connection_steps-IsCounted_example = connection_steps-IsCounted 1 day
