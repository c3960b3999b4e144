-- ===== src/Pending.antt =====
-- What the two reliability layers share (client/reliability.go and
-- connection/reliability_guarantor.go): the map of pending messages by key, and the queues of keys
-- by which an acknowledgement finds its message. A map is a list of entries, the oldest first.
pub mod Queues
use live_chat_room.Prelude.{ℕ, Option, none, some, List, [], ◌∷◌, if◌then◌else◌, same, ◌==◌}
use live_chat_room.Message.Envelope.{Bytes}

module _ {P : Type 0} where
  -- `pending, exists := pendingMessages[key]`
  unfoldable pub find : Bytes → List (Bytes × P) → Option P
  find k [] = none
  find k ((j, p) ∷ ps) = if same j k then some p else find k ps

  -- `delete(pendingMessages, key)`
  unfoldable pub delete : Bytes → List (Bytes × P) → List (Bytes × P)
  delete k [] = []
  delete k ((j, p) ∷ ps) = if same j k then ps else (j, p) ∷ delete k ps

  -- `pendingMessages[key] = pending`
  unfoldable pub insert : Bytes → P → List (Bytes × P) → List (Bytes × P)
  insert k p [] = (k, p) ∷ []
  insert k p ((j, q) ∷ ps) = if same j k then (k, p) ∷ ps else (j, q) ∷ insert k p ps

  -- A change of the message that an entry points to.
  unfoldable pub update : Bytes → (P → P) → List (Bytes × P) → List (Bytes × P)
  update k f [] = []
  update k f ((j, p) ∷ ps) = if same j k then (j, f p) ∷ ps else (j, p) ∷ update k f ps

-- The loop that takes the first occurrence of a key out of a queue.
unfoldable pub remove_key : Bytes → List Bytes → List Bytes
remove_key k [] = []
remove_key k (j ∷ js) = if same j k then js else j ∷ remove_key k js

-- A table with a room's entry replaced.
unfoldable pub set_room {ℓ} : {A : Type ℓ} → ℕ → A → (ℕ → A) → ℕ → A
set_room r a table s = if r == s then a else table s
