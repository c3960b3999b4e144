-- ===== src/Router/LoadBalancer.antt =====
-- router/load_balancer.go: the choice of a connection node. The healthy nodes, which the node manager
-- gives, are an argument; CRC-32 is a parameter. `sort.Search` and `sort.Slice` are the first index
-- that passes, and a sort by insertion.
pub mod Choosing
pub mod Hashing
use live_chat_room.Prelude.{
  ℕ, zero, suc, ◌+◌, ◌-◌, ◌*◌, ◌/◌, ◌%◌, ◌^◌, Bool, true, false, not, Option, none, some, List, [],
  ◌∷◌, ◌++◌, if◌then◌else◌, ltb, leb, ◌==◌, same, length, get_elem?, is_some,
}
use live_chat_room.Message.Envelope.{Bytes}

-- What is read of a `NodeConnection`
pub record Node : Type 0 where
  pub id : Bytes
  pub active_connections : ℕ

-- `other` is any string that the switch does not name.
pub data Strategy : Type 0 where
  round_robin least_connections consistent_hash other : Strategy

pub record ConsistentHashRing : Type 0 where
  pub nodes : List (ℕ × Bytes)
  pub keys : List ℕ
  pub replicas : ℕ

pub record LoadBalancer : Type 0 where
  pub strategy : Strategy
  pub round_robin_index : ℕ  -- int32, as a word of 32 bits
  pub hash_ring : ConsistentHashRing
  pub decisions : ℕ

-- `NewConsistentHashRing`
unfoldable pub new_consistent_hash_ring : ℕ → ConsistentHashRing
new_consistent_hash_ring replicas = record { nodes = []; keys = []; replicas = replicas }

-- `NewLoadBalancer`
unfoldable pub new_load_balancer : Strategy → LoadBalancer
unfolding new_consistent_hash_ring
new_load_balancer strategy = record {
  strategy = strategy;
  round_robin_index = 0;
  hash_ring = new_consistent_hash_ring 100;
  decisions = 0;
}

-- A node, a nil pointer, or an index out of range
pub data Choice : Type 0 where
  chosen : Node → Choice
  no_node panics : Choice

unfoldable pub at : Option Node → Choice
at none = panics
at (some node) = chosen node

-- `nodes[int(index)%len(nodes)]`; the remainder of a negative number is negative or 0.
unfoldable pub pick : ℕ → List Node → Choice
unfolding at
pick index nodes =
    if ltb index (2 ^ 31)
    then at (get_elem? nodes (index % length nodes))
    else if (2 ^ 32 - index) % length nodes == 0
    then at (get_elem? nodes 0)
    else panics

-- `selectByRoundRobin`
unfoldable pub select_by_round_robin : List Node → LoadBalancer → Choice × LoadBalancer
select_by_round_robin nodes lb =
    let index = (lb.round_robin_index + 1) % 2 ^ 32 in
    if length nodes == 0
    then (no_node, lb)
    else (pick index nodes, record lb { round_robin_index = index })

-- The loop of `selectByLeastConnections`
unfoldable pub least : List Node → ℕ → Choice → Choice
least [] min_connections best = best
least (node ∷ nodes) min_connections best =
    let later = least nodes node.active_connections (chosen node) in
    let rest = least nodes min_connections best in
    if ltb node.active_connections min_connections then later else rest

-- `selectByLeastConnections`
unfoldable pub select_by_least_connections : List Node → Choice
select_by_least_connections nodes = least nodes (2 ^ 31 - 1) no_node

-- `%d`, with one unit of fuel to a digit
unfoldable pub decimal : ℕ → ℕ → Bytes
decimal zero n = []
decimal (suc fuel) n =
    let high = decimal fuel (n / 10) in
    if ltb n 10 then (b'0' + n) ∷ [] else high ++ ((b'0' + n % 10) ∷ [])

unfoldable pub put_hash : ℕ → Bytes → List (ℕ × Bytes) → List (ℕ × Bytes)
put_hash h id [] = (h, id) ∷ []
put_hash h id ((j, old) ∷ nodes) =
    if j == h then (j, id) ∷ nodes else (j, old) ∷ put_hash h id nodes

-- `lb.hashRing.nodes[hash]`; the empty string if there is none
unfoldable pub node_at : ℕ → List (ℕ × Bytes) → Bytes
node_at h [] = []
node_at h ((j, id) ∷ nodes) = if j == h then id else node_at h nodes

unfoldable pub insert_key : ℕ → List ℕ → List ℕ
insert_key k [] = k ∷ []
insert_key k (j ∷ js) = if leb k j then k ∷ j ∷ js else j ∷ insert_key k js

unfoldable pub sort_keys : List ℕ → List ℕ
unfolding insert_key
sort_keys [] = []
sort_keys (k ∷ ks) = insert_key k (sort_keys ks)

-- `keys[idx]`, with `idx` the first index at which the key is not below the hash
unfoldable pub key_from : ℕ → List ℕ → Option ℕ
key_from h [] = none
key_from h (k ∷ ks) = if leb h k then some k else key_from h ks

-- The same, or the first key where the search comes to the end
unfoldable pub ring_key : ℕ → List ℕ → Option ℕ
unfolding key_from
ring_key h keys = if is_some (key_from h keys) then key_from h keys else get_elem? keys 0

-- The loop over the nodes in `selectByConsistentHash`
unfoldable pub node_with : Bytes → List Node → Option Node
node_with id [] = none
node_with id (node ∷ nodes) = if same node.id id then some node else node_with id nodes

module _ (checksum : Bytes → ℕ) where
  -- The turns of `addNodeToRing` from `i` on, `n` of them
  unfoldable pub add_replicas : ℕ → ℕ → Bytes → ConsistentHashRing → ConsistentHashRing
  add_replicas zero i id ring = ring
  add_replicas (suc n) i id ring =
      let hash = checksum (id ++ (b'#' ∷ decimal 20 i)) in
      add_replicas n (suc i) id
        (record ring { nodes = put_hash hash id ring.nodes; keys = ring.keys ++ (hash ∷ []) })

  -- `addNodeToRing`
  unfoldable pub add_node_to_ring : Bytes → ConsistentHashRing → ConsistentHashRing
  add_node_to_ring id ring = add_replicas ring.replicas 0 id ring

  unfoldable pub add_nodes : List Node → ConsistentHashRing → ConsistentHashRing
  add_nodes [] ring = ring
  add_nodes (node ∷ nodes) ring = add_nodes nodes (add_node_to_ring node.id ring)

  -- `updateHashRing`
  unfoldable pub update_hash_ring : List Node → LoadBalancer → LoadBalancer
  update_hash_ring nodes lb =
      let filled = add_nodes nodes (record (lb.hash_ring) { nodes = []; keys = [] }) in
      record lb { hash_ring = record filled { keys = sort_keys filled.keys } }

  unfoldable pub select_by_id : Option Node → List Node → LoadBalancer → Choice × LoadBalancer
  select_by_id (some node) nodes lb = (chosen node, lb)
  select_by_id none nodes lb = select_by_round_robin nodes lb

  unfoldable pub select_by_key : Option ℕ → List Node → LoadBalancer → Choice × LoadBalancer
  select_by_key none nodes lb = select_by_round_robin nodes lb
  select_by_key (some k) nodes lb =
      select_by_id (node_with (node_at k lb.hash_ring.nodes) nodes) nodes lb

  -- `selectByConsistentHash`
  unfoldable pub select_by_consistent_hash :
      List Node → Bytes → LoadBalancer → Choice × LoadBalancer
  select_by_consistent_hash nodes key lb =
      if length nodes == 0
      then (no_node, lb)
      else select_by_key (ring_key (checksum key) lb.hash_ring.keys) nodes lb

  unfoldable pub select_by_strategy :
      Strategy → List Node → Bytes → LoadBalancer → Choice × LoadBalancer
  select_by_strategy least_connections nodes key lb = (select_by_least_connections nodes, lb)
  select_by_strategy consistent_hash nodes key lb = select_by_consistent_hash nodes key lb
  select_by_strategy _ nodes key lb = select_by_round_robin nodes lb

  -- `SelectConnectionNode`
  unfoldable pub select_connection_node : List Node → Bytes → LoadBalancer → Choice × LoadBalancer
  select_connection_node nodes key lb =
      let lb' = record lb { decisions = (lb.decisions + 1) % 2 ^ 64 } in
      if length nodes == 0 then (no_node, lb') else select_by_strategy lb.strategy nodes key lb'
