-- ===== src/Tests/Balancing.antt =====
-- router/load_balancer.go: the theorems at concrete nodes.
use live_chat_room.Prelude.{
  ℕ, ◌%◌, ◌^◌, ◌-◌, ◌≤◌, ◌≡◌, ◌<◌, ◌≢◌, refl, ◌⊎◌, List, [], ◌∷◌, All, arith, length,
}
use live_chat_room.Message.Envelope.{Bytes}
use live_chat_room.Router.LoadBalancer.{
  Node, round_robin, LoadBalancer, chosen, no_node, panics, select_by_round_robin,
  select_by_least_connections, update_hash_ring, select_by_consistent_hash,
}
use live_chat_room.Router.LoadBalancer.Choosing.{
  round_robin_panics, IsLeast, select_by_least_connections_lem,
}
use live_chat_room.Router.LoadBalancer.Hashing.{ChoosesOf, select_by_consistent_hash_lem}

abbrev node_named : ℕ → ℕ → Node
node_named c n = record { id = c ∷ []; active_connections = n }

abbrev three : List Node
three = node_named b'a' 4 ∷ node_named b'b' 2 ∷ node_named b'c' 7 ∷ []

abbrev balancer : LoadBalancer
balancer = record {
  strategy = round_robin;
  round_robin_index = 0;
  hash_ring = record { nodes = []; keys = []; replicas = 2 };
  decisions = 0;
}

abbrev worn : LoadBalancer
worn = record balancer { round_robin_index = 2 ^ 31 - 1 }

not_divided : 2 ^ 31 % 3 ≢ 0
not_divided e = omega arith

round_robin_panics_example : (select_by_round_robin three worn).0 ≡ panics
round_robin_panics_example = round_robin_panics three worn (omega arith) refl not_divided

select_by_least_connections_lem_example :
    ((select_by_least_connections three ≡ no_node)
      × All (λ node. 2 ^ 31 - 1 ≤ node.active_connections) three)
    ⊎ ((node : Node) × (select_by_least_connections three ≡ chosen node)
        × IsLeast node three
        × (node.active_connections < 2 ^ 31 - 1))
select_by_least_connections_lem_example = select_by_least_connections_lem three

-- A poor checksum, under which names collide
abbrev poor : Bytes → ℕ
poor bs = length bs

select_by_consistent_hash_lem_example :
    ChoosesOf three
      (update_hash_ring poor three balancer)
      (select_by_consistent_hash poor three (b'k' ∷ []) (update_hash_ring poor three balancer))
select_by_consistent_hash_lem_example =
    select_by_consistent_hash_lem poor three (b'k' ∷ []) balancer (omega arith) (omega arith)
