-- ===== src/Router/LoadBalancer/Hashing.antt =====
-- router/load_balancer.go: the consistent hash ring and the list of nodes it is built from.
use live_chat_room.Prelude.{
  ℕ, zero, suc, ◌+◌, ◌<◌, ◌≡◌, refl, sym, ap, ◌∙◌, ◌⊎◌, inl, inr, true, false, Option, none, some,
  List, [], ◌∷◌, ◌++◌, leb, ◌==◌, ==_self, ==_iff, same, same_self, eq_of_same, length, is_some,
  All, All-append, All-map, length-append, ◌≤◌, arith, Bool-cases, Option-cases, if_cases,
}
use mathlib.Core.Option.{some_inj}
use live_chat_room.Message.Envelope.{Bytes}
use live_chat_room.Router.LoadBalancer.{
  Node, LoadBalancer, ConsistentHashRing, Choice, chosen, put_hash, node_at, insert_key, sort_keys,
  key_from, ring_key, node_with, add_replicas, add_node_to_ring, add_nodes, update_hash_ring,
  select_by_id, select_by_key, select_by_consistent_hash, decimal,
}

-- The name is that of a node of the list.
abbrev pub IsNode : List Node → Bytes → Type 0
IsNode nodes id = is_some (node_with id nodes) ≡ true

-- Every key of a ring leads to a node of the list.
abbrev Leads : List Node → List (ℕ × Bytes) → List ℕ → Type 0
Leads nodes table keys = All (λ k. IsNode nodes (node_at k table)) keys

node_at-put : (h : ℕ) (id : Bytes) (table : List (ℕ × Bytes)) → node_at h (put_hash h id table) ≡ id
unfolding node_at put_hash
node_at-put h id [] = rw (==_self h) refl
node_at-put h id ((j, old) ∷ table) = elim (Bool-cases (j == h)) [
  | inl e ↦ rw (e, e) refl
  | inr e ↦ rw (e, e) (node_at-put h id table)
]

node_at-put_other :
    (h : ℕ) (id : Bytes) (k : ℕ) (table : List (ℕ × Bytes))
    → (h == k) ≡ false
    → node_at k (put_hash h id table) ≡ node_at k table
unfolding node_at put_hash
node_at-put_other h id k [] d = rw d refl
node_at-put_other h id k ((j, old) ∷ table) d = elim (Bool-cases (j == h)) [
  | inl e ↦ let f : (j == k) ≡ false = ground arith in rw (e, f) refl
  | inr e ↦ elim (Bool-cases (j == k)) [
    | inl f ↦ rw (e, f) refl
    | inr f ↦ rw (e, f) (node_at-put_other h id k table d)
  ]
]

module _ (nodes : List Node) where
  Leads-put :
      (h : ℕ) (id : Bytes) (table : List (ℕ × Bytes)) (keys : List ℕ)
      → IsNode nodes id
      → Leads nodes table keys
      → Leads nodes (put_hash h id table) (keys ++ (h ∷ []))
  Leads-put h id table keys n l =
      All-append (λ k. IsNode nodes (node_at k (put_hash h id table))) keys (h ∷ [])
        (All-map kept keys l) (rw (node_at-put h id table) n, tt)
    where
      kept :
          (k : ℕ) → IsNode nodes (node_at k table) → IsNode nodes (node_at k (put_hash h id table))
      kept k i = elim (Bool-cases (h == k)) [
        | inl e ↦
            ap (λ j. is_some (node_with (node_at j (put_hash h id table)) nodes))
              (sym ((==_iff h k).0 e))
            ∙ rw (node_at-put h id table) n
        | inr e ↦ rw (node_at-put_other h id k table e) i
      ]

  module _ (checksum : Bytes → ℕ) where
    add_replicas-Leads :
        (n i : ℕ) (id : Bytes) (ring : ConsistentHashRing)
        → IsNode nodes id
        → Leads nodes ring.nodes ring.keys
        → let ring' = add_replicas checksum n i id ring in
          Leads nodes ring'.nodes ring'.keys
          × (ring'.replicas ≡ ring.replicas)
          × (length ring'.keys ≡ length ring.keys + n)
    unfolding add_replicas
    add_replicas-Leads zero i id ring k l = (l, refl, omega arith)
    add_replicas-Leads (suc n) i id ring k l =
        let h = checksum (id ++ (b'#' ∷ decimal 20 i)) in
        let r =
          add_replicas-Leads n (suc i) id
            (record ring { nodes = put_hash h id ring.nodes; keys = ring.keys ++ (h ∷ []) }) k
            (Leads-put h id ring.nodes ring.keys k l) in
        (r.0, r.1, omega (arith, r.2, length-append ring.keys (h ∷ [])))

    add_nodes-Leads :
        (part : List Node) (ring : ConsistentHashRing)
        → All (λ node. IsNode nodes node.id) part
        → Leads nodes ring.nodes ring.keys
        → let ring' = add_nodes checksum part ring in
          Leads nodes ring'.nodes ring'.keys × (length ring.keys ≤ length ring'.keys)
    unfolding add_nodes add_node_to_ring
    add_nodes-Leads [] ring a l = (l, omega arith)
    add_nodes-Leads (node ∷ part) ring a l =
        let r = add_replicas-Leads ring.replicas 0 node.id ring a.0 l in
        let rest =
          add_nodes-Leads part (add_replicas checksum ring.replicas 0 node.id ring) a.1 r.0 in
        (rest.0, omega (arith, rest.1, r.2))

    keys_added :
        (node : Node) (part : List Node) (ring : ConsistentHashRing)
        → All (λ node. IsNode nodes node.id) (node ∷ part)
        → Leads nodes ring.nodes ring.keys
        → 0 < ring.replicas
        → 0 < length (add_nodes checksum (node ∷ part) ring).keys
    unfolding add_nodes add_node_to_ring
    keys_added node part ring a l pos =
        let r = add_replicas-Leads ring.replicas 0 node.id ring a.0 l in
        let rest =
          add_nodes-Leads part (add_replicas checksum ring.replicas 0 node.id ring) a.1 r.0 in
        omega (arith, rest.1, r.2)

module _ {κ} (P : ℕ → Type κ) where
  All-insert_key : (k : ℕ) (ks : List ℕ) → P k → All P ks → All P (insert_key k ks)
  unfolding insert_key
  All-insert_key k [] p a = (p, tt)
  All-insert_key k (j ∷ js) p a =
      if_cases (All P) (leb k j) (λ e. (p, a)) (λ e. (a.0, All-insert_key k js p a.1))

  All-sort_keys : (ks : List ℕ) → All P ks → All P (sort_keys ks)
  unfolding sort_keys
  All-sort_keys [] a = tt
  All-sort_keys (k ∷ ks) a = All-insert_key k (sort_keys ks) a.0 (All-sort_keys ks a.1)

  key_from-found :
      (h : ℕ) (ks : List ℕ)
      → All P ks
      → (key_from h ks ≡ none) ⊎ ((k : ℕ) × (key_from h ks ≡ some k) × P k)
  unfolding key_from
  key_from-found h [] a = inl refl
  key_from-found h (k ∷ ks) a =
      if_cases (λ o. (o ≡ none) ⊎ ((k : ℕ) × (o ≡ some k) × P k)) (leb h k)
        (λ e. inr (k, refl, a.0)) (λ e. key_from-found h ks a.1)

  ring_key-found :
      (h : ℕ) (ks : List ℕ) → All P ks → 0 < length ks → (k : ℕ) × (ring_key h ks ≡ some k) × P k
  unfolding ring_key
  ring_key-found h [] a pos = absurd (omega arith)
  ring_key-found h (j ∷ js) a pos = elim (key_from-found h (j ∷ js) a) [
    | inl e ↦ (j, rw e refl, a.0)
    | inr (k, e, p) ↦ (k, rw e refl, p)
  ]

length-insert_key : (k : ℕ) (ks : List ℕ) → length (insert_key k ks) ≡ suc (length ks)
unfolding insert_key
length-insert_key k [] = refl
length-insert_key k (j ∷ js) =
    if_cases (λ (l : List ℕ). length l ≡ suc (suc (length js))) (leb k j) (λ e. refl)
      (λ e. ap suc (length-insert_key k js))

length-sort_keys : (ks : List ℕ) → length (sort_keys ks) ≡ length ks
unfolding sort_keys
length-sort_keys [] = refl
length-sort_keys (k ∷ ks) = length-insert_key k (sort_keys ks) ∙ ap suc (length-sort_keys ks)

All-IsNode : (nodes : List Node) → All (λ node. IsNode nodes node.id) nodes
unfolding node_with
All-IsNode [] = tt
All-IsNode (node ∷ nodes) = (
  rw (same_self node.id) refl,
  All-map
      (λ other h.
        if_cases (λ (o : Option Node). is_some o ≡ true) (same node.id other.id) (λ e. refl)
          (λ e. h))
      nodes (All-IsNode nodes),
)

-- The choice is a node of the list, and round robin is not used for it.
abbrev pub ChoosesOf : List Node → LoadBalancer → Choice × LoadBalancer → Type 0
ChoosesOf nodes lb result =
    (node : Node) × (node_with node.id nodes ≡ some node) × (result ≡ (chosen node, lb))

node_with-id :
    (id : Bytes) (nodes : List Node) {node : Node} → node_with id nodes ≡ some node → node.id ≡ id
unfolding node_with
node_with-id id [] e = cc
node_with-id id (n ∷ nodes) {node} e = elim (Bool-cases (same n.id id)) [
  | inl h ↦ ap (λ (m : Node). m.id) (sym (some_inj.0 (rw h at e))) ∙ eq_of_same n.id id h
  | inr h ↦ node_with-id id nodes {node = node} (rw h at e)
]

chooses :
    (k : ℕ) (nodes : List Node) (lb : LoadBalancer) (checksum : Bytes → ℕ)
    → IsNode nodes (node_at k lb.hash_ring.nodes)
    → ChoosesOf nodes lb (select_by_key checksum (some k) nodes lb)
unfolding select_by_key select_by_id
chooses k nodes lb checksum i =
    elim (Option-cases (node_with (node_at k lb.hash_ring.nodes) nodes)) [
      | inl e ↦ let q : false ≡ true = rw e at i in cc
      | inr (node, e) ↦
          let n = node_with-id (node_at k lb.hash_ring.nodes) nodes {node = node} e in
          (node, ap (λ i. node_with i nodes) n ∙ e, rw e refl)
    ]

-- After the ring has been built for a list of nodes that is not empty, with at least one replica of
-- each, every key is given a node of that list, and the balancer is left as it is: the ring never
-- leads to a node that is gone, nor to the fallback, whichever checksums collide.
pub select_by_consistent_hash_lem :
    (checksum : Bytes → ℕ) (nodes : List Node) (key : Bytes) (lb : LoadBalancer)
    → 0 < length nodes
    → 0 < lb.hash_ring.replicas
    → let built = update_hash_ring checksum nodes lb in
      ChoosesOf nodes built (select_by_consistent_hash checksum nodes key built)
unfolding select_by_consistent_hash update_hash_ring
select_by_consistent_hash_lem checksum [] key lb pos many = absurd (omega arith)
select_by_consistent_hash_lem checksum (n ∷ part) key lb pos many =
    let nodes = n ∷ part in
    let empty = record (lb.hash_ring) { nodes = []; keys = [] } in
    let ring = add_nodes checksum nodes empty in
    let a = All-IsNode nodes in
    let l = add_nodes-Leads nodes checksum nodes empty a tt in
    let c = keys_added nodes checksum n part empty a tt many in
    let leads = λ (k : ℕ). IsNode nodes (node_at k ring.nodes) in
    let (k, e, p) =
      ring_key-found leads (checksum key) (sort_keys ring.keys) (All-sort_keys leads ring.keys l.0)
        (omega (arith, length-sort_keys ring.keys)) in
    let e' : (length nodes == 0) ≡ false = ground arith in
    rw (e', e)
      (chooses k nodes (record lb { hash_ring = record ring { keys = sort_keys ring.keys } })
        checksum p)
