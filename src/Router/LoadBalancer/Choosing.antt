-- ===== src/Router/LoadBalancer/Choosing.antt =====
-- router/load_balancer.go: round robin and least connections.
use live_chat_room.Prelude.{
  ℕ, zero, suc, ◌+◌, ◌-◌, ◌%◌, ◌^◌, ◌≤◌, ◌<◌, ◌≡◌, ◌≢◌, refl, ap, ◌∙◌, ◌⊎◌, inl, inr, true, false,
  some, List, [], ◌∷◌, ltb, ◌==◌, length, get_elem?, All, arith, Bool-cases, ==_ne,
}
use native.Mathlib.Nat.{mod-lt}
use live_chat_room.Router.LoadBalancer.{
  Node, LoadBalancer, Choice, chosen, no_node, panics, at, pick, select_by_round_robin, least,
  select_by_least_connections,
}

get_elem?-below {ℓ} :
    {A : Type ℓ} (xs : List A) (i : ℕ) → i < length xs → (x : A) × (get_elem? xs i ≡ some x)
get_elem?-below [] i h = absurd (omega arith)
get_elem?-below (x ∷ xs) zero h = (x, refl)
get_elem?-below (x ∷ xs) (suc i) h = get_elem?-below xs i (omega arith)

-- The balancer after some selections
unfoldable pub after : ℕ → List Node → LoadBalancer → LoadBalancer
after zero nodes lb = lb
after (suc k) nodes lb = (select_by_round_robin nodes (after k nodes lb)).1

-- A selection of a list that is not empty
selects :
    (nodes : List Node) (lb : LoadBalancer)
    → 0 < length nodes
    → select_by_round_robin nodes lb ≡ (
      pick ((lb.round_robin_index + 1) % 2 ^ 32) nodes,
      record lb { round_robin_index = (lb.round_robin_index + 1) % 2 ^ 32 },
    )
unfolding select_by_round_robin
selects nodes lb pos = let e : (length nodes == 0) ≡ false = ground arith in rw e refl

after-index :
    (k : ℕ) (nodes : List Node) (lb : LoadBalancer)
    → 0 < length nodes
    → lb.round_robin_index + k < 2 ^ 32
    → (after k nodes lb).round_robin_index ≡ lb.round_robin_index + k
unfolding after
after-index zero nodes lb pos h = omega arith
after-index (suc k) nodes lb pos h =
    let i = after-index k nodes lb pos (omega arith) in
    ap (λ x. x.1.round_robin_index) (selects nodes (after k nodes lb) pos)
    ∙ ap (λ j. (j + 1) % 2 ^ 32) i
    ∙ omega arith

-- As long as the index stays below 2^31, a selection by round robin after `k` others takes the node
-- that stands `k + 1` places, round the list, after the index that the balancer began with.
pub round_robin_turns :
    (k : ℕ) (nodes : List Node) (lb : LoadBalancer)
    → 0 < length nodes
    → lb.round_robin_index + suc k < 2 ^ 31
    → (node : Node) × (get_elem? nodes ((lb.round_robin_index + suc k) % length nodes) ≡ some node)
      × ((select_by_round_robin nodes (after k nodes lb)).0 ≡ chosen node)
unfolding select_by_round_robin pick at
round_robin_turns k nodes lb pos h =
    let i = lb.round_robin_index + suc k in
    let (node, found) = get_elem?-below nodes (i % length nodes) (mod-lt i pos) in
    let e : (length nodes == 0) ≡ false = ground arith in
    let a = after-index k nodes lb pos (omega arith) in
    let n : (lb.round_robin_index + k + 1) % 2 ^ 32 ≡ i = omega arith in
    let l : ltb i (2 ^ 31) ≡ true = ground arith in (node, found, rw (e, a, n, l, found) refl)

-- The selection at which the index passes 2^31 - 1 panics, unless the number of nodes divides 2^31.
pub round_robin_panics :
    (nodes : List Node) (lb : LoadBalancer)
    → 0 < length nodes
    → lb.round_robin_index ≡ 2 ^ 31 - 1
    → 2 ^ 31 % length nodes ≢ 0
    → (select_by_round_robin nodes lb).0 ≡ panics
unfolding select_by_round_robin pick
round_robin_panics nodes lb pos h odd =
    let e : (length nodes == 0) ≡ false = ground arith in
    let n : (lb.round_robin_index + 1) % 2 ^ 32 ≡ 2 ^ 31 = omega arith in
    rw (e, n, ==_ne (2 ^ 31 % length nodes) 0 odd) refl

-- A node of a list that has no more connections than any other
abbrev pub IsLeast : Node → List Node → Type 0
IsLeast node nodes =
    ((i : ℕ) × (get_elem? nodes i ≡ some node))
    × All (λ other. node.active_connections ≤ other.active_connections) nodes

abbrev Finds : List Node → ℕ → Choice → Type 0
Finds nodes most best =
    ((least nodes most best ≡ best) × All (λ node. most ≤ node.active_connections) nodes)
    ⊎ ((node : Node) × (least nodes most best ≡ chosen node)
        × IsLeast node nodes
        × (node.active_connections < most))

All-weaken :
    (a b : ℕ) (nodes : List Node)
    → a ≤ b
    → All (λ node. b ≤ node.active_connections) nodes
    → All (λ node. a ≤ node.active_connections) nodes
All-weaken a b [] h t = tt
All-weaken a b (node ∷ nodes) h t = (omega (arith, t.0), All-weaken a b nodes h t.1)

least-Finds : (nodes : List Node) (most : ℕ) (best : Choice) → Finds nodes most best
unfolding least
least-Finds [] most best = inl (refl, tt)
least-Finds (node ∷ nodes) most best = elim (Bool-cases (ltb node.active_connections most)) [
  | inl e ↦ rw e (
      inr (elim (least-Finds nodes node.active_connections (chosen node)) [
        | inl (f, t) ↦ (node, f, ((0, refl), (omega arith, t)), ground arith)
        | inr (n, f, ((i, g), t), l) ↦ (n, f, ((suc i, g), (omega arith, t)), ground (arith, l))
      ]))
  | inr e ↦ rw e (elim (least-Finds nodes most best) [
    | inl (f, t) ↦ inl (f, (ground arith, t))
    | inr (n, f, ((i, g), t), l) ↦ inr (n, f, ((suc i, g), (ground (arith, l), t)), l)
  ])
]

-- The selection by least connections takes a node of the list that has no more connections than any
-- other, and fewer than 2^31 - 1. Where each has 2^31 - 1 or more, or there are none, it takes no node.
pub select_by_least_connections_lem :
    (nodes : List Node)
    → ((select_by_least_connections nodes ≡ no_node)
        × All (λ node. 2 ^ 31 - 1 ≤ node.active_connections) nodes)
      ⊎ ((node : Node) × (select_by_least_connections nodes ≡ chosen node)
          × IsLeast node nodes
          × (node.active_connections < 2 ^ 31 - 1))
unfolding select_by_least_connections
select_by_least_connections_lem nodes = least-Finds nodes (2 ^ 31 - 1) no_node
