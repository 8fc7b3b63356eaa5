-- ===== src/Pebbling/Needs.antt =====
-- core/pebbling_order.cpp, DfsPostOrderStrategy: the nodes that the roots need, and the fuel.
use pto_fusebox.Base.{
  ℕ, suc, ◌+◌, ◌≤◌, ◌<◌, ◌≡◌, ap, inl, inr, Bool, true, false, ◌&&◌, none, some, List, [], ◌∷◌,
  arith, if◌then◌else◌, Option-cases, eq_or_ne, length, elem, Table,
}
use pto_fusebox.Pebbling.{PebblingOrderNode, find_node, is_node, arrange, fuel_for}
use pto_fusebox.Pebbling.Stack.{elem-arrange}

abbrev keep : (ℕ → Bool) → List ℕ → List ℕ
keep p [] = []
keep p (x ∷ xs) = if p x then x ∷ keep p xs else keep p xs

elem-keep : (p : ℕ → Bool) (xs : List ℕ) (a : ℕ) → elem (keep p xs) a ≡ (p a && elem xs a)
elem-keep p [] a = ground arith
elem-keep p (x ∷ xs) a = elim (eq_or_ne a x) [
  | inl e ↦ rw e (ground (arith, elem-keep p xs x))
  | inr e ↦ ground (arith, elem-keep p xs a)
]

-- The predecessors of a node that are nodes of the graph.
abbrev pub node_preds : List PebblingOrderNode → Table (List ℕ)
node_preds nodes x = elim (find_node nodes x) [
  | none ↦ []
  | some node ↦ keep (is_node nodes) node.predecessors
]

-- The nodes that a root needs, directly or through others.
pub data Needed (nodes : List PebblingOrderNode) (roots : List ℕ) : ℕ → Type 0 where
  root : {x : ℕ} → elem roots x ≡ true → is_node nodes x ≡ true → Needed nodes roots x
  pred :
      {x p : ℕ} → Needed nodes roots x → elem (node_preds nodes x) p ≡ true → Needed nodes roots p

pub elem-node_preds :
    (nodes : List PebblingOrderNode) (x p : ℕ) (node : PebblingOrderNode)
    → find_node nodes x ≡ some node
    → elem (node_preds nodes x) p ≡ (is_node nodes p && elem (arrange nodes node.predecessors) p)
elem-node_preds nodes x p node e =
    rw (e, node_preds)
      (ground (
        arith,
        elem-keep (is_node nodes) node.predecessors p,
        elem-arrange nodes node.predecessors p,
      ))

node_preds-is_node :
    (nodes : List PebblingOrderNode) (x p : ℕ)
    → elem (node_preds nodes x) p ≡ true
    → is_node nodes p ≡ true
node_preds-is_node nodes x p m = elim (Option-cases (find_node nodes x)) [
  | inl e ↦ cc (rw (e, node_preds) at m)
  | inr (node, e) ↦ ground (arith, elem-node_preds nodes x p node e)
]

pub Needed-is_node :
    {nodes : List PebblingOrderNode} {roots : List ℕ} {x : ℕ}
    → Needed nodes roots x
    → is_node nodes x ≡ true
Needed-is_node (root m h) = h
Needed-is_node {nodes} (pred {x} {p} h m) = node_preds-is_node nodes x p m

-- What the nodes that are not visited can still push.
abbrev pub weight : List ℕ → List PebblingOrderNode → ℕ
weight visited [] = 0
weight visited (node ∷ nodes) =
    (if elem visited node.id then 0 else suc (length node.predecessors)) + weight visited nodes

weight-visit :
    (visited : List ℕ) (x : ℕ) (nodes : List PebblingOrderNode)
    → weight (x ∷ visited) nodes ≤ weight visited nodes
weight-visit visited x [] = omega arith
weight-visit visited x (node ∷ nodes) = ground (arith, weight-visit visited x nodes)

pub weight-expand :
    (visited : List ℕ) (x : ℕ) (nodes : List PebblingOrderNode) (node : PebblingOrderNode)
    → find_node nodes x ≡ some node
    → elem visited x ≡ false
    → weight (x ∷ visited) nodes + suc (length node.predecessors) ≤ weight visited nodes
unfolding find_node
weight-expand visited x [] node e h = cc
weight-expand visited x (n ∷ nodes) node e h = elim (eq_or_ne n.id x) [
  | inl same ↦
      let at : n ≡ node = ground (arith, e) in
      ground (
        arith,
        weight-visit visited x nodes,
        ap (λ (m : PebblingOrderNode). length m.predecessors) at,
        ap (elem visited) same,
      )
  | inr other ↦ ground (arith, weight-expand visited x nodes node (ground (arith, e)) h)
]

pub weight-fuel :
    (visited : List ℕ) (nodes : List PebblingOrderNode) → weight visited nodes < fuel_for nodes
unfolding fuel_for
weight-fuel visited [] = omega arith
weight-fuel visited (node ∷ nodes) = ground (arith, weight-fuel visited nodes)
