-- ===== src/Pebbling/Tests.antt =====
-- core/pebbling_order.cpp on a diamond whose second node is preferred by its position.
use pto_fusebox.Base.{ℕ, zero, suc, ◌<◌, ◌≡◌, refl, ◌↔◌, true, some, List, [], ◌∷◌, arith, elem}
use pto_fusebox.Dag.Graph.{IsAcyclic, Follows}
use pto_fusebox.FlatSet.{unique}
use pto_fusebox.Pebbling.{PebblingOrderNode, PebblingOrderGraph, find_node, compute}
use pto_fusebox.Pebbling.Needs.{node_preds, Needed}
use pto_fusebox.Pebbling.Roots.{compute_lem}

abbrev node : ℕ → ℕ → List ℕ → PebblingOrderNode
node id position preds = record {
  id = id;
  stable_position = position;
  predecessors = preds;
  locality_values = [];
}

abbrev diamond : PebblingOrderGraph
diamond = record {
  nodes =
      node 0 0 []
      ∷ node 1 5 (0 ∷ [])
      ∷ node 2 4 (0 ∷ 9 ∷ [])
      ∷ node 3 6 (1 ∷ 2 ∷ 1 ∷ [])
      ∷ node 4 7 []
      ∷ [];
  roots = 3 ∷ [];
}

diamond-order : compute diamond ≡ some (0 ∷ 2 ∷ 1 ∷ 3 ∷ [])
unfolding compute unique
diamond-order = refl

diamond_rises : (u v : ℕ) → elem (node_preds diamond.nodes v) u ≡ true → u < v
unfolding find_node
diamond_rises u zero h = ground arith
diamond_rises u (suc zero) h = ground arith
diamond_rises u (suc (suc zero)) h = ground arith
diamond_rises u (suc (suc (suc zero))) h = ground arith
diamond_rises u (suc (suc (suc (suc zero)))) h = ground arith
diamond_rises u (suc (suc (suc (suc (suc v))))) h = ground arith

diamond-IsAcyclic : IsAcyclic (node_preds diamond.nodes)
diamond-IsAcyclic = record { rank = λ x. x; rises = diamond_rises }

compute_lem_example :
    (order : List ℕ) × (compute diamond ≡ some order)
    × Follows (node_preds diamond.nodes) [] order
    × ((x : ℕ) → (elem order x ≡ true) ↔ Needed diamond.nodes diamond.roots x)
compute_lem_example = compute_lem diamond diamond-IsAcyclic
