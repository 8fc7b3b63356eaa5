-- ===== src/GroupDag/Order/Valid.antt =====
-- core/group_dag.cpp: the order of the groups, after `compute_topo_order`.
use pto_fusebox.Base.{
  ℕ, suc, ◌<◌, ◌≡◌, refl, sym, ap, ◌∙◌, inl, inr, true, some, [], arith, ◌>>=◌, elem,
}
use pto_fusebox.Dag.Graph.{IsAcyclic}
use pto_fusebox.Partition.{Partition, group_at}
use pto_fusebox.GroupDag.{GroupDag, GroupFrontier, start_frontier, compute_topo_order}
use pto_fusebox.GroupDag.Edges.{IsMirrored}
use pto_fusebox.GroupDag.Order.Positions.{
  IsInverse, get_elem?-elem, elem-get_elem?, Follows-earlier,
}
use pto_fusebox.GroupDag.Order.Round.{Inv}
use pto_fusebox.GroupDag.Order.Result.{run_kahn_returns, placed, is_placeable, start-Inv}
use pto_fusebox.Dag.Topo.Complete.{length-unplaced}

-- A group that has a position is alive, and all its predecessors have smaller positions; positions
-- and order are inverse to each other.
pub record HasOrder (part : Partition) (g : GroupDag) : Type 0 where
  pub inverse : IsInverse g.topo_pos g.topo_order
  pub alive : (x i : ℕ) → g.topo_pos x ≡ some i → is_placeable part g x ≡ true
  pub earlier :
      (u v i : ℕ)
      → elem (g.succs u) v ≡ true
      → g.topo_pos v ≡ some i
      → (j : ℕ) × (j < i) × (g.topo_pos u ≡ some j)

-- If the graph has no cycle and only groups that are alive have successors, each group that is alive
-- has a position.
abbrev pub IsComplete : Partition → GroupDag → Type 0
IsComplete part g =
    IsAcyclic g.preds
    → ((u v : ℕ) → elem (g.succs u) v ≡ true → (group_at part u).alive ≡ true)
    → (x : ℕ) → is_placeable part g x ≡ true
    → (i : ℕ) × (g.topo_pos x ≡ some i)

module _ (part : Partition) (g : GroupDag) (m : IsMirrored g) where
  abbrev ordered_by : GroupFrontier → GroupDag
  ordered_by f = record g { topo_pos = f.pos; topo_order = f.order }

  Inv-HasOrder : (f : GroupFrontier) → Inv (is_placeable part g) g f → HasOrder part (ordered_by f)
  Inv-HasOrder f v = record {
    inverse = v.inverse;
    alive = λ x i e. v.bounded x (get_elem?-elem f.order i x ((v.inverse x i).0 e));
    earlier = λ u w i edge e.
        elim (Follows-earlier g.preds [] f.order i w u v.follows ((v.inverse w i).0 e)
          (m.mirror u w ∙ edge)) [ inl h ↦ cc | inr (j, lt, p) ↦ (j, lt, (v.inverse u j).1 p) ];
  }

  Inv-IsComplete :
      (f : GroupFrontier)
      → Inv (is_placeable part g) g f
      → f.queue ≡ []
      → IsComplete part (ordered_by f)
  Inv-IsComplete f v e a alive x c =
      let (i, p) = elem-get_elem? f.order x (
        placed (is_placeable part g) g m (λ y h. ground (arith, h)) a f
          (λ u w h.
            let edge : elem (g.succs u) w ≡ true = sym (m.mirror u w) ∙ h in
            ground (arith, alive u w edge, m.inside u w edge))
          v e (suc (a.rank x)) x (omega arith) c) in
      (i, (v.inverse x i).1 p)

  -- On mirrored edges the computation of the order ends. It leaves the edges alone; every group that
  -- gets a position is alive and comes after all its predecessors, positions and order are inverse to
  -- each other, and if there is no cycle and only groups that are alive have successors, every group
  -- that is alive gets a position.
  pub compute_topo_order_lem :
      (g' : GroupDag) × (compute_topo_order part g ≡ some g')
      × (g'.size ≡ g.size)
      × (g'.succs ≡ g.succs)
      × (g'.preds ≡ g.preds)
      × HasOrder part g'
      × IsComplete part g'
  unfolding compute_topo_order
  compute_topo_order_lem =
      let (f, runs, v, empty) =
        run_kahn_returns (is_placeable part g) g m (λ y h. ground (arith, h)) g.size
          (start_frontier part g).queue (start_frontier part g) refl (start-Inv part g)
          (omega (arith, length-unplaced g.size)) in
      (
        ordered_by f,
        ap (λ o. o >>= λ x. some (ordered_by x)) runs,
        refl,
        refl,
        refl,
        Inv-HasOrder f v,
        Inv-IsComplete f v empty,
      )
