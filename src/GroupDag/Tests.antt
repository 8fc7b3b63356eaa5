-- ===== src/GroupDag/Tests.antt =====
-- core/group_dag.cpp on the sample partition.
use pto_fusebox.Base.{
  ℕ, ◌<◌, ◌≡◌, refl, ◌↔◌, inl, inr, Bool, true, false, not, ◌&&◌, ◌||◌, none, some, [], ◌∷◌, arith,
  ltb, ◌==◌, if◌then◌else◌, Bool-cases, elem,
}
use pto_fusebox.Partition.{rebuild_index, group_at}
use pto_fusebox.Partition.Sample.{
  built, indexed_groups, indexed_groups-IsIndexed, indexed_groups-IsSorted,
}
use pto_fusebox.GroupDag.{GroupDag, build, built_edges, clear_edges_for, compute_topo_order}
use pto_fusebox.GroupDag.Edges.{IsMirrored, Edges, IsMirrored-same}
use pto_fusebox.GroupDag.Feeds.{IsReady}
use pto_fusebox.GroupDag.Clear.{clear_edges_for_lem}
use pto_fusebox.GroupDag.Flows.{GroupEdge, build_edges_lem, built_edges_lem}
use pto_fusebox.GroupDag.Order.Valid.{HasOrder, IsComplete, compute_topo_order_lem}
use pto_fusebox.FlatSet.{FlatSet}
use pto_fusebox.Dag.Graph.{Walk}
use pto_fusebox.GroupDag.Build.{built_edges-Adds}
use pto_fusebox.GroupDag.Explore.{search, scan, explore, mark}
use pto_fusebox.GroupDag.Queries.{
  can_reach, merge_creates_cycle, reach_events, all_have_topo, max_pos, seed_events, seeds_of,
  merge_events,
}
use pto_fusebox.GroupDag.Queries.Reach.{can_reach_iff}
use pto_fusebox.GroupDag.Queries.Cycle.{Detour, merge_creates_cycle_iff}
use pto_fusebox.GroupDag.Moves.{eval_split}
use pto_fusebox.GroupDag.Moves.Split.{OnCycle, eval_split_iff}
use pto_fusebox.GroupDag.Update.{update}
use pto_fusebox.GroupDag.Update.Edited.{is_rebuilt, found_from, update_lem}

indexed_groups-IsReady : IsReady indexed_groups
unfolding rebuild_index
indexed_groups-IsReady = record {
  indexed = indexed_groups-IsIndexed;
  sorted = indexed_groups-IsSorted;
  describes = built.2;
}

build_edges_lem_example :
    (g : GroupDag) × (build indexed_groups ≡ some g)
    × IsMirrored g
    × HasOrder indexed_groups g
    × ((u v : ℕ) → (elem (g.succs u) v ≡ true) ↔ GroupEdge indexed_groups u v)
build_edges_lem_example = build_edges_lem indexed_groups indexed_groups-IsReady

-- Group 1 computes operation 0 itself, and yet there is an edge from group 0 to it.
edge_to_recomputed : GroupEdge indexed_groups 0 1
unfolding rebuild_index
edge_to_recomputed = record {
  producer = 0;
  consumer = 1;
  producer_in = refl;
  consumer_in = refl;
  flows = refl;
  distinct = λ e. ground arith;
  crossing = refl;
}

abbrev sample_dag : GroupDag
sample_dag = built_edges indexed_groups

sample_dag-IsMirrored : IsMirrored sample_dag
sample_dag-IsMirrored = (built_edges_lem indexed_groups indexed_groups-IsReady).0

clear_edges_for_lem_example :
    Edges
      (clear_edges_for 1 sample_dag)
      (λ u v. not (u == 1) && not (v == 1) && elem (sample_dag.succs u) v)
clear_edges_for_lem_example = clear_edges_for_lem 1 sample_dag sample_dag-IsMirrored

compute_topo_order_lem_example :
    (g' : GroupDag) × (compute_topo_order indexed_groups sample_dag ≡ some g')
    × (g'.size ≡ sample_dag.size)
    × (g'.succs ≡ sample_dag.succs)
    × (g'.preds ≡ sample_dag.preds)
    × HasOrder indexed_groups g'
    × IsComplete indexed_groups g'
compute_topo_order_lem_example =
    compute_topo_order_lem indexed_groups sample_dag sample_dag-IsMirrored

abbrev ordered_dag : GroupDag
ordered_dag = (compute_topo_order_lem indexed_groups sample_dag sample_dag-IsMirrored).0

ordered_dag-IsMirrored : IsMirrored ordered_dag
ordered_dag-IsMirrored =
    let (g, runs, size, succs, preds, _, _) =
      compute_topo_order_lem indexed_groups sample_dag sample_dag-IsMirrored in
    IsMirrored-same sample_dag g size succs preds sample_dag-IsMirrored

ordered_dag-HasOrder : HasOrder indexed_groups ordered_dag
ordered_dag-HasOrder =
    let (g, runs, size, succs, preds, order, _) =
      compute_topo_order_lem indexed_groups sample_dag sample_dag-IsMirrored in
    order

can_reach_iff_example :
    (b : Bool) × (can_reach ordered_dag 0 1 ≡ some b)
    × ((b ≡ true) ↔ ((0 < ordered_dag.size) × (1 < ordered_dag.size) × Walk ordered_dag.succs 0 1))
can_reach_iff_example =
    can_reach_iff indexed_groups ordered_dag ordered_dag-IsMirrored ordered_dag-HasOrder 0 1

merge_creates_cycle_iff_example :
    (b : Bool) × (merge_creates_cycle ordered_dag (0 ∷ 1 ∷ []) ≡ some b)
    × ((b ≡ true) ↔ Detour ordered_dag (0 ∷ 1 ∷ []))
merge_creates_cycle_iff_example =
    merge_creates_cycle_iff indexed_groups ordered_dag ordered_dag-IsMirrored ordered_dag-HasOrder
      (0 ∷ 1 ∷ []) (omega arith)

edge-GroupEdge : (u v : ℕ) → elem (sample_dag.succs u) v ≡ true → GroupEdge indexed_groups u v
edge-GroupEdge u v h = ((built_edges_lem indexed_groups indexed_groups-IsReady).1 u v).0 h

edge_alive :
    (u v : ℕ) → elem (sample_dag.succs u) v ≡ true → (group_at indexed_groups v).alive ≡ true
edge_alive u v h = let e = edge-GroupEdge u v h in ground (arith, e.consumer_in)

loopless : elem (sample_dag.succs 0) 0 ≡ false
loopless = elim (Bool-cases (elem (sample_dag.succs 0) 0)) [
  | inl h ↦ absurd ((edge-GroupEdge 0 0 h).distinct refl)
  | inr h ↦ h
]

eval_split_iff_example :
    (b : Bool) × (eval_split indexed_groups sample_dag (0 ∷ []) (1 ∷ []) 0 ≡ some b)
    × ((b ≡ true) ↔ OnCycle indexed_groups sample_dag sample_dag-IsMirrored edge_alive 0)
eval_split_iff_example =
    eval_split_iff indexed_groups sample_dag sample_dag-IsMirrored edge_alive 0 (0 ∷ []) (1 ∷ [])
      loopless

update_lem_example :
    (g' : GroupDag) × (update indexed_groups (0 ∷ []) sample_dag ≡ some g')
    × HasOrder indexed_groups g'
    × ((rebuilt : FlatSet) × ((x : ℕ)
          → elem rebuilt x ≡ is_rebuilt indexed_groups (0 ∷ []) sample_dag x)
        × Edges g' (λ u v.
          (not (elem rebuilt u) && not (elem rebuilt v) && elem (sample_dag.succs u) v)
          || found_from indexed_groups rebuilt u v))
update_lem_example =
    update_lem indexed_groups (0 ∷ []) sample_dag sample_dag-IsMirrored
      (omega (arith, (built_edges-Adds indexed_groups).same_size))

-- Groups 0 and 2 around group 1: merging them would make a cycle.
abbrev chain : GroupDag
chain = record {
  size = 3;
  succs = λ g. if g == 0 then 1 ∷ [] else (if g == 1 then 2 ∷ [] else []);
  preds = λ g. if g == 1 then 0 ∷ [] else (if g == 2 then 1 ∷ [] else []);
  topo_pos = λ g. if ltb g 3 then some g else none;
  topo_order = 0 ∷ 1 ∷ 2 ∷ [];
}

chain_queries :
    (can_reach chain 0 2 ≡ some true)
    × (can_reach chain 2 0 ≡ some false)
    × (merge_creates_cycle chain (0 ∷ 2 ∷ []) ≡ some true)
    × (merge_creates_cycle chain (0 ∷ 1 ∷ []) ≡ some false)
unfolding can_reach merge_creates_cycle search scan explore mark reach_events all_have_topo max_pos
    seed_events seeds_of merge_events
chain_queries = (refl, refl, refl, refl)
