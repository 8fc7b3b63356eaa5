-- ===== src/Partition/Tests.antt =====
-- partition/partition.cpp: the index of the sample partition.
use pto_fusebox.Base.{ℕ, ◌≤◌, ◌<◌, ◌≡◌, refl, ◌≢◌, ◌↔◌, true, false, some, [], ◌∷◌, arith, elem}
use pto_fusebox.Partition.Recomputed.{has_recomputed_ops, copies, has_recomputed_ops_iff}
use pto_fusebox.Partition.Neighbors.{border_ops, boundary_neighbors, adjacent_groups}
use pto_fusebox.Partition.Neighbors.Cross.{Crosses, border_lem}
use pto_fusebox.Partition.Sample.{
  indexed_groups-IsSorted, two_groups, two_groups-HasOps, indexed_groups, indexed_groups-IsIndexed,
}
use pto_fusebox.Subgraph.{SubgraphStructure, create}
use pto_fusebox.Subgraph.Schedule.{IsScheduled, scheduled_lem}
use pto_fusebox.Subgraph.Sample.{built, graph, pair-IsWithin}
use pto_fusebox.Dag.Sample.{chain, chain-HasNoCycle}
use pto_fusebox.Partition.Boundary.{is_boundary_output_of, is_boundary_input_of, boundary_of_lem}
use pto_fusebox.Partition.{groups_of, rebuild_index, merge_ops_into}
use pto_fusebox.Partition.Index.{is_in, rebuild_index_lem}
use pto_fusebox.Partition.Update.{Merged, merge_ops_into_lem}
use pto_fusebox.Problem.{num_ops}

groups_of-two_groups :
    groups_of indexed_groups 0 ∷ groups_of indexed_groups 2 ∷ groups_of indexed_groups 3 ∷ []
    ≡ (0 ∷ 1 ∷ []) ∷ (1 ∷ []) ∷ [] ∷ []
unfolding groups_of rebuild_index
groups_of-two_groups = refl

rebuild_index_lem_example : elem (groups_of (rebuild_index two_groups) 0) 1 ≡ is_in two_groups 0 1
rebuild_index_lem_example = rebuild_index_lem two_groups two_groups-HasOps 0 1

below_ops : (op : ℕ) → elem (2 ∷ []) op ≡ true → op < num_ops indexed_groups.prob
unfolding rebuild_index
below_ops op h = ground arith

merge_ops_into_lem_example :
    Merged indexed_groups 0 (2 ∷ []) (merge_ops_into indexed_groups 0 (2 ∷ []))
unfolding rebuild_index
merge_ops_into_lem_example =
    merge_ops_into_lem indexed_groups 0 (2 ∷ []) (omega arith) refl below_ops
      indexed_groups-IsIndexed

abbrev structure :
    (s : SubgraphStructure) × (create chain graph (1 ∷ 2 ∷ []) ≡ some s)
    × IsScheduled chain (1 ∷ 2 ∷ []) s
structure = scheduled_lem chain graph built.2 chain-HasNoCycle (1 ∷ 2 ∷ []) pair-IsWithin

boundary_of_lem_example :
    (is_boundary_output_of (1 ∷ 2 ∷ []) 3 chain graph ≡ elem structure.0.boundary_outputs 3)
    × (is_boundary_input_of (1 ∷ 2 ∷ []) 3 graph ≡ elem structure.0.boundary_inputs 3)
boundary_of_lem_example =
    boundary_of_lem chain graph built.2 (1 ∷ 2 ∷ []) (ground arith) structure.0 structure.1 3

border_lem_example :
    ((op : ℕ)
      → (elem (border_ops indexed_groups 0) op ≡ true) ↔ ((v : ℕ) × Crosses indexed_groups 0 op v))
    × ((v : ℕ)
        → (elem (boundary_neighbors indexed_groups 0) v ≡ true)
          ↔ ((op : ℕ) × Crosses indexed_groups 0 op v))
    × ((gj : ℕ)
        → (elem (adjacent_groups indexed_groups 0) gj ≡ true) ↔ (
            (gj ≢ 0)
            × (op v : ℕ) × Crosses indexed_groups 0 op v
            × (elem (indexed_groups.op_to_groups v) gj ≡ true)))
border_lem_example = border_lem indexed_groups 0 (indexed_groups-IsSorted 0)

recomputed-two_groups : has_recomputed_ops two_groups ≡ true
unfolding has_recomputed_ops
recomputed-two_groups = refl

has_recomputed_ops_iff_example :
    (has_recomputed_ops two_groups ≡ false) ↔ ((op : ℕ) → copies op two_groups.groups ≤ 1)
has_recomputed_ops_iff_example =
    has_recomputed_ops_iff two_groups (ground arith, (ground arith, tt))
