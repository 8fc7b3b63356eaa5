-- ===== src/Dag/Tests.antt =====
-- core/dag.cpp on a small graph: the chain 0 → 1 → 2 in which operation 2 also reads the input of
-- operation 0.
use pto_fusebox.Base.{
  ℕ, ◌≡◌, refl, sym, ◌∙◌, ◌≢◌, ◌↔◌, Bool, true, false, Option, none, some, List, [], ◌∷◌, arith,
  ltb, elem,
}
use pto_fusebox.Dag.{Dag}
use pto_fusebox.Dag.Graph.{Walk, IsAcyclic}
use pto_fusebox.Dag.Topo.Complete.{IsTopoOrder, topo_sort_sound, topo_sort_complete}
use pto_fusebox.Dag.Topo.{topo_sort}
use pto_fusebox.Dag.Rows.{can_reach, precompute_reachability}
use pto_fusebox.FlatSet.{of_range, insert}
use pto_fusebox.Dag.Build.Tables.{DescribesBoundary, boundary_lem}
use pto_fusebox.Dag.Build.Places.{Places, places_lem}
use pto_fusebox.Dag.Build.Longest.{IsLongest, longest_lem}
use pto_fusebox.Dag.Rows.Lookup.{can_reach_lem}
use pto_fusebox.Dag.Merge.{merge_creates_cycle}
use pto_fusebox.Dag.Merge.Cycle.{Detour, merge_creates_cycle_lem}
use pto_fusebox.Dag.Build.{build, Outcome, ok, assertion_failed, out_of_fuel}
use pto_fusebox.Dag.Build.Producers.{HasUniqueOutputs, produces}
use pto_fusebox.Dag.Build.Edges.{reads}
use pto_fusebox.Problem.{Problem}
use pto_fusebox.Dag.Build.Correct.{Describes, build_lem}
use pto_fusebox.Dag.Build.Endings.{IsLast, build_outcome}
use pto_fusebox.Dag.Sample.{chain, chain-HasUniqueOutputs, chain-HasNoCycle, chain_rises, pointwise}

abbrev built : (d : Dag) × ((assertions : Bool) → build assertions chain ≡ ok d) × Describes chain d
built = build_lem chain chain-HasUniqueOutputs chain-HasNoCycle

abbrev graph : Dag
graph = built.0

-- The fields of the graph that a call leaves behind.
abbrev order_of : Outcome → List ℕ
order_of (ok d) = d.topo_order
order_of assertion_failed = []
order_of out_of_fuel = []

abbrev answers : Outcome → List Bool
answers (ok d) =
    can_reach d 0 2
    ∷ can_reach d 2 0
    ∷ can_reach d 1 1
    ∷ merge_creates_cycle d (0 ∷ []) (1 ∷ [])
    ∷ merge_creates_cycle d (0 ∷ []) (2 ∷ [])
    ∷ merge_creates_cycle d (1 ∷ []) (2 ∷ [])
    ∷ []
answers assertion_failed = []
answers out_of_fuel = []

chain_order : order_of (build false chain) ≡ 0 ∷ 1 ∷ 2 ∷ []
unfolding build topo_sort of_range
chain_order = refl

-- The three merges of the comment above `merge_creates_cycle`.
answers-chain : answers (build false chain) ≡ true ∷ false ∷ true ∷ false ∷ true ∷ false ∷ []
unfolding build topo_sort can_reach merge_creates_cycle of_range precompute_reachability
answers-chain = refl

-- Two operations with the same output.
abbrev twice : Problem
twice = record chain { ops = pointwise (0 ∷ []) 1 ∷ pointwise (0 ∷ []) 1 ∷ [] }

two_producers : build true twice ≡ assertion_failed
unfolding build
two_producers = refl

abbrev producer_of : ℕ → Outcome → Option ℕ
producer_of t (ok d) = d.tensor_producer t
producer_of t assertion_failed = none
producer_of t out_of_fuel = none

last_producer : producer_of 1 (build false twice) ≡ some 1
unfolding build topo_sort of_range
last_producer = refl

build_lem_example :
    (d : Dag) × ((assertions : Bool) → build assertions chain ≡ ok d) × Describes chain d
build_lem_example = build_lem chain chain-HasUniqueOutputs chain-HasNoCycle

build_outcome_example :
    ((build true twice ≢ out_of_fuel)
      × ((build true twice ≢ assertion_failed) ↔ HasUniqueOutputs twice.ops))
    × (d : Dag) × (build false twice ≡ ok d)
    × ((t : ℕ) → IsLast (λ u. produces twice.ops u t) (d.tensor_producer t))
    × ((u v : ℕ) → elem (d.op_preds v) u ≡ reads d.tensor_producer twice.ops u v)
build_outcome_example = build_outcome twice

can_reach_lem_example : (can_reach graph 0 2 ≡ true) ↔ Walk graph.op_succs 0 2
can_reach_lem_example =
    can_reach_lem graph built.2.built 0 2 (omega (arith, built.2.size))
      (omega (arith, built.2.size))

merge_creates_cycle_lem_example :
    (merge_creates_cycle graph (0 ∷ []) (2 ∷ []) ≡ true) ↔ Detour graph (0 ∷ []) (2 ∷ [])
merge_creates_cycle_lem_example = merge_creates_cycle_lem graph built.2.built (0 ∷ []) (2 ∷ [])

graph-IsAcyclic : IsAcyclic graph.op_preds
graph-IsAcyclic = record {
  rank = λ i. i;
  rises = λ u v h. chain_rises u v (sym (built.2.edges u v) ∙ h);
}

topo_sort_sound_example :
    (order : List ℕ) × (topo_sort graph.num_ops graph.op_preds graph.op_succs ≡ some order)
    × IsTopoOrder graph.num_ops graph.op_preds order
topo_sort_sound_example = topo_sort_sound built.2.built.graph

topo_sort_complete_example :
    (order : List ℕ) × (topo_sort graph.num_ops graph.op_preds graph.op_succs ≡ some order)
    × IsTopoOrder graph.num_ops graph.op_preds order
    × ((x : ℕ) → elem order x ≡ ltb x graph.num_ops)
topo_sort_complete_example = topo_sort_complete built.2.built.graph graph-IsAcyclic

boundary_lem_example : DescribesBoundary chain graph
boundary_lem_example = boundary_lem false chain graph (λ _. chain-HasUniqueOutputs) (built.1 false)

places_lem_example : Places chain graph
places_lem_example = places_lem false chain graph (λ _. chain-HasUniqueOutputs) (built.1 false)

longest_lem_example : IsLongest graph
longest_lem_example =
    longest_lem false chain graph (λ _. chain-HasUniqueOutputs) (built.1 false) chain-HasNoCycle

abbrev tables_of : Outcome → List (List ℕ)
tables_of (ok d) =
    d.graph_inputs ∷ d.graph_outputs ∷ d.op_neighbors 1 ∷ (d.topo_pos 2 ∷ d.longest_chain ∷ []) ∷ []
tables_of assertion_failed = []
tables_of out_of_fuel = []

tables_of-chain :
    tables_of (build false chain) ≡ (0 ∷ []) ∷ (3 ∷ []) ∷ (0 ∷ 2 ∷ []) ∷ (2 ∷ 2 ∷ []) ∷ []
unfolding build topo_sort of_range insert
tables_of-chain = refl
