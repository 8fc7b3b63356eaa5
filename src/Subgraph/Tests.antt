-- ===== src/Subgraph/Tests.antt =====
-- core/subgraph_structure.cpp on the last two operations of a chain whose middle tensor is required.
use pto_fusebox.Base.{ℕ, ◌≡◌, refl, false, Option, none, some, List, [], ◌∷◌}
use pto_fusebox.Problem.{Problem}
use pto_fusebox.FlatSet.{of_range, unique, insert, count}
use pto_fusebox.Dag.Build.{build, Outcome, ok, assertion_failed, out_of_fuel}
use pto_fusebox.Dag.Topo.{topo_sort}
use pto_fusebox.Dag.Sample.{chain, chain-HasNoCycle}
use pto_fusebox.Pebbling.{compute}
use pto_fusebox.Subgraph.{SubgraphStructure, create}
use pto_fusebox.Subgraph.Classes.{Classified, classified_lem}
use pto_fusebox.Subgraph.Schedule.{IsScheduled, scheduled_lem}
use pto_fusebox.Subgraph.Sample.{built, graph, pair-IsWithin}

scheduled_lem_example :
    (s : SubgraphStructure) × (create chain graph (1 ∷ 2 ∷ []) ≡ some s)
    × IsScheduled chain (1 ∷ 2 ∷ []) s
scheduled_lem_example =
    scheduled_lem chain graph built.2 chain-HasNoCycle (1 ∷ 2 ∷ []) pair-IsWithin

classified_lem_example :
    Classified chain
      (1 ∷ 2 ∷ [])
      (scheduled_lem chain graph built.2 chain-HasNoCycle (1 ∷ 2 ∷ []) pair-IsWithin).0
classified_lem_example =
    classified_lem chain graph built.2 (1 ∷ 2 ∷ [])
      (scheduled_lem chain graph built.2 chain-HasNoCycle (1 ∷ 2 ∷ []) pair-IsWithin).0
      (scheduled_lem chain graph built.2 chain-HasNoCycle (1 ∷ 2 ∷ []) pair-IsWithin).1

abbrev fields_of : Option SubgraphStructure → List (List ℕ)
fields_of none = []
fields_of (some s) =
    s.boundary_inputs ∷ s.boundary_outputs ∷ s.ephemeral ∷ s.sinks ∷ s.dfs_order ∷ []

abbrev structure_of : Problem → List ℕ → Outcome → Option SubgraphStructure
structure_of prob ops (ok d) = create prob d ops
structure_of prob ops assertion_failed = none
structure_of prob ops out_of_fuel = none

-- Tensor 2 is required, so it is ephemeral and a boundary output, and its producer is a sink.
required_inner :
    fields_of (
      structure_of
        (record chain { required_outputs = 2 ∷ [] })
        (1 ∷ 2 ∷ [])
        (build false (record chain { required_outputs = 2 ∷ [] })))
    ≡ (0 ∷ 1 ∷ []) ∷ (2 ∷ 3 ∷ []) ∷ (2 ∷ []) ∷ (1 ∷ 2 ∷ []) ∷ (1 ∷ 2 ∷ []) ∷ []
unfolding build topo_sort of_range unique insert count compute create
required_inner = refl
