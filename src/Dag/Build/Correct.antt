-- ===== src/Dag/Build/Correct.antt =====
-- core/dag.cpp, DAG::build: the graph is the one of the problem.
use pto_fusebox.Base.{
  ℕ, zero, suc, ◌<◌, ◌≡◌, List, [], ◌∷◌, Option, none, some, Bool, true, false, Table, get_elem?,
  length, arith, elem, any_cong, any_find, refl, inl, inr, Option-cases, sym, ◌∙◌,
}
use pto_fusebox.FlatSet.Order.{of_range-IsSorted}
use pto_fusebox.FlatSet.Member.{elem-of_range}
use pto_fusebox.Problem.{Op, Problem, num_ops, num_tensors}
use pto_fusebox.Dag.{Dag}
use pto_fusebox.Dag.Graph.{IsGraph, IsAcyclic}
use pto_fusebox.Dag.Topo.{topo_sort}
use pto_fusebox.Dag.Topo.Complete.{topo_sort_sound, topo_sort_complete, IsTopoOrder}
use pto_fusebox.Dag.Rows.Lookup.{IsBuilt}
use pto_fusebox.Dag.Build.{
  Links, map_producers, link_ops, no_links, deduplicate, assemble, ok, assertion_failed, build,
}
use pto_fusebox.Dag.Build.Producers.{
  is_just, produces, consumes, depends, HasUniqueOutputs, map_producers_sound, map_producers_total,
  map_producers_unique, map_producers_any,
}
use pto_fusebox.Dag.Build.Edges.{reads, link_ops_lem}

-- The data flow of the problem has no cycle: some rank rises from each producer to its readers.
pub record HasNoCycle (prob : Problem) : Type 0 where
  pub rank : ℕ → ℕ
  pub rises : (u v : ℕ) → depends prob.ops u v ≡ true → rank u < rank v

lt-length : (ops : List Op) (i : ℕ) {op : Op} → get_elem? ops i ≡ some op → i < length ops
lt-length [] i h = cc
lt-length (x ∷ ops) zero h = omega arith
lt-length (x ∷ ops) (suc i) h = omega (arith, lt-length ops i h)

pub produces-lt : (ops : List Op) (u t : ℕ) → produces ops u t ≡ true → u < length ops
produces-lt ops u t h = elim (Option-cases (get_elem? ops u)) [
  | inl e ↦ cc (rw (e, produces) at h)
  | inr (op, e) ↦ lt-length ops u e
]

pub depends-lt :
    (ops : List Op) (u v : ℕ) → depends ops u v ≡ true → (u < length ops) × (v < length ops)
depends-lt ops u v h = elim (Option-cases (get_elem? ops v)) [
  | inl e ↦ cc (rw (e, depends) at h)
  | inr (op, e) ↦
      let (t, _, p) = any_find (λ t. produces ops u t) op.inputs (rw (e, depends) at h) in
      (produces-lt ops u t p, lt-length ops v e)
]

-- Whatever the table of the producers, if it names operations only: the links are a graph.
pub linked-IsGraph :
    (prob : Problem) (producer : Table (Option ℕ))
    → ((t u : ℕ) → is_just (producer t) u ≡ true → u < num_ops prob)
    → let l = deduplicate (link_ops producer 0 prob.ops no_links) in
      IsGraph (num_ops prob) l.op_preds l.op_succs
linked-IsGraph prob producer bound =
    let bare = link_ops producer 0 prob.ops no_links in
    let pred =
      λ (u v : ℕ). elem-of_range (bare.op_preds v) u ∙ (link_ops_lem producer prob.ops u v 0).0 in
    let succ =
      λ (u v : ℕ). elem-of_range (bare.op_succs u) v ∙ (link_ops_lem producer prob.ops u v 0).1 in
    record {
      mirror = λ u v. pred u v ∙ sym (succ u v);
      inside = λ u v h. within u v (sym (succ u v) ∙ h);
      preds_sorted = λ v. of_range-IsSorted (bare.op_preds v);
      succs_sorted = λ u. of_range-IsSorted (bare.op_succs u);
    }
  where
    within :
        (u v : ℕ) → reads producer prob.ops u v ≡ true → (u < num_ops prob) × (v < num_ops prob)
    within u v h = elim (Option-cases (get_elem? prob.ops v)) [
      | inl e ↦ cc (rw (e, reads) at h)
      | inr (op, e) ↦
          let (t, _, p) = any_find (λ t. is_just (producer t) u) op.inputs (rw (e, reads) at h) in
          (bound t u p, lt-length prob.ops v e)
    ]

module _ (prob : Problem) (producer : Table (Option ℕ))
    (runs : map_producers true 0 prob.ops (λ t. none) ≡ some producer) where
  abbrev pub links : Links
  links = deduplicate (link_ops producer 0 prob.ops no_links)

  reads-depends : (u v : ℕ) → reads producer prob.ops u v ≡ depends prob.ops u v
  reads-depends u v = elim (Option-cases (get_elem? prob.ops v)) [
    | inl e ↦ rw (e, reads, depends)
    | inr (op, e) ↦
        rw (e, reads, depends)
          (any_cong _ _ op.inputs (λ t m. map_producers_sound prob.ops producer t u runs))
  ]

  pub preds-depends : (u v : ℕ) → elem (links.op_preds v) u ≡ depends prob.ops u v
  preds-depends u v =
      elem-of_range _ u ∙ (link_ops_lem producer prob.ops u v 0).0 ∙ reads-depends u v

  pub succs-depends : (u v : ℕ) → elem (links.op_succs u) v ≡ depends prob.ops u v
  succs-depends u v =
      elem-of_range _ v ∙ (link_ops_lem producer prob.ops u v 0).1 ∙ reads-depends u v

  pub links-IsGraph : IsGraph (num_ops prob) links.op_preds links.op_succs
  links-IsGraph =
      linked-IsGraph prob producer (λ t u h.
        produces-lt prob.ops u t (sym (map_producers_sound prob.ops producer t u runs) ∙ h))

-- The two calls of `build` that can fail.
pub build-none :
    (assertions : Bool) (prob : Problem)
    → map_producers assertions 0 prob.ops (λ t. none) ≡ none
    → build assertions prob ≡ assertion_failed
unfolding build
build-none assertions prob e = rw (e, build)

pub build-some :
    (assertions : Bool) (prob : Problem) (producer : Table (Option ℕ)) (order : List ℕ)
    → map_producers assertions 0 prob.ops (λ t. none) ≡ some producer
    → topo_sort
        (num_ops prob)
        (deduplicate (link_ops producer 0 prob.ops no_links)).op_preds
        (deduplicate (link_ops producer 0 prob.ops no_links)).op_succs
      ≡ some order
    → build assertions prob
      ≡ ok (assemble prob producer (deduplicate (link_ops producer 0 prob.ops no_links)) order)
unfolding build
build-some assertions prob producer order runs sorts = rw (runs, sorts, build)

-- What a graph that `build` returned was assembled from.
pub record Parts (prob : Problem) (d : Dag) : Type 0 where
  pub producer : Table (Option ℕ)
  pub order : List ℕ
  pub runs : map_producers true 0 prob.ops (λ t. none) ≡ some producer
  pub graph :
      IsGraph
        (num_ops prob)
        (deduplicate (link_ops producer 0 prob.ops no_links)).op_preds
        (deduplicate (link_ops producer 0 prob.ops no_links)).op_succs
  pub is_order :
      IsTopoOrder
        (num_ops prob)
        (deduplicate (link_ops producer 0 prob.ops no_links)).op_preds
        order
  pub whole : d ≡ assemble prob producer (deduplicate (link_ops producer 0 prob.ops no_links)) order

-- A tensor with two producers is ruled out by the assertion, or by the hypothesis.
checked_unique :
    (assertions : Bool) (prob : Problem) (d : Dag)
    → (assertions ≡ false → HasUniqueOutputs prob.ops)
    → build assertions prob ≡ ok d
    → HasUniqueOutputs prob.ops
checked_unique false prob d unique h = unique refl
checked_unique true prob d unique h =
    elim (Option-cases (map_producers true 0 prob.ops (λ t. none))) [
      | inl e ↦ absurd (cc (build-none true prob e))
      | inr (producer, runs) ↦ map_producers_unique prob.ops producer runs
    ]

pub build-Parts :
    (assertions : Bool) (prob : Problem) (d : Dag)
    → (assertions ≡ false → HasUniqueOutputs prob.ops)
    → build assertions prob ≡ ok d
    → Parts prob d
build-Parts assertions prob d unique h =
    let (producer, runs) =
      map_producers_total prob.ops (checked_unique assertions prob d unique h) in
    let g = links-IsGraph prob producer runs in
    let (order, sorts, is_order) = topo_sort_sound g in
    let as_built = map_producers_any assertions prob.ops producer runs in
    record {
      producer = producer;
      order = order;
      runs = runs;
      graph = g;
      is_order = is_order;
      whole = cc (build-some assertions prob producer order as_built sorts);
    }

-- What `build` promises: the edges are those of the problem, and the tables for the order and the
-- reachability fit them.
pub record Describes (prob : Problem) (d : Dag) : Type 0 where
  pub size : d.num_ops ≡ num_ops prob
  pub tensors : d.num_tensors ≡ num_tensors prob
  pub producers : (t u : ℕ) → is_just (d.tensor_producer t) u ≡ produces prob.ops u t
  pub consumers : (t v : ℕ) → elem (d.tensor_consumers t) v ≡ consumes prob.ops v t
  pub edges : (u v : ℕ) → elem (d.op_preds v) u ≡ depends prob.ops u v
  pub built : IsBuilt d

-- On a problem in which no tensor is the output of two operations and the data flow has no cycle,
-- `build` returns, with assertions and without the same, a graph that describes the problem: its sizes, producers, consumers and
-- predecessors are those of the problem, and its order and reachability matrix are complete.
pub build_lem :
    (prob : Problem)
    → HasUniqueOutputs prob.ops
    → HasNoCycle prob
    → (d : Dag) × ((assertions : Bool) → build assertions prob ≡ ok d) × Describes prob d
build_lem prob unique acyclic =
    let (producer, runs) = map_producers_total prob.ops unique in
    let g = links-IsGraph prob producer runs in
    let rank : IsAcyclic (links prob producer runs).op_preds = record {
      rank = acyclic.rank;
      rises = λ u v h. acyclic.rises u v (sym (preds-depends prob producer runs u v) ∙ h);
    } in
    let (order, sorts, is_order, full) = topo_sort_complete g rank in
    (
      assemble prob producer (links prob producer runs) order,
      λ assertions.
          build-some assertions prob producer order
            (map_producers_any assertions prob.ops producer runs) sorts,
      unfold assemble in
          record {
            size = refl;
            tensors = refl;
            producers = λ t u. map_producers_sound prob.ops producer t u runs;
            consumers = λ t v. (link_ops_lem producer prob.ops 0 v t).2;
            edges = preds-depends prob producer runs;
            built = record { graph = g; order = is_order; full = full; matrix = refl };
          },
    )
