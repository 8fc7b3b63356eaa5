-- ===== src/Subgraph/Schedule.antt =====
-- core/subgraph_structure.cpp: the execution order of the operations.
use pto_fusebox.Base.{
  ℕ, zero, suc, ◌+◌, ◌≤◌, ◌<◌, ◌≡◌, refl, sym, ap, ◌∙◌, inl, inr, true, false, not, some, List, [],
  ◌∷◌, ◌++◌, arith, Bool-cases, eq_or_ne, ==_refl, get_elem?, List-cases, elem, any_find, any_intro,
}
use pto_fusebox.Problem.{Op, Problem, output, num_tensors}
use pto_fusebox.Dag.{Dag}
use pto_fusebox.Dag.Graph.{IsAcyclic, Follows}
use pto_fusebox.Dag.Build.{is_empty}
use pto_fusebox.Dag.Build.Producers.{produces, consumes, depends}
use pto_fusebox.Dag.Build.Correct.{Describes, HasNoCycle}
use pto_fusebox.Pebbling.{PebblingOrderNode, compute}
use pto_fusebox.Pebbling.Needs.{node_preds, Needed, root, pred, Needed-is_node}
use pto_fusebox.Pebbling.Roots.{compute_lem}
use pto_fusebox.Subgraph.{SubgraphStructure, classify, create}
use pto_fusebox.Subgraph.Source.{source_nodes, build_source_op_pebbling_graph}
use pto_fusebox.Subgraph.Classes.{classify-Classified}
use pto_fusebox.Subgraph.Classes.Produced.{consumed_by, produced_by, is_live_out}
use pto_fusebox.Subgraph.Source.Nodes.{is_node-source, node_preds-source}

-- Behind the operations of `seen`, each one of the list is new and comes after all those of the set
-- that it depends on.
abbrev pub Schedules : Problem → List ℕ → List ℕ → List ℕ → Type 0
Schedules prob ops seen [] = Unit
Schedules prob ops seen (x ∷ order) =
    (elem seen x ≡ false)
    × ((p : ℕ) → elem ops p ≡ true → depends prob.ops p x ≡ true → elem seen p ≡ true)
    × Schedules prob ops (seen ++ x ∷ []) order

-- Every operation of the set is one of the problem, and its output is a tensor of the problem.
pub record IsWithin (prob : Problem) (ops : List ℕ) : Type 0 where
  pub has_op :
      (i : ℕ)
      → elem ops i ≡ true
      → (op : Op) × (get_elem? prob.ops i ≡ some op) × (output op < num_tensors prob)

-- A bound for the ranks of the list.
rank_bound : (rank : ℕ → ℕ) (ops : List ℕ) → (b : ℕ) × ((i : ℕ) → elem ops i ≡ true → rank i < b)
rank_bound rank [] = (0, λ i m. cc)
rank_bound rank (x ∷ ops) =
    let (b, below) = rank_bound rank ops in
    (
      suc (rank x + b),
      λ i m. elim (eq_or_ne i x) [
        | inl e ↦ omega (arith, ap rank e)
        | inr e ↦ omega (arith, below i (ground arith))
      ],
    )

module _ (prob : Problem) (d : Dag) (desc : Describes prob d) (acyclic : HasNoCycle prob)
    (ops : List ℕ) (within : IsWithin prob ops) where
  abbrev nodes : List PebblingOrderNode
  nodes = source_nodes prob d ops ops []

  nodes-IsAcyclic : IsAcyclic (node_preds nodes)
  nodes-IsAcyclic = record {
    rank = acyclic.rank;
    rises = λ u v m. acyclic.rises u v (ground (arith, node_preds-source prob d desc ops [] v u));
  }

  abbrev sinks : List ℕ
  sinks = (classify prob d ops).sinks

  -- An operation whose output does not leave the set has a reader in it.
  reader :
      (x : ℕ)
      → elem ops x ≡ true
      → is_live_out prob ops x ≡ false
      → (v : ℕ) × (elem ops v ≡ true) × (depends prob.ops x v ≡ true)
  reader x m h =
      let (op, e, inside) = within.has_op x m in
      let read : consumed_by prob ops (output op) ≡ true =
        ground (arith, rw (e, is_live_out) at h) in
      let (v, n, c) = any_find (λ i. consumes prob.ops i (output op)) ops read in
      let (vop, f, _) = within.has_op v n in
      (
        v,
        n,
        rw (f, depends)
            (any_intro (λ t. produces prob.ops x t) vop.inputs (output op) (rw (f, consumes) at c)
              (rw (e, produces) (==_refl (output op)))),
      )

  -- Every operation of the set is needed by a sink.
  Needed-from :
      (k b : ℕ)
      → ((i : ℕ) → elem ops i ≡ true → acyclic.rank i < b)
      → (x : ℕ) → elem ops x ≡ true
      → b ≤ acyclic.rank x + k
      → Needed nodes sinks x
  Needed-from zero b below x m h = absurd (omega (arith, below x m))
  Needed-from (suc k) b below x m h = elim (Bool-cases (is_live_out prob ops x)) [
    | inl e ↦
        root (ground (arith, (classify-Classified prob d desc ops).live_outs x))
          (is_node-source prob d desc ops [] x ∙ m)
    | inr e ↦
        let (v, n, edge) = reader x m e in
        pred (Needed-from k b below v n (omega (arith, acyclic.rises x v edge)))
          (ground (arith, node_preds-source prob d desc ops [] v x))
  ]

  needed : (x : ℕ) → elem ops x ≡ true → Needed nodes sinks x
  needed x m =
      let (b, below) = rank_bound acyclic.rank ops in Needed-from b b below x m (omega arith)

  Follows-Schedules :
      (seen order : List ℕ)
      → ((x : ℕ) → elem order x ≡ true → elem ops x ≡ true)
      → Follows (node_preds nodes) seen order
      → Schedules prob ops seen order
  Follows-Schedules seen [] h f = tt
  Follows-Schedules seen (x ∷ order) h f = (
    f.0,
    λ p m e. f.1 p (ground (arith, node_preds-source prob d desc ops [] x p, h x)),
    Follows-Schedules (seen ++ x ∷ []) order (λ y m. h y (ground arith)) f.2,
  )

  -- A sink, for an operation that needs it.
  first_sink :
      {x : ℕ} → Needed nodes sinks x → (r : ℕ) × (elem sinks r ≡ true) × (elem ops r ≡ true)
  first_sink (root {x} m n) = (x, m, sym (is_node-source prob d desc ops [] x) ∙ n)
  first_sink (pred n m) = first_sink n

  has_output :
      (x : ℕ) → elem ops x ≡ true → (t : ℕ) × (elem (classify prob d ops).boundary_outputs t ≡ true)
  has_output x m =
      let c = classify-Classified prob d desc ops in
      let (r, s, n) = first_sink (needed x m) in
      let (op, e, inside) = within.has_op r n in
      let out : is_live_out prob ops r ≡ true = ground (arith, c.live_outs r) in
      let made : produced_by prob ops (output op) ≡ true =
        any_intro (λ i. produces prob.ops i (output op)) ops r n
          (rw (e, produces) (==_refl (output op))) in
      (output op, ground (arith, c.outputs (output op), rw (e, is_live_out) at out))

-- What the constructor leaves behind for a set of operations.
pub record IsScheduled (prob : Problem) (ops : List ℕ) (s : SubgraphStructure) : Type 0 where
  pub is_valid : s.valid ≡ not (is_empty ops)
  pub all_ops : (i : ℕ) → elem s.dfs_order i ≡ elem ops i
  pub in_order : Schedules prob ops [] s.dfs_order

create-some :
    (prob : Problem) (d : Dag) (i : ℕ) (ops order : List ℕ) (t : ℕ)
    → elem (classify prob d (i ∷ ops)).boundary_outputs t ≡ true
    → compute (build_source_op_pebbling_graph prob d (i ∷ ops) (classify prob d (i ∷ ops)).sinks)
      ≡ some order
    → create prob d (i ∷ ops)
      ≡ some (record (classify prob d (i ∷ ops)) { dfs_order = order; valid = true })
unfolding create
create-some prob d i ops order t m e =
    elim (List-cases (classify prob d (i ∷ ops)).boundary_outputs) [
      | inl none_out ↦ absurd (cc (ap (λ l. elem l t) none_out, m))
      | inr (x, rest, out) ↦
          rw (out, e, create)
            (ap
              (λ b. some (record (classify prob d (i ∷ ops)) {
                boundary_outputs = b;
                dfs_order = order;
                valid = true;
              }))
              out)
    ]

create-nil :
    (prob : Problem) (d : Dag)
    → (s : SubgraphStructure) × (create prob d [] ≡ some s) × IsScheduled prob [] s
unfolding create
create-nil prob d = (_, refl, record { is_valid = refl; all_ops = λ i. refl; in_order = tt })

-- For a graph that describes a problem without a cycle, and a set of operations of the problem, the
-- constructor returns a structure that is valid exactly when the set is not empty, and whose
-- execution order lists exactly the operations of the set, each once and behind all those of the
-- set that it depends on.
pub scheduled_lem :
    (prob : Problem) (d : Dag)
    → Describes prob d
    → HasNoCycle prob
    → (ops : List ℕ) → IsWithin prob ops
    → (s : SubgraphStructure) × (create prob d ops ≡ some s) × IsScheduled prob ops s
unfolding build_source_op_pebbling_graph
scheduled_lem prob d desc acyclic [] within = create-nil prob d
scheduled_lem prob d desc acyclic (i ∷ ops) within =
    let all = i ∷ ops in
    let a = nodes-IsAcyclic prob d desc acyclic all within in
    let graph = build_source_op_pebbling_graph prob d all (classify prob d all).sinks in
    let (order, runs, follows, members) = compute_lem graph a in
    let (t, out) = has_output prob d desc acyclic all within i (ground arith) in
    let listed : (x : ℕ) → elem order x ≡ true → elem all x ≡ true =
      λ x m. sym (is_node-source prob d desc all [] x) ∙ Needed-is_node ((members x).0 m) in
    (
      _,
      create-some prob d i ops order t out runs,
      record {
        is_valid = refl;
        all_ops = λ x. elim (Bool-cases (elem all x)) [
          | inl m ↦ (members x).1 (needed prob d desc acyclic all within x m) ∙ sym m
          | inr m ↦ ground (arith, listed x)
        ];
        in_order = Follows-Schedules prob d desc acyclic all within [] order listed follows;
      },
    )
