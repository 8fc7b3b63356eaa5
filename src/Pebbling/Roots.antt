-- ===== src/Pebbling/Roots.antt =====
-- core/pebbling_order.cpp, DfsPostOrderStrategy: the loop over the roots, and the order.
use pto_fusebox.Base.{
  ℕ, ◌≡◌, refl, sym, ap, subst, ◌↔◌, inl, inr, true, false, not, ◌&&◌, ◌||◌, some, List, [], ◌∷◌,
  arith, Bool-cases, eq_or_ne, elem,
}
use pto_fusebox.Dag.Graph.{IsAcyclic, Follows}
use pto_fusebox.Pebbling.{
  PebblingOrderNode, PebblingOrderGraph, is_node, arrange, Search, fuel_for, run_roots, compute,
}
use pto_fusebox.Pebbling.Stack.{elem-arrange}
use pto_fusebox.Pebbling.Needs.{node_preds, Needed, root, pred, weight-fuel}
use pto_fusebox.Pebbling.Order.{Inv, entry}
use pto_fusebox.Pebbling.Run.{run_stack-Returns}

module _ (nodes : List PebblingOrderNode) (roots : List ℕ) (a : IsAcyclic (node_preds nodes)) where
  pushed-Inv :
      (s : Search) (r : ℕ)
      → Inv nodes roots a s []
      → elem roots r ≡ true
      → is_node nodes r ≡ true
      → Inv nodes roots a s (entry nodes roots a r false ∷ [])
  pushed-Inv s r v m n = record {
    seen = v.seen;
    pending = λ x h. cc;
    ordered = (λ x h. cc, tt);
    covered = (λ h. cc, tt);
    follows = v.follows;
    closed = v.closed;
    needed = λ x h. elim (eq_or_ne x r) [
      | inl e ↦ subst (Needed nodes roots) (sym e) (root m n)
      | inr e ↦ v.needed x (ground arith)
    ];
  }

  -- The loop over the roots, with all that it has visited at the end.
  run_roots-Returns :
      (rs : List ℕ) (s : Search)
      → Inv nodes roots a s []
      → ((x : ℕ) → elem rs x ≡ true → elem roots x ≡ true)
      → (s' : Search) × (run_roots nodes rs s ≡ some s')
        × Inv nodes roots a s' []
        × ((x : ℕ)
            → (elem s.visited x || elem rs x && is_node nodes x) ≡ true
            → elem s'.visited x ≡ true)
  unfolding run_roots
  run_roots-Returns [] s v h = (s, refl, v, λ x m. ground arith)
  run_roots-Returns (r ∷ rs) s v h =
      let later : (x : ℕ) → elem rs x ≡ true → elem roots x ≡ true = λ x m. h x (ground arith) in
      elim (Bool-cases (elem s.visited r || not (is_node nodes r))) [
        | inl e ↦
            let (s', runs, v', all) = run_roots-Returns rs s v later in
            (
              s',
              rw (e, run_roots) runs,
              v',
              λ x m. elim (eq_or_ne x r) [
                | inl same ↦
                    all x (ground (arith, ap (elem s.visited) same, ap (is_node nodes) same))
                | inr other ↦ all x (ground arith)
              ],
            )
        | inr e ↦
            let pushed : Inv nodes roots a s (entry nodes roots a r false ∷ []) =
              pushed-Inv s r v (h r (ground arith)) (ground arith) in
            let (s1, runs1, v1, all1) =
              run_stack-Returns nodes roots a (fuel_for nodes) (entry nodes roots a r false ∷ []) s
                pushed (omega (arith, weight-fuel s.visited nodes)) in
            let (s', runs, v', all) = run_roots-Returns rs s1 v1 later in
            (s', rw (e, runs1, run_roots) runs, v', λ x m. all x (ground (arith, all1 x)))
      ]

-- The steps of a search from a root to what it needs stay among the visited nodes.
Needed-visited :
    (nodes : List PebblingOrderNode) (roots : List ℕ) (a : IsAcyclic (node_preds nodes))
    (s : Search)
    → Inv nodes roots a s []
    → ((x : ℕ) → elem roots x ≡ true → is_node nodes x ≡ true → elem s.visited x ≡ true)
    → {x : ℕ} → Needed nodes roots x
    → elem s.order x ≡ true
Needed-visited nodes roots a s v all (root {x} m n) = ground (arith, v.seen x, all x m n)
Needed-visited nodes roots a s v all (pred {x} {p} h m) =
    v.closed x p (Needed-visited nodes roots a s v all h) m

-- On a graph without a cycle the depth-first strategy returns: it lists each node at most once and
-- behind all its predecessors that are nodes of the graph, and it lists exactly the nodes that the
-- roots need.
pub compute_lem :
    (graph : PebblingOrderGraph)
    → IsAcyclic (node_preds graph.nodes)
    → (order : List ℕ) × (compute graph ≡ some order)
      × Follows (node_preds graph.nodes) [] order
      × ((x : ℕ) → (elem order x ≡ true) ↔ Needed graph.nodes graph.roots x)
unfolding compute
compute_lem graph a =
    let start : Inv graph.nodes graph.roots a (record { visited = []; order = [] }) [] = record {
      seen = λ x. refl;
      pending = λ x h. cc;
      ordered = tt;
      covered = tt;
      follows = tt;
      closed = λ x p m h. cc;
      needed = λ x h. cc;
    } in
    let (s, runs, v, all) =
      run_roots-Returns graph.nodes graph.roots a (arrange graph.nodes graph.roots) _ start
        (λ x m. ground (arith, elem-arrange graph.nodes graph.roots x)) in
    (
      s.order,
      rw (runs, compute),
      v.follows,
      λ x. (
        λ m. v.needed x (ground (arith, v.seen x)),
        λ n.
            Needed-visited graph.nodes graph.roots a s v
              (λ y m h. all y (ground (arith, elem-arrange graph.nodes graph.roots y))) n,
      ),
    )
