-- ===== src/GroupDag/Build.antt =====
-- core/group_dag.cpp, GroupDAG::rebuild_edges_for and GroupDAG::build: the edges of the graph.
use pto_fusebox.Base.{
  ℕ, zero, suc, ◌≤◌, ◌≡◌, refl, sym, ◌∙◌, inl, inr, Bool, true, false, ◌&&◌, ◌||◌, List, [], ◌∷◌,
  arith, ltb, leb, ◌==◌, Bool-cases, Option-cases, eq_or_ne, length, get_elem?, any,
}
use pto_fusebox.Problem.{output}
use pto_fusebox.Partition.{Partition, group_at}
use pto_fusebox.GroupDag.{
  GroupDag, empty_of, is_other, link_op, link_ops, rebuild_edges_for, build_edges, built_edges,
}
use pto_fusebox.GroupDag.Edges.{IsMirrored}
use pto_fusebox.GroupDag.Links.{Adds, feeds, fed_by, link_consumers-Adds, link_producers-Adds}

module _ (part : Partition) where
  -- The edges that the loops over group `gi` add.
  abbrev pub edges_at : ℕ → List ℕ → ℕ → ℕ → Bool
  edges_at gi ops u v =
      u == gi && is_other part gi v && any (feeds part gi v) ops
      || v == gi && is_other part gi u && any (fed_by part gi u) ops

  pub link_ops-Adds :
      (gi : ℕ)
      → (group_at part gi).alive ≡ true
      → (ops : List ℕ) (g : GroupDag) → g.size ≡ length part.groups
      → IsMirrored g
      → Adds g (link_ops part gi ops g) (edges_at gi ops)
  unfolding link_ops
  link_ops-Adds gi alive [] g s m = record {
    mirrored = m;
    same_size = refl;
    edges = λ u v. ground arith;
  }
  link_ops-Adds gi alive (i ∷ ops) g s m = elim (Option-cases (get_elem? part.prob.ops i)) [
    | inl e ↦
        let a = link_ops-Adds gi alive ops g s m in
        rw (e, link_ops, link_op, feeds, fed_by)
          (record {
            mirrored = a.mirrored;
            same_size = a.same_size;
            edges = λ u v. ground (arith, a.edges u v);
          })
    | inr (op, e) ↦
        let b = link_consumers-Adds part gi alive (part.dag.tensor_consumers (output op)) g s m in
        let c = link_producers-Adds part gi alive op.inputs _ (b.same_size ∙ s) b.mirrored in
        let a = link_ops-Adds gi alive ops _ (c.same_size ∙ b.same_size ∙ s) c.mirrored in
        rw (e, link_ops, link_op, feeds, fed_by)
          (record {
            mirrored = a.mirrored;
            same_size = a.same_size ∙ c.same_size ∙ b.same_size;
            edges = λ u v. ground (arith, a.edges u v, b.edges u v, c.edges u v);
          })
  ]

  -- The edges that the groups below `n` add.
  abbrev pub edges_below : ℕ → ℕ → ℕ → Bool
  edges_below n u v =
      ltb u n
        && (group_at part u).alive
        && is_other part u v
        && any (feeds part u v) (group_at part u).ops
      || ltb v n
        && (group_at part v).alive
        && is_other part v u
        && any (fed_by part v u) (group_at part v).ops

  edges_below-at :
      (n u v : ℕ)
      → (group_at part n).alive ≡ true
      → edges_below (suc n) u v ≡ (edges_below n u v || edges_at n (group_at part n).ops u v)
  edges_below-at n u v a = elim (eq_or_ne u n) [
    | inl e ↦ elim (eq_or_ne v n) [ inl f ↦ rw (e, f) (ground arith) | inr f ↦ rw e (ground arith) ]
    | inr e ↦ elim (eq_or_ne v n) [ inl f ↦ rw f (ground arith) | inr f ↦ ground arith ]
  ]

  edges_below-dead :
      (n u v : ℕ) → (group_at part n).alive ≡ false → edges_below (suc n) u v ≡ edges_below n u v
  edges_below-dead n u v a = elim (eq_or_ne u n) [
    | inl e ↦ rw e (ground arith)
    | inr e ↦ elim (eq_or_ne v n) [ inl f ↦ rw f (ground arith) | inr f ↦ ground arith ]
  ]

  build_edges-Adds :
      (n : ℕ)
      → n ≤ length part.groups
      → Adds
          (empty_of (length part.groups))
          (build_edges part n (empty_of (length part.groups)))
          (edges_below n)
  unfolding build_edges rebuild_edges_for
  build_edges-Adds zero h = record {
    mirrored = record {
      mirror = λ u v. refl;
      inside = λ u v h. cc;
      succs_sorted = λ u. tt;
      preds_sorted = λ u. tt;
    };
    same_size = refl;
    edges = λ u v. ground arith;
  }
  build_edges-Adds (suc n) h =
      let a = build_edges-Adds n (omega arith) in
      elim (Bool-cases (group_at part n).alive) [
        | inl e ↦
            let b =
              link_ops-Adds n e (group_at part n).ops
                (build_edges part n (empty_of (length part.groups))) a.same_size a.mirrored in
            let inside : leb (length part.groups) n ≡ false = ground arith in
            rw (e, inside, build_edges, rebuild_edges_for)
              (record {
                mirrored = b.mirrored;
                same_size = b.same_size ∙ a.same_size;
                edges = λ u v. ground (arith, a.edges u v, b.edges u v, edges_below-at n u v e);
              })
        | inr e ↦
            rw (e, build_edges)
              (record {
                mirrored = a.mirrored;
                same_size = a.same_size;
                edges = λ u v. a.edges u v ∙ sym (edges_below-dead n u v e);
              })
      ]

  pub built_edges-Adds :
      Adds (empty_of (length part.groups)) (built_edges part) (edges_below (length part.groups))
  unfolding built_edges
  built_edges-Adds = build_edges-Adds (length part.groups) (omega arith)
