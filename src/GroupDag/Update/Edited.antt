-- ===== src/GroupDag/Update/Edited.antt =====
-- core/group_dag.cpp: the edges after `update`.
use pto_fusebox.Base.{
  ℕ, ◌≤◌, ◌≡◌, refl, sym, ◌∙◌, inl, inr, Bool, true, false, not, ◌&&◌, ◌||◌, some, List, [], ◌∷◌,
  arith, ltb, leb, ◌==◌, Bool-cases, length, elem, any, any_cong,
}
use pto_fusebox.FlatSet.{FlatSet, insert}
use pto_fusebox.FlatSet.Member.{elem-insert}
use pto_fusebox.Dag.Build.{insert_all}
use pto_fusebox.Dag.Build.Tables.{elem-insert_all}
use pto_fusebox.Partition.{Partition, group_at}
use pto_fusebox.GroupDag.{GroupDag, ensure_size, clear_edges_for, rebuild_edges_for}
use pto_fusebox.GroupDag.Edges.{IsMirrored, IsMirrored-same, Edges, ensure_size-edges}
use pto_fusebox.GroupDag.Clear.{clear_edges_for_lem}
use pto_fusebox.GroupDag.Links.{Adds, alive-lt}
use pto_fusebox.GroupDag.Build.{edges_at, link_ops-Adds}
use pto_fusebox.GroupDag.Order.Valid.{HasOrder, compute_topo_order_lem}
use pto_fusebox.GroupDag.Update.{
  to_rebuild, clear_all, rebuild_all, updated_edges, repair_topo_order, update,
}

-- The groups that are rebuilt: those affected, and their neighbours.
pub elem-to_rebuild :
    (g : GroupDag) (gs : List ℕ) (set : FlatSet) (x : ℕ)
    → elem (to_rebuild g gs set) x ≡ (
        elem set x
        || any (λ gi. ltb gi g.size && (x == gi || elem (g.succs gi) x || elem (g.preds gi) x)) gs)
unfolding to_rebuild
elem-to_rebuild g [] set x = ground arith
elem-to_rebuild g (gi ∷ gs) set x = elim (Bool-cases (leb g.size gi)) [
  | inl e ↦ rw e (ground (arith, elem-to_rebuild g gs set x))
  | inr e ↦
      let one = (insert set gi).set in
      let two = insert_all (g.succs gi) one in
      rw e (
        ground (
          arith,
          elem-to_rebuild g gs (insert_all (g.preds gi) two) x,
          elem-insert_all (g.preds gi) two x,
          elem-insert_all (g.succs gi) one x,
          elem-insert set gi x,
        ))
]

clear_edges_for-size : (gi : ℕ) (g : GroupDag) → (clear_edges_for gi g).size ≡ g.size
unfolding clear_edges_for
clear_edges_for-size gi g = elim (Bool-cases (leb g.size gi)) [
  | inl e ↦ rw (e, clear_edges_for) refl
  | inr e ↦ rw (e, clear_edges_for) refl
]

clear_all-Edges :
    (gs : List ℕ) (g : GroupDag)
    → IsMirrored g
    → Edges (clear_all gs g) (λ u v. not (elem gs u) && not (elem gs v) && elem (g.succs u) v)
      × ((clear_all gs g).size ≡ g.size)
unfolding clear_all
clear_all-Edges [] g m = (record { mirrored = m; edges = λ u v. refl }, refl)
clear_all-Edges (gi ∷ gs) g m =
    let c = clear_edges_for_lem gi g m in
    let (a, s) = clear_all-Edges gs (clear_edges_for gi g) c.mirrored in
    (
      record { mirrored = a.mirrored; edges = λ u v. ground (arith, a.edges u v, c.edges u v) },
      s ∙ clear_edges_for-size gi g,
    )

module _ (part : Partition) where
  -- The edges that are found from the groups of the list that are alive.
  abbrev pub found_from : List ℕ → ℕ → ℕ → Bool
  found_from gs u v =
      any (λ gi. (group_at part gi).alive && edges_at part gi (group_at part gi).ops u v) gs

  rebuild_all-Adds :
      (gs : List ℕ) (g : GroupDag)
      → g.size ≡ length part.groups
      → IsMirrored g
      → Adds g (rebuild_all part gs g) (found_from gs)
  unfolding rebuild_all rebuild_edges_for
  rebuild_all-Adds [] g s m = record { mirrored = m; same_size = refl; edges = λ u v. ground arith }
  rebuild_all-Adds (gi ∷ gs) g s m = elim (Bool-cases (group_at part gi).alive) [
    | inl e ↦
        let inside : leb (length part.groups) gi ≡ false =
          ground (arith, alive-lt part.groups gi e) in
        let b = link_ops-Adds part gi e (group_at part gi).ops g s m in
        let a = rebuild_all-Adds gs _ (b.same_size ∙ s) b.mirrored in
        rw (e, inside, rebuild_all, rebuild_edges_for)
          (record {
            mirrored = a.mirrored;
            same_size = a.same_size ∙ b.same_size;
            edges = λ u v. ground (arith, a.edges u v, b.edges u v);
          })
    | inr e ↦
        let a = rebuild_all-Adds gs g s m in
        let skip : (leb (length part.groups) gi || not (group_at part gi).alive) ≡ true =
          ground (arith, e) in
        rw (skip, rebuild_all)
          (record {
            mirrored = a.mirrored;
            same_size = a.same_size;
            edges = λ u v. ground (arith, a.edges u v, e);
          })
  ]

  ensure_size-size :
      (g : GroupDag)
      → g.size ≤ length part.groups
      → (ensure_size (length part.groups) g).size ≡ length part.groups
  unfolding ensure_size
  ensure_size-size g small = elim (Bool-cases (ltb g.size (length part.groups))) [
    | inl e ↦ rw (e, ensure_size) refl
    | inr e ↦ rw (e, ensure_size) (ground (arith, e))
  ]

  -- The groups that `update` rebuilds: the affected ones that exist, and their neighbours.
  abbrev pub is_rebuilt : FlatSet → GroupDag → ℕ → Bool
  is_rebuilt affected g x =
      any
        (λ gi.
          ltb gi (length part.groups) && (x == gi || elem (g.succs gi) x || elem (g.preds gi) x))
        affected

  pub updated_edges_lem :
      (affected : FlatSet) (g : GroupDag)
      → IsMirrored g
      → g.size ≤ length part.groups
      → (rebuilt : FlatSet) × ((x : ℕ) → elem rebuilt x ≡ is_rebuilt affected g x)
        × Edges (updated_edges part affected g) (λ u v.
          (not (elem rebuilt u) && not (elem rebuilt v) && elem (g.succs u) v)
          || found_from rebuilt u v)
  unfolding updated_edges
  updated_edges_lem affected g m small =
      let n = length part.groups in
      let sized = ensure_size n g in
      let (ms, grown, same) = ensure_size-edges n g m in
      let rebuilt = to_rebuild sized affected [] in
      let (c, size) = clear_all-Edges rebuilt sized ms in
      let a =
        rebuild_all-Adds rebuilt (clear_all rebuilt sized) (size ∙ ensure_size-size g small)
          c.mirrored in
      (
        rebuilt,
        λ x.
            elem-to_rebuild sized affected [] x
            ∙ any_cong _ _ affected (λ gi _.
              let back : elem (sized.preds gi) x ≡ elem (g.preds gi) x =
                ms.mirror x gi ∙ same x gi ∙ sym (m.mirror x gi) in
              rw (ensure_size-size g small, same gi x, back) refl),
        record {
          mirrored = a.mirrored;
          edges = λ u v. ground (arith, a.edges u v, c.edges u v, same u v);
        },
      )

  -- On mirrored edges of no more groups than the partition has, `update` ends with mirrored edges and
  -- a valid order. It keeps the edges between groups that are not rebuilt; all other edges are those
  -- found anew from a group that is rebuilt. Rebuilt are the affected groups that exist and the groups
  -- that had an edge from or to one of them.
  pub update_lem :
      (affected : FlatSet) (g : GroupDag)
      → IsMirrored g
      → g.size ≤ length part.groups
      → (g' : GroupDag) × (update part affected g ≡ some g')
        × HasOrder part g'
        × ((rebuilt : FlatSet) × ((x : ℕ) → elem rebuilt x ≡ is_rebuilt affected g x)
            × Edges g' (λ u v.
              (not (elem rebuilt u) && not (elem rebuilt v) && elem (g.succs u) v)
              || found_from rebuilt u v))
  unfolding update repair_topo_order
  update_lem affected g m small =
      let (rebuilt, members, e) = updated_edges_lem affected g m small in
      let h = updated_edges part affected g in
      let (g', runs, size, succs, preds, order, _) = compute_topo_order_lem part h e.mirrored in
      (
        g',
        runs,
        order,
        (
          rebuilt,
          members,
          record {
            mirrored = IsMirrored-same h g' size succs preds e.mirrored;
            edges = λ u v. rw succs (e.edges u v);
          },
        ),
      )
