-- ===== src/GroupDag/Queries/Cycle.antt =====
-- core/group_dag.cpp: `merge_creates_cycle` answers whether a walk leaves the merged set and comes
-- back.
use pto_fusebox.Base.{
  ℕ, ◌≤◌, ◌<◌, ◌≡◌, refl, sym, ◌∙◌, ◌↔◌, inl, inr, Bool, true, false, not, ◌&&◌, Option, none, some,
  List, arith, ltb, Bool-cases, lt→ltb, le→leb, above_leb, true_or_false, length, elem, any,
  any_find, any_intro,
}
use pto_fusebox.Dag.Graph.{Walk, here, step}
use pto_fusebox.Partition.{Partition}
use pto_fusebox.GroupDag.{GroupDag}
use pto_fusebox.GroupDag.Edges.{IsMirrored}
use pto_fusebox.GroupDag.Order.Valid.{HasOrder}
use pto_fusebox.GroupDag.Explore.{Event}
use pto_fusebox.GroupDag.Explore.Correct.{Reached, start, onward, Ends, search_lem}
use pto_fusebox.GroupDag.Queries.{
  is_merged, is_placed, max_pos, may_return, needs_bfs, is_safe, seeds_of, merge_events,
  merge_creates_cycle,
}
use pto_fusebox.GroupDag.Queries.Reach.{append_step, Walk-pos}
use pto_fusebox.GroupDag.Queries.Events.{
  finds-merge_events, elem-merge_events, finds-seeds_of, elem-seeds_of, placed-of_all, le-max_pos,
}

-- A walk from a group of the set through a group outside it back to a group of the set.
pub record Detour (g : GroupDag) (merge_set : List ℕ) : Type 0 where
  pub from : ℕ
  pub outside : ℕ
  pub back : ℕ
  pub from_merged : elem merge_set from ≡ true
  pub not_merged : elem merge_set outside ≡ false
  pub back_merged : elem merge_set back ≡ true
  pub leaves : elem (g.succs from) outside ≡ true
  pub returns : Walk g.succs outside back

position : (o : Option ℕ) → is_placed o ≡ true → (i : ℕ) × (o ≡ some i)
position none h = cc
position (some i) h = (i, refl)

both_true : {p q : Bool} → p ≡ true → q ≡ true → (p && q) ≡ true
both_true h i = ground arith

module _ (part : Partition) (g : GroupDag) (m : IsMirrored g) (o : HasOrder part g)
    (ms : List ℕ) where
  abbrev seeds : List Event
  seeds = seeds_of g ms ms

  abbrev expand : ℕ → List Event
  expand cur = merge_events g ms (g.succs cur)

  abbrev IsReached : ℕ → Type 0
  IsReached = Reached (λ x. false) seeds expand

  -- A group that the search gets to lies on a walk that leaves the set.
  abbrev Leaving : ℕ → Type 0
  Leaving v =
      (u : ℕ) × (w : ℕ) × (elem ms u ≡ true)
      × (elem ms w ≡ false)
      × (elem (g.succs u) w ≡ true)
      × Walk g.succs w v

  Reached-Leaving : (v : ℕ) → IsReached v → Leaving v
  Reached-Leaving v (start i c) =
      let both : (any (λ gi. ltb gi g.size && elem (g.succs gi) v) ms ≡ true)
          × (is_merged g ms v ≡ false) =
        ground (arith, elem-seeds_of g ms ms v) in
      let (u, member, edge) = any_find _ ms both.0 in
      let edge' : elem (g.succs u) v ≡ true = ground (arith, edge) in
      (u, v, member, ground (arith, m.inside u v edge', both.1), edge', here)
  Reached-Leaving v (onward {u} r i c) =
      let (a, b, am, bm, edge, walk) = Reached-Leaving u r in
      (a, b, am, bm, edge, append_step walk (ground (arith, elem-merge_events g ms (g.succs u) v)))

  merged_inside : (u v : ℕ) → elem (g.succs u) v ≡ true → is_merged g ms v ≡ elem ms v
  merged_inside u v edge = ground (arith, m.inside u v edge)

  Ends-Detour : Ends (λ x. false) seeds expand → Detour g ms
  Ends-Detour (v, r, f) =
      let (u, w, um, wm, edge, walk) = Reached-Leaving v r in
      let (b, last, merged) =
        any_find (is_merged g ms) (g.succs v) (sym (finds-merge_events g ms (g.succs v)) ∙ f) in
      record {
        from = u;
        outside = w;
        back = b;
        from_merged = um;
        not_merged = wm;
        back_merged = ground (arith, merged);
        leaves = edge;
        returns = append_step walk last;
      }

  Walk-Ends :
      (u b : ℕ)
      → Walk g.succs u b
      → IsReached u
      → elem ms u ≡ false
      → elem ms b ≡ true
      → Ends (λ x. false) seeds expand
  Walk-Ends u b here r out back = absurd (true_or_false back out)
  Walk-Ends u b (step {v = v} edge rest) r out back = elim (Bool-cases (elem ms v)) [
    | inl e ↦ (
      u,
      r,
      finds-merge_events g ms (g.succs u)
          ∙ any_intro (is_merged g ms) (g.succs u) v edge (merged_inside u v edge ∙ e),
    )
    | inr e ↦
        Walk-Ends v b rest
          (onward r (elem-merge_events g ms (g.succs u) v ∙ ground (arith, merged_inside u v edge))
            refl)
          e back
  ]

  Detour-Ends : Detour g ms → Ends (λ x. false) seeds expand
  Detour-Ends t =
      let (lo, hi) = m.inside t.from t.outside t.leaves in
      let out =
        any_intro (λ gi. ltb gi g.size && elem (g.succs gi) t.outside) ms t.from t.from_merged
          (ground (arith, lo, t.leaves)) in
      Walk-Ends t.outside t.back t.returns
        (start
          (elem-seeds_of g ms ms t.outside
            ∙ ground (arith, out, merged_inside t.from t.outside t.leaves, t.not_merged))
          refl)
        t.not_merged t.back_merged

  Walk-inside : (u v : ℕ) → Walk g.succs u v → u < g.size → v < g.size
  Walk-inside u v here h = h
  Walk-inside u v (step {v = w} edge rest) h = Walk-inside w v rest (m.inside u w edge).1

  -- The fast path is right: nothing that comes later leads back.
  is_safe-not-Detour : is_safe g ms ≡ true → ¬ Detour g ms
  is_safe-not-Detour safe t =
      let (lo, hi) = m.inside t.from t.outside t.leaves in
      let back_in = Walk-inside t.outside t.back t.returns hi in
      let placed = placed-of_all g ms ms t.back (ground (arith, safe)) t.back_merged back_in in
      let (i, e) = position (g.topo_pos t.back) placed in
      let top = le-max_pos g ms ms t.back i t.back_merged back_in e in
      let (k, le, p) = Walk-pos part g m o t.outside t.back i t.returns e in
      let early : may_return (g.topo_pos t.outside) (max_pos g ms) ≡ true =
        rw p (le→leb k (max_pos g ms) (omega arith)) in
      let exits =
        any_intro (λ gj. not (is_merged g ms gj) && may_return (g.topo_pos gj) (max_pos g ms))
          (g.succs t.from) t.outside t.leaves
          (ground (arith, early, merged_inside t.from t.outside t.leaves, t.not_merged)) in
      let search =
        any_intro _ ms t.from t.from_merged (both_true (lt→ltb t.from g.size lo) exits) in
      let still : needs_bfs g ms ≡ false = ground (arith, safe) in
      absurd (true_or_false search still)

  -- On mirrored edges with a valid order, and for a set of two groups at least, `merge_creates_cycle`
  -- ends, and it answers true exactly if a walk leads from a group of the set to a group outside it
  -- and back to a group of the set.
  pub merge_creates_cycle_iff :
      2 ≤ length ms → (b : Bool) × (merge_creates_cycle g ms ≡ some b) × ((b ≡ true) ↔ Detour g ms)
  unfolding merge_creates_cycle
  merge_creates_cycle_iff two = elim (Bool-cases (is_safe g ms)) [
    | inl e ↦ (
      false,
      rw (above_leb (length ms) 1 two, e) refl,
      (λ h. cc, λ t. absurd (is_safe-not-Detour e t)),
    )
    | inr e ↦
        let (b, runs, (sound, complete)) =
          search_lem g.size (λ x. false) seeds expand
            (λ u v r i. (m.inside u v (ground (arith, elem-merge_events g ms (g.succs u) v))).1)
            (finds-seeds_of g ms ms)
            (λ v i.
              let some_seed : any (λ gi. ltb gi g.size && elem (g.succs gi) v) ms ≡ true =
                ground (arith, elem-seeds_of g ms ms v) in
              let (u, _, edge) = any_find _ ms some_seed in
              (m.inside u v (ground (arith, edge))).1) in
        (
          b,
          rw (above_leb (length ms) 1 two, e) runs,
          (λ h. Ends-Detour (sound h), λ t. complete (Detour-Ends t)),
        )
  ]
