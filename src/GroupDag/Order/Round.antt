-- ===== src/GroupDag/Order/Round.antt =====
-- core/group_dag.cpp: a round of `compute_topo_order` keeps the invariant of its loop.
use pto_fusebox.Base.{
  ℕ, ◌<◌, ◌≡◌, Bool, true, false, not, ◌&&◌, some, List, [], ◌∷◌, ◌++◌, arith, ◌==◌, ==_refl,
  length, elem, elem-append, Table, put,
}
use pto_fusebox.Dag.Graph.{Follows}
use pto_fusebox.Dag.Topo.Kahn.{missing, missing-append, missing-zero, Follows-append}
use pto_fusebox.GroupDag.{GroupDag, GroupFrontier, place}
use pto_fusebox.GroupDag.Edges.{IsMirrored}
use pto_fusebox.GroupDag.Order.{
  IsUnique, in_deg-release, elem-release, release-IsUnique, release-pos,
}
use pto_fusebox.GroupDag.Order.Positions.{IsInverse, IsInverse-snoc}

-- The counters of the groups that can be placed count the predecessors that are not placed, the
-- queue holds those that are ready, and the positions are those of the order.
pub record Inv (can : Table Bool) (g : GroupDag) (f : GroupFrontier) : Type 0 where
  pub degrees : (x : ℕ) → can x ≡ true → f.in_deg x ≡ missing f.order (g.preds x)
  pub idle : (x : ℕ) → can x ≡ false → f.in_deg x ≡ 0
  pub ready : (x : ℕ) → elem f.queue x ≡ (can x && f.in_deg x == 0 && not (elem f.order x))
  pub unique : IsUnique f.queue
  pub closed : (x p : ℕ) → elem f.order x ≡ true → elem (g.preds x) p ≡ true → elem f.order p ≡ true
  pub follows : Follows g.preds [] f.order
  pub bounded : (x : ℕ) → elem f.order x ≡ true → can x ≡ true
  pub inverse : IsInverse f.pos f.order

module _ (can : Table Bool) (g : GroupDag) (m : IsMirrored g) (f : GroupFrontier) (v : Inv can g f)
    (u : ℕ) (q : List ℕ) (e : f.queue ≡ u ∷ q) where
  abbrev bare : GroupFrontier
  bare = record f {
    queue = q;
    pos = put f.pos u (some (length f.order));
    order = f.order ++ u ∷ [];
  }

  pub popped_ready : (can u ≡ true) × (f.in_deg u ≡ 0) × (elem f.order u ≡ false)
  popped_ready = ground (arith, rw e at (v.ready u), ==_refl u)

  preds_placed : (p : ℕ) → elem (g.preds u) p ≡ true → elem f.order p ≡ true
  preds_placed p h =
      missing-zero f.order (g.preds u) p (omega (arith, v.degrees u popped_ready.0, popped_ready.1))
        h

  not_own_succ : elem (g.succs u) u ≡ false
  not_own_succ = ground (arith, popped_ready.2, m.mirror u u, preds_placed u)

  -- A successor of `u` that can be placed waits for `u`.
  succ_waits :
      (x : ℕ)
      → elem (g.succs u) x ≡ true
      → can x ≡ true
      → (elem f.order x ≡ false) × (0 < f.in_deg x)
  succ_waits x h c =
      let h' : elem (g.preds x) u ≡ true = ground (arith, m.mirror u x) in
      (
        ground (arith, v.closed x u, popped_ready.2),
        ground (arith, v.degrees x c, missing-zero f.order (g.preds x) u, popped_ready.2),
      )

  unique_tail : (elem q u ≡ false) × IsUnique q
  unique_tail = rw e at v.unique

  pub place-Inv : Inv can g (place g.succs u q f)
  unfolding place
  place-Inv = record {
    degrees = λ x c. rw (release-pos (g.succs u) bare).1 (
        ground (
          arith,
          in_deg-release (g.succs u) bare x (m.succs_sorted u),
          v.degrees x c,
          m.mirror u x,
          missing-append f.order u (g.preds x) (m.preds_sorted x) popped_ready.2,
        ));
    idle = λ x c. ground (arith, in_deg-release (g.succs u) bare x (m.succs_sorted u), v.idle x c);
    ready = λ x. rw (release-pos (g.succs u) bare).1 (
        ground (
          arith,
          elem-release (g.succs u) bare x (m.succs_sorted u),
          in_deg-release (g.succs u) bare x (m.succs_sorted u),
          rw e at (v.ready x),
          v.idle x,
          elem-append f.order (u ∷ []) x,
          unique_tail.0,
          succ_waits x,
          not_own_succ,
        ));
    unique =
        release-IsUnique (g.succs u) bare (m.succs_sorted u) unique_tail.1
          (λ x h d. ground (arith, rw e at (v.ready x)));
    closed = λ x p. rw (release-pos (g.succs u) bare).1 (λ h i. ground (
      arith,
      elem-append f.order (u ∷ []) x,
      elem-append f.order (u ∷ []) p,
      v.closed x p,
      preds_placed p,
    ));
    follows =
        rw (release-pos (g.succs u) bare).1
          (Follows-append g.preds [] f.order u v.follows popped_ready.2 preds_placed);
    bounded = λ x.
        rw (release-pos (g.succs u) bare).1
          (λ h. ground (arith, elem-append f.order (u ∷ []) x, v.bounded x, popped_ready.0));
    inverse =
        rw ((release-pos (g.succs u) bare).0, (release-pos (g.succs u) bare).1)
          (IsInverse-snoc f.pos f.order u v.inverse popped_ready.2);
  }
