-- ===== src/Dag/Topo/Round.antt =====
-- core/dag.cpp, DAG::topo_sort: a round keeps the invariant, and the loop ends with it.
use pto_fusebox.Base.{
  ℕ, ◌<◌, ◌≡◌, List, [], ◌∷◌, ◌++◌, true, false, not, ◌&&◌, Table, ltb, ◌==◌, elem, elem-append,
  arith, ==_refl,
}
use pto_fusebox.FlatSet.Order.{IsSorted}
use pto_fusebox.FlatSet.Member.{elem-below}
use pto_fusebox.Dag.Graph.{IsGraph}
use pto_fusebox.Dag.Topo.{Frontier, relax}
use pto_fusebox.Dag.Topo.Kahn.{
  Inv, missing, missing-append, missing-zero, in_deg-relax, elem-relax, relax-IsSorted,
  Follows-append,
}
use pto_fusebox.Dag.Topo.{kahn}
use pto_fusebox.Base.{suc}

module _ {n : ℕ} {preds succs : Table (List ℕ)} (g : IsGraph n preds succs) where
  module _ (f : Frontier) (order : List ℕ) (u : ℕ) (q : List ℕ) (v : Inv g f order)
      (e : f.queue ≡ u ∷ q) where
    pub next : Frontier
    next = relax (succs u) (record f { queue = q })

    pub popped_ready : (u < n) × (f.in_deg u ≡ 0) × (elem order u ≡ false)
    popped_ready = ground (arith, rw e at (v.ready u), ==_refl u)

    preds_placed : (p : ℕ) → elem (preds u) p ≡ true → elem order p ≡ true
    preds_placed p m = missing-zero order (preds u) p (omega (arith, v.degrees u, popped_ready.1)) m

    not_own_succ : elem (succs u) u ≡ false
    not_own_succ = ground (arith, popped_ready.2, g.mirror u u, preds_placed u)

    -- A successor of `u` waits for `u`.
    succ_waits : (x : ℕ) → elem (succs u) x ≡ true → (elem order x ≡ false) × (0 < f.in_deg x)
    succ_waits x m =
        let m' : elem (preds x) u ≡ true = ground (arith, g.mirror u x) in
        (
          ground (arith, v.closed x u, popped_ready.2),
          ground (arith, v.degrees x, missing-zero order (preds x) u, popped_ready.2),
        )

    next_degrees : (x : ℕ) → next.in_deg x ≡ missing (order ++ u ∷ []) (preds x)
    unfolding next
    next_degrees x = ground (
      arith,
      in_deg-relax (succs u) (record f { queue = q }) x (g.succs_sorted u),
      v.degrees x,
      g.mirror u x,
      missing-append order u (preds x) (g.preds_sorted x) popped_ready.2,
    )

    next-IsSorted : IsSorted next.queue
    unfolding next
    next-IsSorted =
        let t : IsSorted (u ∷ q) = rw e at v.sorted in
        relax-IsSorted (succs u) (record f { queue = q }) (g.succs_sorted u) t.1
          (λ x m d. ground (arith, rw e at (v.ready x)))

    next_ready :
        (x : ℕ)
        → elem next.queue x ≡ (ltb x n && next.in_deg x == 0 && not (elem (order ++ u ∷ []) x))
    unfolding next
    next_ready x =
        let t : IsSorted (u ∷ q) = rw e at v.sorted in
        ground (
          arith,
          elem-relax (succs u) (record f { queue = q }) x (g.succs_sorted u),
          in_deg-relax (succs u) (record f { queue = q }) x (g.succs_sorted u),
          rw e at (v.ready x),
          elem-append order (u ∷ []) x,
          elem-below u q x t.0,
          succ_waits x,
          not_own_succ,
          g.inside u x,
        )

    next_closed :
        (x p : ℕ)
        → elem (order ++ u ∷ []) x ≡ true
        → elem (preds x) p ≡ true
        → elem (order ++ u ∷ []) p ≡ true
    next_closed x p m h = ground (
      arith,
      elem-append order (u ∷ []) x,
      elem-append order (u ∷ []) p,
      v.closed x p,
      preds_placed p,
    )

    pub next-Inv : Inv g next (order ++ u ∷ [])
    next-Inv = record {
      degrees = next_degrees;
      ready = next_ready;
      sorted = next-IsSorted;
      closed = next_closed;
      follows = Follows-append preds [] order u v.follows popped_ready.2 preds_placed;
      bounded = λ x m. ground (arith, elem-append order (u ∷ []) x, v.bounded x, popped_ready.0);
    }

    -- One iteration of the loop.
    pub kahn-next :
        (fuel : ℕ) → kahn succs (suc fuel) f order ≡ kahn succs fuel next (order ++ u ∷ [])
    unfolding kahn next
    kahn-next fuel = rw (e, kahn)
