-- ===== src/GroupDag/Order/Result.antt =====
-- core/group_dag.cpp: what `compute_topo_order` returns.
use pto_fusebox.Base.{
  ℕ, zero, suc, ◌≤◌, ◌<◌, ◌≡◌, refl, inl, inr, Bool, true, ◌&&◌, some, List, [], ◌∷◌, ◌++◌, arith,
  ltb, ◌==◌, Bool-cases, eq_or_ne, length, elem, elem-append, Table, put,
}
use pto_fusebox.Dag.Graph.{IsAcyclic}
use pto_fusebox.Dag.Topo.Kahn.{missing-pos}
use pto_fusebox.Dag.Topo.Complete.{unplaced, unplaced-append, unplaced-pos, missing-nil}
use pto_fusebox.Partition.{Partition, group_at}
use pto_fusebox.GroupDag.{GroupDag, GroupFrontier, place, run_kahn, start_groups, start_frontier}
use pto_fusebox.GroupDag.Edges.{IsMirrored}
use pto_fusebox.GroupDag.Order.{IsUnique, IsUnique-append, release-pos}
use pto_fusebox.GroupDag.Order.Round.{Inv, popped_ready, place-Inv}

module _ (can : Table Bool) (g : GroupDag) (m : IsMirrored g)
    (inside : (x : ℕ) → can x ≡ true → x < g.size) where
  place-order :
      (u : ℕ) (q : List ℕ) (f : GroupFrontier) → (place g.succs u q f).order ≡ f.order ++ u ∷ []
  unfolding place
  place-order u q f =
      (release-pos (g.succs u) (record f {
        queue = q;
        pos = put f.pos u (some (length f.order));
        order = f.order ++ u ∷ [];
      })).1

  -- The loop returns a state with the invariant and an empty queue.
  pub run_kahn_returns :
      (fuel : ℕ) (queue : List ℕ) (f : GroupFrontier)
      → f.queue ≡ queue
      → Inv can g f
      → unplaced g.size f.order ≤ fuel
      → (f' : GroupFrontier) × (run_kahn g.succs fuel queue f ≡ some f')
        × Inv can g f'
        × (f'.queue ≡ [])
  unfolding run_kahn
  run_kahn_returns fuel [] f e v h = (f, refl, v, e)
  run_kahn_returns zero (u ∷ q) f e v h =
      let (c, _, new) = popped_ready can g m f v u q e in
      absurd (omega (arith, unplaced-pos g.size f.order u new (inside u c)))
  run_kahn_returns (suc fuel) (u ∷ q) f e v h =
      let (c, _, new) = popped_ready can g m f v u q e in
      run_kahn_returns fuel (place g.succs u q f).queue (place g.succs u q f) refl
        (place-Inv can g m f v u q e)
        (rw (place-order u q f) (ground (arith, unplaced-append g.size f.order u new, inside u c)))

  -- Nothing that can be placed is left when the queue is empty, unless it waits for a group that
  -- cannot be placed or a cycle.
  pub placed :
      (a : IsAcyclic g.preds) (f : GroupFrontier)
      → ((u v : ℕ) → elem (g.preds v) u ≡ true → can u ≡ true)
      → Inv can g f
      → f.queue ≡ []
      → (k x : ℕ) → a.rank x < k
      → can x ≡ true
      → elem f.order x ≡ true
  placed a f alive v e zero x h p = absurd (omega arith)
  placed a f alive v e (suc k) x h p = elim (Bool-cases (elem f.order x)) [
    | inl i ↦ i
    | inr out ↦
        let (y, edge, left) =
          missing-pos f.order (g.preds x) (ground (arith, rw e at (v.ready x), v.degrees x)) in
        cc (placed a f alive v e k y (omega (arith, a.rises y x edge)) (alive y x edge), left)
  ]

-- The groups that can be placed.
abbrev pub is_placeable : Partition → GroupDag → Table Bool
is_placeable part g x = ltb x g.size && (group_at part x).alive

elem-start_groups :
    (part : Partition) (in_deg : Table ℕ) (n x : ℕ)
    → elem (start_groups part in_deg n) x ≡ (ltb x n && (group_at part x).alive && in_deg x == 0)
unfolding start_groups
elem-start_groups part in_deg zero x = ground arith
elem-start_groups part in_deg (suc n) x = elim (eq_or_ne x n) [
  | inl e ↦ rw e (
      ground (
        arith,
        elem-start_groups part in_deg n n,
        elem-append (start_groups part in_deg n) (n ∷ []) n,
      ))
  | inr ne ↦ ground (
    arith,
    elem-start_groups part in_deg n x,
    elem-append (start_groups part in_deg n) (n ∷ []) x,
  )
]

start_groups-IsUnique :
    (part : Partition) (in_deg : Table ℕ) (n : ℕ) → IsUnique (start_groups part in_deg n)
unfolding start_groups
start_groups-IsUnique part in_deg zero = tt
start_groups-IsUnique part in_deg (suc n) = ground (
  arith,
  start_groups-IsUnique part in_deg n,
  elem-start_groups part in_deg n n,
  IsUnique-append (start_groups part in_deg n) n,
)

pub start-Inv :
    (part : Partition) (g : GroupDag) → Inv (is_placeable part g) g (start_frontier part g)
start-Inv part g = record {
  degrees = λ x c. ground (arith, missing-nil (g.preds x));
  idle = λ x c. ground (arith);
  ready = λ x. ground (arith, elem-start_groups part (start_frontier part g).in_deg g.size x);
  unique = start_groups-IsUnique part (start_frontier part g).in_deg g.size;
  closed = λ x p m h. cc;
  follows = tt;
  bounded = λ x m. cc;
  inverse = λ x i. (λ h. cc, λ h. cc);
}
