-- ===== src/Dag/Topo/Complete.antt =====
-- core/dag.cpp, DAG::topo_sort: the result.
use pto_fusebox.Base.{
  ℕ, zero, suc, ◌+◌, ◌≤◌, ◌<◌, ◌≡◌, refl, List, [], ◌∷◌, ◌++◌, true, false, ◌&&◌, Table, ltb, ◌==◌,
  if◌then◌else◌, elem, elem-append, arith, Bool-cases, inl, inr, length, some, List-cases, ◌∙◌,
}
use pto_fusebox.FlatSet.Order.{IsSorted}
use pto_fusebox.Dag.Graph.{IsGraph, IsAcyclic, Follows}
use pto_fusebox.Dag.Topo.{Frontier, push_ready, kahn, topo_sort}
use pto_fusebox.Dag.Topo.Kahn.{Inv, missing, missing-pos, elem-push, push-IsSorted}
use pto_fusebox.Dag.Topo.Round.{next, next-Inv, popped_ready, kahn-next}

-- How many operations below `m` are not placed yet.
abbrev pub unplaced : ℕ → List ℕ → ℕ
unplaced zero order = 0
unplaced (suc m) order = (if elem order m then 0 else 1) + unplaced m order

pub unplaced-append :
    (m : ℕ) (order : List ℕ) (u : ℕ)
    → elem order u ≡ false
    → unplaced m (order ++ u ∷ []) + (if ltb u m then 1 else 0) ≡ unplaced m order
unplaced-append zero order u h = ground arith
unplaced-append (suc m) order u h =
    ground (arith, unplaced-append m order u, elem-append order (u ∷ []) m)

pub unplaced-pos :
    (m : ℕ) (order : List ℕ) (u : ℕ) → elem order u ≡ false → u < m → 0 < unplaced m order
unplaced-pos zero order u h p = absurd (omega arith)
unplaced-pos (suc m) order u h p = ground (arith, unplaced-pos m order u)

pub length-unplaced : (m : ℕ) → unplaced m [] ≡ m
length-unplaced zero = refl
length-unplaced (suc m) = omega (arith, length-unplaced m)

elem-push_ready :
    (m : ℕ) (in_deg : Table ℕ) (x : ℕ) → elem (push_ready m in_deg) x ≡ (ltb x m && in_deg x == 0)
unfolding push_ready
elem-push_ready zero in_deg x = ground arith
elem-push_ready (suc m) in_deg x =
    ground (arith, elem-push_ready m in_deg x, elem-push m (push_ready m in_deg) x)

push_ready-IsSorted : (m : ℕ) (in_deg : Table ℕ) → IsSorted (push_ready m in_deg)
unfolding push_ready
push_ready-IsSorted zero in_deg = tt
push_ready-IsSorted (suc m) in_deg = ground (
  arith,
  push_ready-IsSorted m in_deg,
  elem-push_ready m in_deg m,
  push-IsSorted m (push_ready m in_deg),
)

pub missing-nil : (ps : List ℕ) → length ps ≡ missing [] ps
missing-nil [] = refl
missing-nil (p ∷ ps) = omega (arith, missing-nil ps)

module _ {n : ℕ} {preds succs : Table (List ℕ)} (g : IsGraph n preds succs) where
  -- The loop returns an order with the invariant and an empty queue.
  kahn_returns :
      (fuel : ℕ) (f : Frontier) (order : List ℕ)
      → Inv g f order
      → unplaced n order ≤ fuel
      → (result : List ℕ) × (f' : Frontier) × (kahn succs fuel f order ≡ some result)
        × Inv g f' result
        × (f'.queue ≡ [])
  unfolding kahn
  kahn_returns zero f order v h = elim (List-cases f.queue) [
    | inl e ↦ (order, f, rw e, v, e)
    | inr (u, q, e) ↦
        let (inside, _, new) = popped_ready g f order u q v e in
        absurd (omega (arith, unplaced-pos n order u new inside))
  ]
  kahn_returns (suc fuel) f order v h = elim (List-cases f.queue) [
    | inl e ↦ (order, f, rw (e, kahn), v, e)
    | inr (u, q, e) ↦
        let (inside, _, new) = popped_ready g f order u q v e in
        let (result, f', runs, v', empty) =
          kahn_returns fuel (next g f order u q v e) (order ++ u ∷ []) (next-Inv g f order u q v e)
            (ground (arith, unplaced-append n order u new)) in
        (result, f', kahn-next g f order u q v e fuel ∙ runs, v', empty)
  ]

  abbrev start : Frontier
  start =
      let in_deg : Table ℕ = λ i. length (preds i) in
      record { in_deg = in_deg; queue = push_ready n in_deg }

  start-Inv : Inv g start []
  start-Inv = record {
    degrees = λ x. missing-nil (preds x);
    ready = λ x. ground (arith, elem-push_ready n (λ i. length (preds i)) x);
    sorted = push_ready-IsSorted n (λ i. length (preds i));
    closed = λ x p m h. cc;
    follows = tt;
    bounded = λ x m. cc;
  }

  topo_sort_returns :
      (result : List ℕ) × (f' : Frontier) × (topo_sort n preds succs ≡ some result)
      × Inv g f' result
      × (f'.queue ≡ [])
  unfolding topo_sort
  topo_sort_returns = kahn_returns n start [] start-Inv (omega (arith, length-unplaced n))

  -- Of an acyclic graph nothing is left when the queue is empty.
  placed :
      (a : IsAcyclic preds) (f' : Frontier) (result : List ℕ)
      → Inv g f' result
      → f'.queue ≡ []
      → (k x : ℕ) → a.rank x < k
      → x < n
      → elem result x ≡ true
  placed a f' result v e zero x h p = absurd (omega arith)
  placed a f' result v e (suc k) x h p = elim (Bool-cases (elem result x)) [
    | inl m ↦ m
    | inr out ↦
        let (y, edge, left) =
          missing-pos result (preds x) (ground (arith, rw e at (v.ready x), v.degrees x)) in
        let inside = g.inside y x (rw (← g.mirror y x) edge) in
        cc (placed a f' result v e k y (omega (arith, a.rises y x edge)) inside.0, left)
  ]

-- What the result of a topological sort of `n` operations promises.
pub record IsTopoOrder (n : ℕ) (preds : Table (List ℕ)) (order : List ℕ) : Type 0 where
  pub follows : Follows preds [] order
  pub bounded : (x : ℕ) → elem order x ≡ true → x < n

-- On a well-formed graph the sort returns: it lists operations of the graph, each at most once and
-- behind all its predecessors.
pub topo_sort_sound :
    {n : ℕ} {preds succs : Table (List ℕ)}
    → IsGraph n preds succs
    → (order : List ℕ) × (topo_sort n preds succs ≡ some order) × IsTopoOrder n preds order
topo_sort_sound g =
    let (order, _, runs, v, _) = topo_sort_returns g in
    (order, runs, record { follows = v.follows; bounded = v.bounded })

-- On a well-formed graph without a cycle the sort returns an order that lists every operation of
-- the graph, and nothing else.
pub topo_sort_complete :
    {n : ℕ} {preds succs : Table (List ℕ)}
    → IsGraph n preds succs
    → IsAcyclic preds
    → (order : List ℕ) × (topo_sort n preds succs ≡ some order)
      × IsTopoOrder n preds order
      × ((x : ℕ) → elem order x ≡ ltb x n)
topo_sort_complete g a =
    let (order, f', runs, v, empty) = topo_sort_returns g in
    (
      order,
      runs,
      record { follows = v.follows; bounded = v.bounded },
      λ x. ground (arith, v.bounded x, placed g a f' order v empty (suc (a.rank x)) x),
    )
