-- ===== src/Dag/Graph.antt =====
-- The graph that op_preds and op_succs describe: its well-formedness, its walks, and orders of its
-- nodes.
use pto_fusebox.Base.{ℕ, ◌<◌, ◌≡◌, List, [], ◌∷◌, ◌++◌, Table, true, false, elem}
use pto_fusebox.FlatSet.Order.{IsSorted}

-- The two tables are mirror images, name operations below `n`, and are sorted without repetition.
pub record IsGraph (n : ℕ) (preds succs : Table (List ℕ)) : Type 0 where
  pub mirror : (u v : ℕ) → elem (preds v) u ≡ elem (succs u) v
  pub inside : (u v : ℕ) → elem (succs u) v ≡ true → (u < n) × (v < n)
  pub preds_sorted : (v : ℕ) → IsSorted (preds v)
  pub succs_sorted : (u : ℕ) → IsSorted (succs u)

-- The graph has no cycle: some rank rises along every edge.
pub record IsAcyclic (preds : Table (List ℕ)) : Type 0 where
  pub rank : ℕ → ℕ
  pub rises : (u v : ℕ) → elem (preds v) u ≡ true → rank u < rank v

-- The walks from `u` along successors, the empty one included.
pub data Walk (succs : Table (List ℕ)) : ℕ → ℕ → Type 0 where
  here : {u : ℕ} → Walk succs u u
  step : {u v w : ℕ} → elem (succs u) v ≡ true → Walk succs v w → Walk succs u w

-- Behind the operations of `seen`, each operation of the list is new and comes after all its
-- predecessors.
abbrev pub Follows : Table (List ℕ) → List ℕ → List ℕ → Type 0
Follows preds seen [] = Unit
Follows preds seen (x ∷ xs) =
    (elem seen x ≡ false)
    × ((p : ℕ) → elem (preds x) p ≡ true → elem seen p ≡ true)
    × Follows preds (seen ++ x ∷ []) xs
