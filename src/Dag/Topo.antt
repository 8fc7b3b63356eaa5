-- ===== src/Dag/Topo.antt =====
-- core/dag.cpp, DAG::topo_sort: Kahn's algorithm with the smallest ready index first.
pub mod Kahn
pub mod Round
pub mod Complete
use pto_fusebox.Base.{
  ℕ, zero, suc, ◌-◌, List, [], ◌∷◌, ◌++◌, Option, none, some, Bool, true, false, Table, put, ltb,
  ◌==◌, if◌then◌else◌, length,
}

-- `std::priority_queue` with `std::greater`: an ascending list, whose top is its head.
pub push : ℕ → List ℕ → List ℕ
push v [] = v ∷ []
push v (x ∷ q) = if ltb x v then x ∷ push v q else v ∷ x ∷ q

pub record Frontier : Type 0 where
  pub in_deg : Table ℕ
  pub queue : List ℕ

-- `if (--in_deg[v] == 0) q.push(v)` for each successor. A counter that is 0 stays at 0 here and is
-- negative in the source; neither is pushed, then or later.
pub relax : List ℕ → Frontier → Frontier
unfolding push
relax [] f = f
relax (v ∷ vs) f = relax vs (record {
  in_deg = put f.in_deg v (f.in_deg v - 1);
  queue = if f.in_deg v == 1 then push v f.queue else f.queue;
})

-- The operations from `i` on, `k` of them, that are ready at the start.
pub push_ready : ℕ → Table ℕ → List ℕ
unfolding push
push_ready zero in_deg = []
push_ready (suc i) in_deg =
    if in_deg i == 0 then push i (push_ready i in_deg) else push_ready i in_deg

module _ (op_succs : Table (List ℕ)) where
  -- The `while` loop; `none` means that the fuel ran out.
  pub kahn : ℕ → Frontier → List ℕ → Option (List ℕ)
  unfolding relax
  kahn zero f order = elim f.queue [ [] ↦ some order | u ∷ q ↦ none ]
  kahn (suc fuel) f order = elim f.queue [
    | [] ↦ some order
    | u ∷ q ↦ kahn fuel (relax (op_succs u) (record f { queue = q })) (order ++ u ∷ [])
  ]

-- The method, on the three fields that it reads. Each round takes an operation off for good, so
-- `num_ops` rounds are enough.
unfoldable pub topo_sort : ℕ → Table (List ℕ) → Table (List ℕ) → Option (List ℕ)
unfolding kahn push_ready
topo_sort num_ops op_preds op_succs =
    let in_deg : Table ℕ = λ i. length (op_preds i) in
    kahn op_succs num_ops (record { in_deg = in_deg; queue = push_ready num_ops in_deg }) []
