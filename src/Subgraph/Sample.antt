-- ===== src/Subgraph/Sample.antt =====
-- A set of operations for the tests: the last two of the sample problem.
use pto_fusebox.Base.{
  ℕ, zero, suc, ◌<◌, ◌≡◌, Bool, refl, true, some, [], ◌∷◌, arith, get_elem?, elem,
}
use pto_fusebox.Problem.{Op, output, num_tensors}
use pto_fusebox.Dag.{Dag}
use pto_fusebox.Dag.Build.{build, ok}
use pto_fusebox.Dag.Build.Correct.{Describes, build_lem}
use pto_fusebox.Dag.Sample.{chain, chain-HasUniqueOutputs, chain-HasNoCycle}
use pto_fusebox.Subgraph.Schedule.{IsWithin}

abbrev pub built :
    (d : Dag) × ((assertions : Bool) → build assertions chain ≡ ok d) × Describes chain d
built = build_lem chain chain-HasUniqueOutputs chain-HasNoCycle

abbrev pub graph : Dag
graph = built.0

pub pair-IsWithin : IsWithin chain (1 ∷ 2 ∷ [])
pair-IsWithin = record { has_op = within }
  where
    within :
        (i : ℕ)
        → elem (1 ∷ 2 ∷ []) i ≡ true
        → (op : Op) × (get_elem? chain.ops i ≡ some op) × (output op < num_tensors chain)
    within zero h = cc
    within (suc zero) h = (_, refl, omega arith)
    within (suc (suc zero)) h = (_, refl, omega arith)
    within (suc (suc (suc i))) h = absurd (ground arith)
