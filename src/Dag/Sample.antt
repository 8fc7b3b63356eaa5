-- ===== src/Dag/Sample.antt =====
-- A small problem for the tests: the chain 0 → 1 → 2 in which operation 2 also reads the input of
-- operation 0.
use pto_fusebox.Base.{ℕ, zero, suc, ◌<◌, ◌≡◌, refl, true, List, [], ◌∷◌, arith}
use pto_fusebox.Problem.{DType, Tensor, OpType, Op, Problem}
use pto_fusebox.Dag.Build.{build}
use pto_fusebox.Dag.Build.Producers.{HasUniqueOutputs, depends, map_producers_unique}
use pto_fusebox.Dag.Build.Correct.{HasNoCycle}

abbrev tile : Tensor
tile = record { width = 16; height = 16; dtype = DType.fp32 }

abbrev pub pointwise : List ℕ → ℕ → Op
pointwise inputs t = record { type = OpType.pointwise; inputs = inputs; outputs = t ∷ [] }

abbrev pub chain : Problem
chain = record {
  tensors = tile ∷ tile ∷ tile ∷ tile ∷ [];
  ops = pointwise (0 ∷ []) 1 ∷ pointwise (1 ∷ []) 2 ∷ pointwise (2 ∷ 0 ∷ []) 3 ∷ [];
  required_outputs = [];
}

pub chain-HasUniqueOutputs : HasUniqueOutputs chain.ops
unfolding build
chain-HasUniqueOutputs = map_producers_unique chain.ops _ refl

pub chain_rises : (u v : ℕ) → depends chain.ops u v ≡ true → u < v
chain_rises zero zero h = cc
chain_rises zero (suc v) h = omega arith
chain_rises (suc zero) zero h = cc
chain_rises (suc zero) (suc zero) h = cc
chain_rises (suc zero) (suc (suc v)) h = omega arith
chain_rises (suc (suc zero)) zero h = cc
chain_rises (suc (suc (suc u))) zero h = cc
chain_rises (suc (suc zero)) (suc zero) h = cc
chain_rises (suc (suc zero)) (suc (suc zero)) h = cc
chain_rises (suc (suc zero)) (suc (suc (suc v))) h = omega arith
chain_rises (suc (suc (suc u))) (suc zero) h = cc
chain_rises (suc (suc (suc u))) (suc (suc zero)) h = cc
chain_rises (suc (suc (suc u))) (suc (suc (suc v))) h = cc

pub chain-HasNoCycle : HasNoCycle chain
chain-HasNoCycle = record { rank = λ i. i; rises = chain_rises }
