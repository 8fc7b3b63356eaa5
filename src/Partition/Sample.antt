-- ===== src/Partition/Sample.antt =====
-- A small partition for the tests: operation 0 of the sample problem stands alone and is computed
-- again in the group of all three.
use pto_fusebox.Base.{ℕ, zero, suc, ◌<◌, ◌≡◌, Bool, true, List, [], ◌∷◌, arith, elem}
use pto_fusebox.Dag.{Dag}
use pto_fusebox.Dag.Build.{build, ok}
use pto_fusebox.Dag.Build.Correct.{Describes, build_lem}
use pto_fusebox.Dag.Sample.{chain, chain-HasUniqueOutputs, chain-HasNoCycle}
use pto_fusebox.FlatSet.Order.{IsSorted}
use pto_fusebox.Problem.{num_ops}
use pto_fusebox.Partition.{Group, Partition, group_at, rebuild_index}
use pto_fusebox.Partition.Index.{HasOps, rebuild_index_lem}
use pto_fusebox.Partition.Update.{IsIndexed}

abbrev pub built :
    (d : Dag) × ((assertions : Bool) → build assertions chain ≡ ok d) × Describes chain d
built = build_lem chain chain-HasUniqueOutputs chain-HasNoCycle

abbrev pub group : List ℕ → Group
group ops = record { ops = ops; alive = true }

abbrev pub two_groups : Partition
two_groups = record {
  prob = chain;
  dag = built.0;
  groups = group (0 ∷ []) ∷ group (0 ∷ 1 ∷ 2 ∷ []) ∷ [];
  indexed = 0;
  op_to_groups = λ op. [];
}

pub two_groups-HasOps : HasOps two_groups
two_groups-HasOps = record { bounded = bounded }
  where
    bounded : (gi op : ℕ) → elem (group_at two_groups gi).ops op ≡ true → op < num_ops chain
    bounded zero op h = ground arith
    bounded (suc zero) op h = ground arith
    bounded (suc (suc gi)) op h = cc

abbrev pub indexed_groups : Partition
indexed_groups = rebuild_index two_groups

pub indexed_groups-IsIndexed : IsIndexed indexed_groups
unfolding rebuild_index
indexed_groups-IsIndexed op gj = rebuild_index_lem two_groups two_groups-HasOps op gj

pub indexed_groups-IsSorted : (gi : ℕ) → IsSorted (group_at indexed_groups gi).ops
unfolding rebuild_index
indexed_groups-IsSorted zero = (tt, tt)
indexed_groups-IsSorted (suc zero) = ground arith
indexed_groups-IsSorted (suc (suc gi)) = tt
