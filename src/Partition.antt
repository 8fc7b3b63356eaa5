-- ===== src/Partition.antt =====
-- partition/partition.h and partition/partition.cpp: the groups of operations and the index from
-- operations to groups. Of a group, the operations and whether it is alive are kept; its cost, its
-- tiling and its cached structure are the cost model's.
pub mod Index
pub mod Sample
pub mod Update
pub mod Boundary
pub mod Neighbors
pub mod Recomputed
mod Tests
use pto_fusebox.Base.{
  ℕ, zero, suc, ◌+◌, ◌-◌, ◌*◌, ◌/◌, ◌%◌, ◌≤◌, ◌<◌, min, max, ◌≡◌, refl, sym, ap, ◌∙◌, subst,
  fun_ext, ◌≢◌, ◌↔◌, ◌⊎◌, inl, inr, Bool, true, false, not, ◌&&◌, ◌||◌, Option, none, some, List,
  [], ◌∷◌, ◌++◌, map, arith, ltb, leb, ◌==◌, if◌then◌else◌, Bool-cases, Option-cases, eq_or_ne,
  ltb→lt, lt→ltb, leb→le, ==→eq, ==_refl, ==-eq-false, length, get_elem?, get_or, length-append,
  List-cases, All, elem, elem-append, any, any_find, any_intro, any_cong, Table, put,
}
use pto_fusebox.FlatSet.{FlatSet, count, insert}
use pto_fusebox.Problem.{Problem, num_ops}
use pto_fusebox.Dag.{Dag}
use pto_fusebox.Dag.Build.{push_back}

pub record Group : Type 0 where
  pub ops : FlatSet
  pub alive : Bool

-- `op_to_groups_` with its size.
pub record Partition : Type 0 where
  pub prob : Problem
  pub dag : Dag
  pub groups : List Group
  pub indexed : ℕ
  pub op_to_groups : Table (List ℕ)

-- `groups[gi]`; out of range, which is undefined in the source, there is no group alive.
abbrev pub group_at : Partition → ℕ → Group
group_at part gi = get_or part.groups gi (record { ops = []; alive = false })

unfoldable pub groups_of : Partition → ℕ → List ℕ
groups_of part op = if leb part.indexed op then [] else part.op_to_groups op

-- `for (op : ops) op_to_groups_[op].push_back(gi)`.
pub index_ops : ℕ → FlatSet → Table (List ℕ) → Table (List ℕ)
index_ops gi [] index = index
index_ops gi (op ∷ ops) index = index_ops gi ops (push_back index op gi)

pub index_groups : ℕ → List Group → Table (List ℕ) → Table (List ℕ)
unfolding index_ops
index_groups gi [] index = index
index_groups gi (g ∷ groups) index =
    index_groups (suc gi) groups (if g.alive then index_ops gi g.ops index else index)

-- `rebuild_index`, up to the caches.
unfoldable pub rebuild_index : Partition → Partition
unfolding index_groups
rebuild_index part = record part {
  indexed = num_ops part.prob;
  op_to_groups = index_groups 0 part.groups (λ op. []);
}

-- `std::remove` with `erase`.
pub remove_all : ℕ → List ℕ → List ℕ
remove_all a [] = []
remove_all a (x ∷ xs) = if x == a then remove_all a xs else x ∷ remove_all a xs

pub index_remove : Partition → ℕ → ℕ → Partition
unfolding remove_all
index_remove part op gi = if leb part.indexed op then part else record part {
  op_to_groups = put part.op_to_groups op (remove_all gi (part.op_to_groups op));
}

-- `resize`: the new entries are empty.
abbrev pub resize : ℕ → ℕ → Table (List ℕ) → Table (List ℕ)
resize old new v i = if ltb i old then v i else []

pub index_add : Partition → ℕ → ℕ → Partition
index_add part op gi =
    if leb part.indexed op
    then record part {
      indexed = op + 1;
      op_to_groups = push_back (resize part.indexed (op + 1) part.op_to_groups) op gi;
    }
    else record part { op_to_groups = push_back part.op_to_groups op gi }

-- `groups[gi].ops.insert(op)`.
pub insert_op : ℕ → ℕ → List Group → List Group
insert_op gi op [] = []
insert_op zero op (g ∷ groups) = record g { ops = (insert g.ops op).set } ∷ groups
insert_op (suc gi) op (g ∷ groups) = g ∷ insert_op gi op groups

-- The loop of `merge_ops_into`.
pub merge_each : ℕ → FlatSet → Partition → Partition
unfolding insert_op
merge_each gi [] part = part
merge_each gi (op ∷ ops) part = merge_each gi ops (record part {
  groups = insert_op gi op part.groups;
  op_to_groups = push_back part.op_to_groups op gi;
})

unfoldable pub merge_ops_into : Partition → ℕ → FlatSet → Partition
unfolding merge_each
merge_ops_into part gi ops = merge_each gi ops (
    if ltb part.indexed (num_ops part.prob)
    then record part {
      indexed = num_ops part.prob;
      op_to_groups = resize part.indexed (num_ops part.prob) part.op_to_groups;
    }
    else part)
