-- ===== src/Partition/Neighbors.antt =====
-- partition/partition.cpp: the operations at the border of a group, and the groups around it.
pub mod Cross
use pto_fusebox.Base.{
  ℕ, zero, suc, ◌+◌, ◌-◌, ◌*◌, ◌/◌, ◌%◌, ◌≤◌, ◌<◌, min, max, ◌≡◌, refl, sym, ap, ◌∙◌, subst,
  fun_ext, ◌≢◌, ◌↔◌, ◌⊎◌, inl, inr, Bool, true, false, not, ◌&&◌, ◌||◌, Option, none, some, List,
  [], ◌∷◌, ◌++◌, map, arith, ltb, leb, ◌==◌, if◌then◌else◌, Bool-cases, Option-cases, eq_or_ne,
  ltb→lt, lt→ltb, leb→le, ==→eq, ==_refl, ==-eq-false, length, get_elem?, get_or, length-append,
  List-cases, All, elem, elem-append, any, any_find, any_intro, any_cong, Table, put,
}
use pto_fusebox.FlatSet.{FlatSet, count, insert}
use pto_fusebox.FlatSet.Order.{IsSorted}
use pto_fusebox.FlatSet.Member.{count-elem, elem-insert}
use pto_fusebox.Partition.{Partition, group_at}
use pto_fusebox.Partition.Boundary.{contains}

unfoldable pub is_border_op : Partition → ℕ → ℕ → Bool
is_border_op part op gi =
    any (λ v. not (contains (group_at part gi).ops v)) (part.dag.op_neighbors op)

-- The loop over the operations of the group.
pub keep_border : Partition → ℕ → List ℕ → List ℕ
unfolding is_border_op
keep_border part gi [] = []
keep_border part gi (op ∷ ops) =
    let rest = keep_border part gi ops in if is_border_op part op gi then op ∷ rest else rest

unfoldable pub border_ops : Partition → ℕ → List ℕ
unfolding keep_border
border_ops part gi = keep_border part gi (group_at part gi).ops

-- `for (v : list) if (!ops.count(v)) result.insert(v)`.
pub insert_outside : FlatSet → List ℕ → FlatSet → FlatSet
insert_outside ops [] result = result
insert_outside ops (v ∷ vs) result =
    insert_outside ops vs (if contains ops v then result else (insert result v).set)

pub insert_around : Partition → ℕ → List ℕ → FlatSet → FlatSet
unfolding insert_outside
insert_around part gi [] result = result
insert_around part gi (op ∷ ops) result =
    insert_around part gi ops
      (insert_outside (group_at part gi).ops (part.dag.op_neighbors op) result)

unfoldable pub boundary_neighbors : Partition → ℕ → FlatSet
unfolding insert_around
boundary_neighbors part gi = insert_around part gi (group_at part gi).ops []

-- `for (gj : list) if (gj != gi) result.insert(gj)`.
pub insert_other_groups : ℕ → List ℕ → FlatSet → FlatSet
insert_other_groups gi [] result = result
insert_other_groups gi (gj ∷ gs) result =
    insert_other_groups gi gs (if gj == gi then result else (insert result gj).set)

pub insert_groups : Partition → ℕ → List ℕ → FlatSet → FlatSet
unfolding insert_other_groups
insert_groups part gi [] result = result
insert_groups part gi (op ∷ ops) result =
    insert_groups part gi ops (insert_other_groups gi (part.op_to_groups op) result)

unfoldable pub adjacent_groups : Partition → ℕ → FlatSet
unfolding insert_groups
adjacent_groups part gi = insert_groups part gi (boundary_neighbors part gi) []
