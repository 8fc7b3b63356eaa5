-- ===== src/GroupDag/Update.antt =====
-- core/group_dag.cpp: `update`, after a move on the partition.
pub mod Edited
use pto_fusebox.Base.{
  ℕ, zero, suc, ◌+◌, ◌-◌, ◌*◌, ◌/◌, ◌%◌, ◌≤◌, ◌<◌, min, max, ◌≡◌, refl, sym, ap, ◌∙◌, subst,
  fun_ext, ◌≢◌, ◌↔◌, ◌⊎◌, inl, inr, Bool, true, false, not, ◌&&◌, ◌||◌, Option, none, some, List,
  [], ◌∷◌, ◌++◌, map, arith, ltb, leb, ◌==◌, if◌then◌else◌, Bool-cases, Option-cases, eq_or_ne,
  lt_or_ge, ◌^◌, ◌>>=◌, >>=-some, ltb→lt, lt→ltb, leb→le, le→leb, above_leb, ltb_of_zero,
  true_or_false, ==→eq, ==_refl, ==-eq-false, length, get_elem?, get_or, length-append, List-cases,
  All, elem, elem-append, In, All-In, range_by, In-range_by, IsAscending, range_by-IsAscending, any,
  any_find, any_intro, any_cong, Table, put,
}
use pto_fusebox.FlatSet.{FlatSet, insert}
use pto_fusebox.Dag.Build.{insert_all}
use pto_fusebox.Partition.{Partition, group_at}
use pto_fusebox.GroupDag.{
  GroupDag, ensure_size, clear_edges_for, rebuild_edges_for, compute_topo_order,
}

-- The affected groups and their neighbours at this time.
pub to_rebuild : GroupDag → List ℕ → FlatSet → FlatSet
to_rebuild g [] set = set
to_rebuild g (gi ∷ gs) set = to_rebuild g gs (
    if leb g.size gi
    then set
    else insert_all (g.preds gi) (insert_all (g.succs gi) (insert set gi).set))

pub clear_all : List ℕ → GroupDag → GroupDag
clear_all [] g = g
clear_all (gi ∷ gs) g = clear_all gs (clear_edges_for gi g)

pub rebuild_all : Partition → List ℕ → GroupDag → GroupDag
rebuild_all part [] g = g
rebuild_all part (gi ∷ gs) g = rebuild_all part gs (
    if leb (length part.groups) gi || not (group_at part gi).alive
    then g
    else rebuild_edges_for part gi g)

unfoldable pub updated_edges : Partition → FlatSet → GroupDag → GroupDag
updated_edges part affected g =
    let sized = ensure_size (length part.groups) g in
    let groups = to_rebuild sized affected [] in rebuild_all part groups (clear_all groups sized)

-- `repair_topo_order` computes the whole order anew.
unfoldable pub repair_topo_order : Partition → GroupDag → Option GroupDag
repair_topo_order part g = compute_topo_order part g

unfoldable pub update : Partition → FlatSet → GroupDag → Option GroupDag
update part affected g = repair_topo_order part (updated_edges part affected g)

unfoldable pub apply_generic : Partition → FlatSet → GroupDag → Option GroupDag
apply_generic part affected g = update part affected g

unfoldable pub rebuild_topo : Partition → GroupDag → Option GroupDag
rebuild_topo part g = compute_topo_order part g
