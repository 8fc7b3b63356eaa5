-- ===== src/GroupDag.antt =====
-- core/group_dag.h and core/group_dag.cpp: the graph of the groups, its edges.
pub mod Edges
pub mod Clear
pub mod Links
pub mod Build
pub mod Feeds
pub mod Flows
pub mod Order
pub mod Explore
pub mod Queries
pub mod Moves
pub mod Update
mod Tests
use pto_fusebox.Base.{
  ℕ, zero, suc, ◌+◌, ◌-◌, ◌*◌, ◌/◌, ◌%◌, ◌≤◌, ◌<◌, min, max, ◌≡◌, refl, sym, ap, ◌∙◌, subst,
  fun_ext, ◌≢◌, ◌↔◌, ◌⊎◌, inl, inr, Bool, true, false, not, ◌&&◌, ◌||◌, Option, none, some, List,
  [], ◌∷◌, ◌++◌, map, arith, ltb, leb, ◌==◌, if◌then◌else◌, Bool-cases, Option-cases, eq_or_ne,
  lt_or_ge, ◌^◌, ◌>>=◌, >>=-some, ltb→lt, lt→ltb, leb→le, le→leb, above_leb, ltb_of_zero,
  true_or_false, ==→eq, ==_refl, ==-eq-false, length, get_elem?, get_or, length-append, List-cases,
  All, elem, elem-append, In, All-In, range_by, In-range_by, IsAscending, range_by-IsAscending, any,
  any_find, any_intro, any_cong, Table, put,
}
use pto_fusebox.FlatSet.{FlatSet, count, insert, erase}
use pto_fusebox.Problem.{Op, output}
use pto_fusebox.Partition.{Partition, group_at, groups_of}

-- `succs_`, `preds_` and `topo_pos_`, which have the same size; beyond it nothing is read. The
-- position -1 is `none`.
pub record GroupDag : Type 0 where
  pub size : ℕ
  pub succs : Table FlatSet
  pub preds : Table FlatSet
  pub topo_pos : Table (Option ℕ)
  pub topo_order : List ℕ

abbrev pub empty_of : ℕ → GroupDag
empty_of n = record {
  size = n;
  succs = λ g. [];
  preds = λ g. [];
  topo_pos = λ g. none;
  topo_order = [];
}

-- The new entries are empty.
pub ensure_size : ℕ → GroupDag → GroupDag
ensure_size n g =
    if ltb g.size n
    then record {
      size = n;
      succs = λ i. if ltb i g.size then g.succs i else [];
      preds = λ i. if ltb i g.size then g.preds i else [];
      topo_pos = λ i. if ltb i g.size then g.topo_pos i else none;
      topo_order = g.topo_order;
    }
    else g

-- `succs_[from].insert(to); preds_[to].insert(from);`.
pub link : ℕ → ℕ → GroupDag → GroupDag
link from to g = record g {
  succs = put g.succs from (insert (g.succs from) to).set;
  preds = put g.preds to (insert (g.preds to) from).set;
}

unfoldable pub add_edge : ℕ → ℕ → GroupDag → GroupDag
unfolding ensure_size link
add_edge from to g = link from to (ensure_size (max from to + 1) g)

unfoldable pub remove_edge : ℕ → ℕ → GroupDag → GroupDag
remove_edge from to g = record g {
  succs = if ltb from g.size then put g.succs from (erase (g.succs from) to).set else g.succs;
  preds = if ltb to g.size then put g.preds to (erase (g.preds to) from).set else g.preds;
}

-- `for (gj : list) if (gj < size) table[gj].erase(gi)`.
pub erase_from_all : ℕ → ℕ → List ℕ → Table FlatSet → Table FlatSet
erase_from_all gi size [] table = table
erase_from_all gi size (gj ∷ gs) table =
    erase_from_all gi size gs
      (if ltb gj size then put table gj (erase (table gj) gi).set else table)

unfoldable pub clear_edges_for : ℕ → GroupDag → GroupDag
unfolding erase_from_all
clear_edges_for gi g =
    if leb g.size gi
    then g
    else (let preds = erase_from_all gi g.size (g.succs gi) g.preds in
        let succs = erase_from_all gi g.size (preds gi) g.succs in
        record g { succs = put succs gi []; preds = put preds gi [] })

-- The groups that are linked to `gi`: alive, and not `gi`.
abbrev pub is_other : Partition → ℕ → ℕ → Bool
is_other part gi gj = not (gj == gi) && (group_at part gj).alive

pub link_out : Partition → ℕ → List ℕ → GroupDag → GroupDag
unfolding link
link_out part gi [] g = g
link_out part gi (gj ∷ gs) g = link_out part gi gs (if is_other part gi gj then link gi gj g else g)

pub link_in : Partition → ℕ → List ℕ → GroupDag → GroupDag
unfolding link
link_in part gi [] g = g
link_in part gi (gj ∷ gs) g = link_in part gi gs (if is_other part gi gj then link gj gi g else g)

-- `part.groups[gi].ops.count(op)`.
abbrev pub has_op : Partition → ℕ → ℕ → Bool
has_op part gi op = count (group_at part gi).ops op == 1

-- The loop over the consumers of the output.
pub link_consumers : Partition → ℕ → List ℕ → GroupDag → GroupDag
unfolding link_out
link_consumers part gi [] g = g
link_consumers part gi (cop ∷ cops) g =
    link_consumers part gi cops
      (if has_op part gi cop then g else link_out part gi (groups_of part cop) g)

-- The loop over the inputs.
pub link_producers : Partition → ℕ → List ℕ → GroupDag → GroupDag
unfolding link_in
link_producers part gi [] g = g
link_producers part gi (t ∷ ts) g = link_producers part gi ts (elim (part.dag.tensor_producer t) [
  | none ↦ g
  | some p ↦ if has_op part gi p then g else link_in part gi (groups_of part p) g
])

-- The loop over the operations of the group. An index out of range, which is undefined in the
-- source, changes nothing here.
pub link_op : Partition → ℕ → ℕ → GroupDag → GroupDag
unfolding link_consumers link_producers
link_op part gi i g = elim (get_elem? part.prob.ops i) [
  | none ↦ g
  | some op ↦
      link_producers part gi op.inputs
        (link_consumers part gi (part.dag.tensor_consumers (output op)) g)
]

pub link_ops : Partition → ℕ → List ℕ → GroupDag → GroupDag
unfolding link_op
link_ops part gi [] g = g
link_ops part gi (op ∷ ops) g = link_ops part gi ops (link_op part gi op g)

pub rebuild_edges_for : Partition → ℕ → GroupDag → GroupDag
unfolding link_ops
rebuild_edges_for part gi g =
    if leb (length part.groups) gi || not (group_at part gi).alive
    then g
    else link_ops part gi (group_at part gi).ops g

-- The loop over the groups of `build`, on the first `n`.
pub build_edges : Partition → ℕ → GroupDag → GroupDag
unfolding rebuild_edges_for
build_edges part zero g = g
build_edges part (suc gi) g =
    let before = build_edges part gi g in
    if (group_at part gi).alive then rebuild_edges_for part gi before else before

-- The state of Kahn's loop on the groups: the counters, the queue from `front` on, and the result.
pub record GroupFrontier : Type 0 where
  pub in_deg : Table ℕ
  pub queue : List ℕ
  pub pos : Table (Option ℕ)
  pub order : List ℕ

-- `if (--in_deg[gj] == 0) q.push_back(gj)`. A counter that is 0 stays at 0 here and is negative in
-- the source; neither is pushed, then or later.
pub release : List ℕ → GroupFrontier → GroupFrontier
release [] f = f
release (gj ∷ gs) f = release gs (record f {
  in_deg = put f.in_deg gj (f.in_deg gj - 1);
  queue = if f.in_deg gj == 1 then f.queue ++ gj ∷ [] else f.queue;
})

-- A round: the next group takes the next position.
pub place : Table FlatSet → ℕ → List ℕ → GroupFrontier → GroupFrontier
place succs g queue f = release (succs g) (record f {
  queue = queue;
  pos = put f.pos g (some (length f.order));
  order = f.order ++ g ∷ [];
})

-- The `while` loop on the queue of the state; `none` means that the fuel ran out.
pub run_kahn : Table FlatSet → ℕ → List ℕ → GroupFrontier → Option GroupFrontier
run_kahn succs fuel [] f = some f
run_kahn succs zero (g ∷ queue) f = none
run_kahn succs (suc fuel) (g ∷ queue) f =
    let f' = place succs g queue f in run_kahn succs fuel f'.queue f'

-- The groups below `n` that are alive and have no predecessors.
pub start_groups : Partition → Table ℕ → ℕ → List ℕ
start_groups part in_deg zero = []
start_groups part in_deg (suc gi) =
    let before = start_groups part in_deg gi in
    if (group_at part gi).alive && in_deg gi == 0 then before ++ gi ∷ [] else before

abbrev pub start_frontier : Partition → GroupDag → GroupFrontier
start_frontier part g =
    let in_deg : Table ℕ =
      λ gi. if ltb gi g.size && (group_at part gi).alive then length (g.preds gi) else 0 in
    record {
      in_deg = in_deg;
      queue = start_groups part in_deg g.size;
      pos = λ gi. none;
      order = [];
    }

-- The order is computed anew; each round places a group for good, so one round for each is enough.
unfoldable pub compute_topo_order : Partition → GroupDag → Option GroupDag
compute_topo_order part g =
    run_kahn g.succs g.size (start_frontier part g).queue (start_frontier part g) >>= λ f.
    some (record g { topo_pos = f.pos; topo_order = f.order })

-- The edges that `build` computes.
unfoldable pub built_edges : Partition → GroupDag
built_edges part = build_edges part (length part.groups) (empty_of (length part.groups))

unfoldable pub build : Partition → Option GroupDag
build part = compute_topo_order part (built_edges part)
