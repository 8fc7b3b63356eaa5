-- ===== src/Subgraph.antt =====
-- core/subgraph_structure.h and core/subgraph_structure.cpp: the classification of the tensors of a
-- set of operations and their execution order. An index out of range, which is undefined in the
-- source, changes nothing here.
pub mod Source
pub mod Classes
pub mod Schedule
pub mod Sample
mod Tests
use pto_fusebox.Base.{
  ℕ, zero, suc, ◌+◌, ◌-◌, ◌*◌, ◌/◌, ◌%◌, ◌≤◌, ◌<◌, min, max, ◌≡◌, refl, sym, ap, ◌∙◌, subst,
  fun_ext, ◌≢◌, ◌↔◌, ◌⊎◌, inl, inr, Bool, true, false, not, ◌&&◌, ◌||◌, Option, none, some, List,
  [], ◌∷◌, ◌++◌, map, arith, ltb, leb, ◌==◌, if◌then◌else◌, Bool-cases, Option-cases, eq_or_ne,
  ltb→lt, lt→ltb, leb→le, ==→eq, ==_refl, ==-eq-false, length, get_elem?, get_or, length-append,
  List-cases, All, elem, elem-append, any, any_find, any_intro, any_cong, any_swap, Table, put,
}
use pto_fusebox.FlatSet.{FlatSet, count, insert, of_range}
use pto_fusebox.Problem.{OpType, Op, Problem, output, num_tensors}
use pto_fusebox.Dag.{Dag}
use pto_fusebox.Pebbling.{PebblingOrderNode, PebblingOrderGraph, compute}
use pto_fusebox.Subgraph.Source.{build_source_op_pebbling_graph}

-- Membership, and what the operations produce and consume.
pub record Marks : Type 0 where
  pub is_in_sg : Table Bool
  pub is_produced : Table Bool
  pub is_consumed : Table Bool

abbrev pub no_marks : Marks
no_marks = record { is_in_sg = λ i. false; is_produced = λ t. false; is_consumed = λ t. false }

pub mark_all : List ℕ → Table Bool → Table Bool
mark_all [] marks = marks
mark_all (t ∷ ts) marks = mark_all ts (put marks t true)

pub mark_op : Problem → ℕ → Marks → Marks
unfolding mark_all
mark_op prob i m = elim (get_elem? prob.ops i) [
  | none ↦ record m { is_in_sg = put m.is_in_sg i true }
  | some op ↦ record {
    is_in_sg = put m.is_in_sg i true;
    is_produced = put m.is_produced (output op) true;
    is_consumed = mark_all op.inputs m.is_consumed;
  }
]

pub mark_ops : Problem → List ℕ → Marks → Marks
unfolding mark_op
mark_ops prob [] m = m
mark_ops prob (i ∷ ops) m = mark_ops prob ops (mark_op prob i m)

-- `for (t = 0; t < n; t++) if (test) set.insert(t)`.
pub insert_where : ℕ → (ℕ → Bool) → FlatSet → FlatSet
insert_where zero test s = s
insert_where (suc t) test s =
    let before = insert_where t test s in if test t then (insert before t).set else before

-- `is_ephemeral[t] = true` for the tensors below `n` that are produced and consumed.
pub mark_ephemeral : ℕ → Marks → Table Bool
mark_ephemeral zero m = λ t. false
mark_ephemeral (suc t) m =
    let before = mark_ephemeral t m in
    if m.is_produced t && m.is_consumed t then put before t true else before

-- The loop that looks for a consumer inside.
abbrev pub has_internal_succ : Marks → List ℕ → Bool
has_internal_succ m consumers = any (λ cop. m.is_in_sg cop) consumers

pub is_sink : Problem → Dag → Marks → ℕ → Bool
is_sink prob d m i = elim (get_elem? prob.ops i) [
  | none ↦ false
  | some op ↦
      not (has_internal_succ m (d.tensor_consumers (output op)))
      || count prob.required_outputs (output op) == 1
]

pub find_sinks : Problem → Dag → Marks → List ℕ → List ℕ
unfolding is_sink
find_sinks prob d m [] = []
find_sinks prob d m (i ∷ ops) =
    let rest = find_sinks prob d m ops in if is_sink prob d m i then i ∷ rest else rest

pub record SubgraphStructure : Type 0 where
  pub ops : List ℕ
  pub boundary_inputs : FlatSet
  pub boundary_outputs : FlatSet
  pub ephemeral : FlatSet
  pub sinks : List ℕ
  pub dfs_order : List ℕ
  pub valid : Bool

-- The classification, before the order is computed.
pub classify : Problem → Dag → List ℕ → SubgraphStructure
unfolding mark_ops insert_where mark_ephemeral find_sinks
classify prob d ops =
    let n = num_tensors prob in
    let m = mark_ops prob ops no_marks in
    let is_ephemeral = mark_ephemeral n m in
    record {
      ops = ops;
      boundary_inputs = insert_where n (λ t. m.is_consumed t && not (m.is_produced t)) [];
      boundary_outputs =
          insert_where n
            (λ t. m.is_produced t && (not (is_ephemeral t) || count prob.required_outputs t == 1))
            [];
      ephemeral = insert_where n (λ t. is_ephemeral t) [];
      sinks = find_sinks prob d m ops;
      dfs_order = [];
      valid = false;
    }

abbrev pub degenerate : List ℕ → SubgraphStructure
degenerate ops = record {
  ops = ops;
  boundary_inputs = [];
  boundary_outputs = [];
  ephemeral = [];
  sinks = [];
  dfs_order = [];
  valid = false;
}

-- The constructor, with the depth-first strategy, which is the default; `none` is the `none` of
-- `compute`.
unfoldable pub create : Problem → Dag → List ℕ → Option SubgraphStructure
unfolding classify build_source_op_pebbling_graph
create prob d [] = some (degenerate [])
create prob d (i ∷ ops) =
    let s = classify prob d (i ∷ ops) in
    elim s.boundary_outputs [
      | [] ↦ some s
      | t ∷ ts ↦ elim (compute (build_source_op_pebbling_graph prob d (i ∷ ops) s.sinks)) [
        | none ↦ none
        | some order ↦ some (record s { dfs_order = order; valid = true })
      ]
    ]
