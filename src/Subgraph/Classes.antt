-- ===== src/Subgraph/Classes.antt =====
-- core/subgraph_structure.cpp: the classes of tensors in terms of the problem.
pub mod Produced
use pto_fusebox.Base.{
  ℕ, zero, suc, ◌+◌, ◌-◌, ◌*◌, ◌/◌, ◌%◌, ◌≤◌, ◌<◌, min, max, ◌≡◌, refl, sym, ap, ◌∙◌, subst,
  fun_ext, ◌≢◌, ◌↔◌, ◌⊎◌, inl, inr, Bool, true, false, not, ◌&&◌, ◌||◌, Option, none, some, List,
  [], ◌∷◌, ◌++◌, map, arith, ltb, leb, ◌==◌, if◌then◌else◌, Bool-cases, Option-cases, eq_or_ne,
  ltb→lt, lt→ltb, leb→le, ==→eq, ==_refl, ==-eq-false, length, get_elem?, get_or, length-append,
  List-cases, All, elem, elem-append, any, any_find, any_intro, any_cong, any_swap, Table, put,
}
use pto_fusebox.FlatSet.{FlatSet, count}
use pto_fusebox.FlatSet.Order.{IsSorted}
use pto_fusebox.FlatSet.Member.{elem-insert, insert-IsSorted}
use pto_fusebox.Problem.{Problem, output, num_tensors}
use pto_fusebox.Dag.{Dag}
use pto_fusebox.Dag.Build.Producers.{produces, consumes}
use pto_fusebox.Dag.Build.Correct.{Describes}
use pto_fusebox.Pebbling.{compute}
use pto_fusebox.Subgraph.{
  Marks, no_marks, mark_all, mark_op, mark_ops, insert_where, mark_ephemeral, is_sink, find_sinks,
  SubgraphStructure, classify, degenerate, create,
}
use pto_fusebox.Subgraph.Source.{build_source_op_pebbling_graph}
use pto_fusebox.Subgraph.Classes.Produced.{produced_by, consumed_by, is_live_out, marks_of}

elem-insert_where :
    (n : ℕ) (test : ℕ → Bool) (s : FlatSet) (t : ℕ)
    → elem (insert_where n test s) t ≡ (ltb t n && test t || elem s t)
unfolding insert_where
elem-insert_where zero test s t = ground arith
elem-insert_where (suc n) test s t = elim (eq_or_ne t n) [
  | inl e ↦
      rw e (ground (arith, elem-insert_where n test s n, elem-insert (insert_where n test s) n n))
  | inr e ↦ ground (arith, elem-insert_where n test s t, elem-insert (insert_where n test s) n t)
]

insert_where-IsSorted :
    (n : ℕ) (test : ℕ → Bool) (s : FlatSet) → IsSorted s → IsSorted (insert_where n test s)
unfolding insert_where
insert_where-IsSorted zero test s h = h
insert_where-IsSorted (suc n) test s h =
    ground (arith, insert_where-IsSorted n test s h, insert-IsSorted (insert_where n test s) n)

mark_ephemeral-marks :
    (n : ℕ) (m : Marks) (t : ℕ)
    → mark_ephemeral n m t ≡ (ltb t n && m.is_produced t && m.is_consumed t)
unfolding mark_ephemeral
mark_ephemeral-marks zero m t = ground arith
mark_ephemeral-marks (suc n) m t =
    let ih = mark_ephemeral-marks n m t in
    elim (Bool-cases (m.is_produced n && m.is_consumed n)) [
      | inl both ↦
          rw (both, mark_ephemeral)
            (elim (eq_or_ne t n) [
              | inl e ↦ ground (arith, both, ap m.is_produced e, ap m.is_consumed e)
              | inr e ↦ ground (arith, ih)
            ])
      | inr other ↦
          rw (other, mark_ephemeral)
            (elim (eq_or_ne t n) [
              | inl e ↦ ground (arith, ih, other, ap m.is_produced e, ap m.is_consumed e)
              | inr e ↦ ground (arith, ih)
            ])
    ]

elem-find_sinks :
    (prob : Problem) (d : Dag) (m : Marks) (ops : List ℕ) (i : ℕ)
    → elem (find_sinks prob d m ops) i ≡ (elem ops i && is_sink prob d m i)
unfolding find_sinks
elem-find_sinks prob d m [] i = ground arith
elem-find_sinks prob d m (j ∷ ops) i = elim (eq_or_ne i j) [
  | inl e ↦ rw e (ground (arith, elem-find_sinks prob d m ops j))
  | inr e ↦ ground (arith, elem-find_sinks prob d m ops i)
]

is_sink-live_out :
    (prob : Problem) (d : Dag) (desc : Describes prob d) (ops : List ℕ) (i : ℕ)
    → is_sink prob d (mark_ops prob ops no_marks) i ≡ is_live_out prob ops i
unfolding is_sink
is_sink-live_out prob d desc ops i = elim (Option-cases (get_elem? prob.ops i)) [
  | inl e ↦ rw (e, is_sink, is_live_out)
  | inr (op, e) ↦
      let t = output op in
      let swap : any (λ v. (mark_ops prob ops no_marks).is_in_sg v) (d.tensor_consumers t)
          ≡ consumed_by prob ops t =
        any_cong _ _ (d.tensor_consumers t) (λ v m. (marks_of prob ops v).0)
        ∙ any_swap (d.tensor_consumers t) ops
        ∙ any_cong _ _ ops (λ v m. desc.consumers t v) in
      rw (e, is_sink, is_live_out) (ground (arith, swap))
]

-- The tensors and the operations of the classes, in terms of the problem.
pub record Classified (prob : Problem) (ops : List ℕ) (s : SubgraphStructure) : Type 0 where
  pub inputs :
      (t : ℕ)
      → elem s.boundary_inputs t
        ≡ (ltb t (num_tensors prob) && consumed_by prob ops t && not (produced_by prob ops t))
  pub outputs :
      (t : ℕ)
      → elem s.boundary_outputs t ≡ (
          ltb t (num_tensors prob)
          && produced_by prob ops t
          && (not (consumed_by prob ops t) || count prob.required_outputs t == 1))
  pub inner :
      (t : ℕ)
      → elem s.ephemeral t
        ≡ (ltb t (num_tensors prob) && consumed_by prob ops t && produced_by prob ops t)
  pub live_outs : (i : ℕ) → elem s.sinks i ≡ (elem ops i && is_live_out prob ops i)
  pub inputs_sorted : IsSorted s.boundary_inputs
  pub outputs_sorted : IsSorted s.boundary_outputs
  pub inner_sorted : IsSorted s.ephemeral

pub classify-Classified :
    (prob : Problem) (d : Dag)
    → Describes prob d
    → (ops : List ℕ) → Classified prob ops (classify prob d ops)
unfolding classify
classify-Classified prob d desc ops =
    let n = num_tensors prob in
    let m = mark_ops prob ops no_marks in
    let marks = marks_of prob ops in
    let eph = mark_ephemeral-marks n m in
    record {
      inputs = λ t. ground (
        arith,
        elem-insert_where n (λ t. m.is_consumed t && not (m.is_produced t)) [] t,
        marks t,
      );
      outputs = λ t. ground (
        arith,
        elem-insert_where n
            (λ t.
              m.is_produced t && (not (mark_ephemeral n m t) || count prob.required_outputs t == 1))
            [] t,
        marks t,
        eph t,
      );
      inner =
          λ t. ground (arith, elem-insert_where n (λ t. mark_ephemeral n m t) [] t, marks t, eph t);
      live_outs = λ i.
          elem-find_sinks prob d m ops i
          ∙ ap (λ b. elem ops i && b) (is_sink-live_out prob d desc ops i);
      inputs_sorted = insert_where-IsSorted n _ [] tt;
      outputs_sorted = insert_where-IsSorted n _ [] tt;
      inner_sorted = insert_where-IsSorted n _ [] tt;
    }

degenerate-Classified : (prob : Problem) → Classified prob [] (degenerate [])
degenerate-Classified prob = record {
  inputs = λ t. ground arith;
  outputs = λ t. ground arith;
  inner = λ t. ground arith;
  live_outs = λ i. refl;
  inputs_sorted = tt;
  outputs_sorted = tt;
  inner_sorted = tt;
}

create-nonempty :
    (prob : Problem) (d : Dag)
    → Describes prob d
    → (i : ℕ) (ops : List ℕ) (s : SubgraphStructure) → create prob d (i ∷ ops) ≡ some s
    → Classified prob (i ∷ ops) s
unfolding create
create-nonempty prob d desc i ops s h =
    let all = i ∷ ops in
    let c = classify-Classified prob d desc all in
    elim (List-cases (classify prob d all).boundary_outputs) [
      | inl e ↦ let same : classify prob d all ≡ s = cc (rw (e, create) at h) in rw (← same) c
      | inr (t, ts, e) ↦
          elim (Option-cases
            (compute (build_source_op_pebbling_graph prob d all (classify prob d all).sinks))) [
              | inl f ↦ cc (rw (e, f, create) at h)
              | inr (order, f) ↦
                  let same : record (classify prob d all) { dfs_order = order; valid = true } ≡ s =
                    cc (rw (e, f, create) at h) in
                  rw (← same) (record {
                    inputs = c.inputs;
                    outputs = c.outputs;
                    inner = c.inner;
                    live_outs = c.live_outs;
                    inputs_sorted = c.inputs_sorted;
                    outputs_sorted = c.outputs_sorted;
                    inner_sorted = c.inner_sorted;
                  })
            ]
    ]

-- For a graph that describes the problem, the structure of a set of operations has as boundary
-- inputs the tensors that the set consumes and does not produce, as ephemeral ones those that it
-- consumes and produces, as boundary outputs those that it produces and does not consume or that
-- are required, and as sinks its operations whose output the set does not consume or that is
-- required; the three sets are sorted.
pub classified_lem :
    (prob : Problem) (d : Dag)
    → Describes prob d
    → (ops : List ℕ) (s : SubgraphStructure) → create prob d ops ≡ some s
    → Classified prob ops s
unfolding create
classified_lem prob d desc [] s h =
    let same : degenerate [] ≡ s = cc (h) in rw (← same) (degenerate-Classified prob)
classified_lem prob d desc (i ∷ ops) s h = create-nonempty prob d desc i ops s h
