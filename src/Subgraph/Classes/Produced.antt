-- ===== src/Subgraph/Classes/Produced.antt =====
-- core/subgraph_structure.cpp: the marks in terms of the problem.
use pto_fusebox.Base.{
  ℕ, ◌≡◌, refl, inl, inr, Bool, true, false, not, ◌||◌, none, some, List, [], ◌∷◌, arith, ◌==◌,
  Option-cases, get_elem?, elem, any, Table, put,
}
use pto_fusebox.FlatSet.{count}
use pto_fusebox.Problem.{Problem, output}
use pto_fusebox.Dag.Build.Producers.{produces, consumes}
use pto_fusebox.Subgraph.{Marks, no_marks, mark_all, mark_op, mark_ops}

-- Some operation of the set produces, or consumes, the tensor.
abbrev pub produced_by : Problem → List ℕ → ℕ → Bool
produced_by prob ops t = any (λ i. produces prob.ops i t) ops

abbrev pub consumed_by : Problem → List ℕ → ℕ → Bool
consumed_by prob ops t = any (λ i. consumes prob.ops i t) ops

-- The output of operation `i` leaves the set: it is required, or no operation of the set reads it.
abbrev pub is_live_out : Problem → List ℕ → ℕ → Bool
is_live_out prob ops i = elim (get_elem? prob.ops i) [
  | none ↦ false
  | some op ↦ not (consumed_by prob ops (output op)) || count prob.required_outputs (output op) == 1
]

mark_all-elem :
    (ts : List ℕ) (marks : Table Bool) (t : ℕ) → mark_all ts marks t ≡ (elem ts t || marks t)
unfolding mark_all
mark_all-elem [] marks t = refl
mark_all-elem (x ∷ ts) marks t = ground (arith, mark_all-elem ts (put marks x true) t)

module _ (prob : Problem) where
  mark_op-marks :
      (i : ℕ) (m : Marks) (t : ℕ)
      → ((mark_op prob i m).is_in_sg t ≡ (t == i || m.is_in_sg t))
        × ((mark_op prob i m).is_produced t ≡ (produces prob.ops i t || m.is_produced t))
        × ((mark_op prob i m).is_consumed t ≡ (consumes prob.ops i t || m.is_consumed t))
  unfolding mark_op
  mark_op-marks i m t = elim (Option-cases (get_elem? prob.ops i)) [
    | inl e ↦ rw (e, mark_op, produces, consumes) (ground arith, refl, refl)
    | inr (op, e) ↦
        rw (e, mark_op, produces, consumes)
          (ground arith, ground arith, mark_all-elem op.inputs m.is_consumed t)
  ]

  mark_ops-marks :
      (ops : List ℕ) (m : Marks) (t : ℕ)
      → ((mark_ops prob ops m).is_in_sg t ≡ (elem ops t || m.is_in_sg t))
        × ((mark_ops prob ops m).is_produced t ≡ (produced_by prob ops t || m.is_produced t))
        × ((mark_ops prob ops m).is_consumed t ≡ (consumed_by prob ops t || m.is_consumed t))
  unfolding mark_ops
  mark_ops-marks [] m t = (refl, refl, refl)
  mark_ops-marks (i ∷ ops) m t =
      let ih = mark_ops-marks ops (mark_op prob i m) t in
      let one = mark_op-marks i m t in
      (ground (arith, ih.0, one.0), ground (arith, ih.1, one.1), ground (arith, ih.2, one.2))

  pub marks_of :
      (ops : List ℕ) (t : ℕ)
      → ((mark_ops prob ops no_marks).is_in_sg t ≡ elem ops t)
        × ((mark_ops prob ops no_marks).is_produced t ≡ produced_by prob ops t)
        × ((mark_ops prob ops no_marks).is_consumed t ≡ consumed_by prob ops t)
  marks_of ops t =
      let m = mark_ops-marks ops no_marks t in
      (ground (arith, m.0), ground (arith, m.1), ground (arith, m.2))
