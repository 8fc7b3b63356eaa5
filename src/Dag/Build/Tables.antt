-- ===== src/Dag/Build/Tables.antt =====
-- core/dag.cpp, DAG::build: the boundary tensors and the neighbours.
use pto_fusebox.Base.{
  ℕ, zero, suc, ◌≤◌, ◌<◌, ◌≡◌, refl, sym, ap, subst, ◌↔◌, inl, inr, Bool, true, false, not, ◌&&◌,
  ◌||◌, Option, none, some, List, [], ◌∷◌, arith, ltb, ◌==◌, if◌then◌else◌, Option-cases, eq_or_ne,
  length, get_elem?, List-cases, elem, elem-append, any, any_cong, Table,
}
use pto_fusebox.FlatSet.{FlatSet, insert}
use pto_fusebox.FlatSet.Member.{elem-insert}
use pto_fusebox.Problem.{Op, Problem, num_tensors}
use pto_fusebox.Dag.{Dag}
use pto_fusebox.Dag.Build.{
  Links, select, is_some, is_empty, insert_all, insert_others, insert_co_consumers, neighbors,
  build, ok, assemble, map_producers,
}
use pto_fusebox.Dag.Build.Producers.{
  HasUniqueOutputs, is_just, map_producers_sound, produces, consumes, depends,
}
use pto_fusebox.Dag.Build.Correct.{links, depends-lt, preds-depends, succs-depends, build-Parts}
use pto_fusebox.Dag.Build.Edges.{link_ops_lem}

elem-select : (n : ℕ) (test : ℕ → Bool) (t : ℕ) → elem (select n test) t ≡ (ltb t n && test t)
unfolding select
elem-select zero test t = ground arith
elem-select (suc n) test t = elim (eq_or_ne t n) [
  | inl e ↦ rw e (
      ground (
        arith,
        elem-append (select n test) (if test n then n ∷ [] else []) n,
        elem-select n test n,
      ))
  | inr e ↦
      ground
        (arith, elem-append (select n test) (if test n then n ∷ [] else []) t, elem-select n test t)
]

pub elem-insert_all :
    (js : List ℕ) (s : FlatSet) (x : ℕ) → elem (insert_all js s) x ≡ (elem js x || elem s x)
unfolding insert_all
elem-insert_all [] s x = refl
elem-insert_all (j ∷ js) s x =
    ground (arith, elem-insert_all js (insert s j).set x, elem-insert s j x)

elem-insert_others :
    (i : ℕ) (js : List ℕ) (s : FlatSet) (x : ℕ)
    → elem (insert_others i js s) x ≡ (not (x == i) && elem js x || elem s x)
unfolding insert_others
elem-insert_others i [] s x = ground arith
elem-insert_others i (j ∷ js) s x = elim (eq_or_ne j i) [
  | inl e ↦ ground (arith, elem-insert_others i js s x)
  | inr e ↦ ground (arith, elem-insert_others i js (insert s j).set x, elem-insert s j x)
]

elem-insert_co_consumers :
    (consumers : Table (List ℕ)) (i : ℕ) (ts : List ℕ) (s : FlatSet) (x : ℕ)
    → elem (insert_co_consumers consumers i ts s) x
      ≡ (not (x == i) && any (λ t. elem (consumers t) x) ts || elem s x)
unfolding insert_co_consumers
elem-insert_co_consumers consumers i [] s x = ground arith
elem-insert_co_consumers consumers i (t ∷ ts) s x = ground (
  arith,
  elem-insert_co_consumers consumers i ts (insert_others i (consumers t) s) x,
  elem-insert_others i (consumers t) s x,
)

-- Operations `i` and `j` read a common tensor.
abbrev pub shares : List Op → ℕ → ℕ → Bool
shares ops i j = elim (get_elem? ops i) [
  | none ↦ false
  | some op ↦ any (λ t. consumes ops j t) op.inputs
]

-- The neighbours and the boundary tensors in terms of the problem.
pub record DescribesBoundary (prob : Problem) (d : Dag) : Type 0 where
  pub neighbors :
      (i j : ℕ)
      → elem (d.op_neighbors i) j
        ≡ (depends prob.ops i j || depends prob.ops j i || not (j == i) && shares prob.ops i j)
  pub inputs :
      (t : ℕ)
      → (elem d.graph_inputs t ≡ true) ↔ (
          (t < num_tensors prob)
          × ((u : ℕ) → produces prob.ops u t ≡ false)
          × (v : ℕ) × (consumes prob.ops v t ≡ true))
  pub outputs :
      (t : ℕ)
      → (elem d.graph_outputs t ≡ true) ↔ (
          (t < num_tensors prob)
          × ((v : ℕ) → consumes prob.ops v t ≡ false)
          × (u : ℕ) × (produces prob.ops u t ≡ true))

none-length : (ops : List Op) (i : ℕ) → get_elem? ops i ≡ none → length ops ≤ i
none-length [] i h = omega arith
none-length (x ∷ ops) zero h = cc
none-length (x ∷ ops) (suc i) h = omega (arith, none-length ops i h)

module _ (prob : Problem) (producer : Table (Option ℕ))
    (runs : map_producers true 0 prob.ops (λ t. none) ≡ some producer) where
  abbrev links' : Links
  links' = links prob producer runs

  consumers-consumes :
      (t v : ℕ) → elem ((links prob producer runs).tensor_consumers t) v ≡ consumes prob.ops v t
  consumers-consumes t v = (link_ops_lem producer prob.ops 0 v t).2

  unproduced : (t : ℕ) → (is_some (producer t) ≡ false) ↔ ((u : ℕ) → produces prob.ops u t ≡ false)
  unproduced t = elim (Option-cases (producer t)) [
    | inl e ↦ (
      λ h u.
          ground (arith, ap (λ o. is_just o u) e, map_producers_sound prob.ops producer t u runs),
      λ h. ground arith,
    )
    | inr (a, e) ↦ (
      λ h. ground arith,
      λ h.
          ground
            (arith, h a, ap (λ o. is_just o a) e, map_producers_sound prob.ops producer t a runs),
    )
  ]

  produced : (t : ℕ) → (is_some (producer t) ≡ true) ↔ ((u : ℕ) × (produces prob.ops u t ≡ true))
  produced t = elim (Option-cases (producer t)) [
    | inl e ↦ (
      λ h. ground arith,
      λ (u, h).
          ground (arith, ap (λ o. is_just o u) e, map_producers_sound prob.ops producer t u runs),
    )
    | inr (a, e) ↦ (
      λ h. (
        a,
        ground (arith, ap (λ o. is_just o a) e, map_producers_sound prob.ops producer t a runs),
      ),
      λ h. ground arith,
    )
  ]

  unconsumed :
      (t : ℕ)
      → (is_empty ((links prob producer runs).tensor_consumers t) ≡ true)
        ↔ ((v : ℕ) → consumes prob.ops v t ≡ false)
  unconsumed t = elim (List-cases ((links prob producer runs).tensor_consumers t)) [
    | inl e ↦
        (λ h v. ground (arith, ap (λ l. elem l v) e, consumers-consumes t v), λ h. ap is_empty e)
    | inr (x, rest, e) ↦ (
      λ h. ground (arith, ap is_empty e),
      λ h. ground (arith, h x, ap (λ l. elem l x) e, consumers-consumes t x),
    )
  ]

  consumed :
      (t : ℕ)
      → (is_empty ((links prob producer runs).tensor_consumers t) ≡ false)
        ↔ ((v : ℕ) × (consumes prob.ops v t ≡ true))
  consumed t = elim (List-cases ((links prob producer runs).tensor_consumers t)) [
    | inl e ↦ (
      λ h. ground (arith, ap is_empty e),
      λ p. let (v, h) = p in ground (arith, ap (λ l. elem l v) e, consumers-consumes t v),
    )
    | inr (x, rest, e) ↦
        (λ h. (x, ground (arith, ap (λ l. elem l x) e, consumers-consumes t x)), λ h. ap is_empty e)
  ]

  elem-neighbors :
      (i j : ℕ)
      → elem (neighbors prob.ops links'.tensor_consumers links'.op_preds links'.op_succs i) j
        ≡ (depends prob.ops i j || depends prob.ops j i || not (j == i) && shares prob.ops i j)
  unfolding neighbors
  elem-neighbors i j = elim (Option-cases (get_elem? prob.ops i)) [
    | inl e ↦
        rw (e, neighbors, shares)
          (ground
            (arith, depends-lt prob.ops i j, depends-lt prob.ops j i, none-length prob.ops i e))
    | inr (op, e) ↦
        rw (e, neighbors, shares)
          (ground (
            arith,
            elem-insert_co_consumers links'.tensor_consumers i op.inputs
                (insert_all (links'.op_succs i) (insert_all (links'.op_preds i) [])) j,
            elem-insert_all (links'.op_succs i) (insert_all (links'.op_preds i) []) j,
            elem-insert_all (links'.op_preds i) [] j,
            preds-depends prob producer runs j i,
            succs-depends prob producer runs i j,
            any_cong (λ t. elem (links'.tensor_consumers t) j) (λ t. consumes prob.ops j t)
                op.inputs (λ t m. consumers-consumes t j),
          ))
  ]

  boundary_parts : (order : List ℕ) → DescribesBoundary prob (assemble prob producer links' order)
  unfolding assemble
  boundary_parts order = record {
    neighbors = elem-neighbors;
    inputs = λ t. ground (
      arith,
      elem-select (num_tensors prob)
          (λ t. not (is_some (producer t)) && not (is_empty (links'.tensor_consumers t))) t,
      unproduced t,
      consumed t,
    );
    outputs = λ t. ground (
      arith,
      elem-select (num_tensors prob)
          (λ t. is_some (producer t) && is_empty (links'.tensor_consumers t)) t,
      produced t,
      unconsumed t,
    );
  }

-- In the graph that `build` returns, with assertions or, on a problem in which no tensor is the
-- output of two operations, without, the neighbours of an operation are the operations that it
-- depends on, that depend on it, and the others that read one of its inputs; the graph inputs are
-- the tensors of the problem without producer that some operation reads, and the graph outputs are
-- those with a producer that no operation reads.
pub boundary_lem :
    (assertions : Bool) (prob : Problem) (d : Dag)
    → (assertions ≡ false → HasUniqueOutputs prob.ops)
    → build assertions prob ≡ ok d
    → DescribesBoundary prob d
boundary_lem assertions prob d unique h =
    let p = build-Parts assertions prob d unique h in
    subst (DescribesBoundary prob) (sym p.whole) (boundary_parts prob p.producer p.runs p.order)
