-- ===== src/Partition/Boundary.antt =====
-- partition/partition.h, is_boundary_output_of and is_boundary_input_of: the boundary of a set of
-- operations, against the classes of core/subgraph_structure.cpp.
use pto_fusebox.Base.{
  ℕ, ◌≡◌, refl, sym, ap, ◌∙◌, inl, inr, Bool, true, false, not, ◌&&◌, ◌||◌, Option, none, some,
  List, [], ◌∷◌, arith, ltb, leb, ◌==◌, if◌then◌else◌, Option-cases, elem, any, any_cong, any_swap,
}
use pto_fusebox.FlatSet.{FlatSet, count}
use pto_fusebox.FlatSet.Order.{IsSorted}
use pto_fusebox.FlatSet.Member.{count-elem}
use pto_fusebox.Problem.{Problem, num_tensors}
use pto_fusebox.Dag.{Dag}
use pto_fusebox.Dag.Build.Producers.{is_just}
use pto_fusebox.Dag.Build.Correct.{Describes}
use pto_fusebox.Subgraph.{SubgraphStructure, create}
use pto_fusebox.Subgraph.Classes.{classified_lem}
use pto_fusebox.Subgraph.Classes.Produced.{produced_by, consumed_by}

-- `ops.count(op)`.
abbrev pub contains : FlatSet → ℕ → Bool
contains ops op = count ops op == 1

unfoldable pub is_boundary_output_of : FlatSet → ℕ → Problem → Dag → Bool
is_boundary_output_of ops t prob d =
    if leb d.num_tensors t then false else elim (d.tensor_producer t) [
      | none ↦ false
      | some prod ↦
          if not (contains ops prod)
          then false
          else if count prob.required_outputs t == 1
          then true
          else not (any (contains ops) (d.tensor_consumers t))
    ]

abbrev pub produced_inside : FlatSet → Option ℕ → Bool
produced_inside ops none = false
produced_inside ops (some prod) = contains ops prod

unfoldable pub is_boundary_input_of : FlatSet → ℕ → Dag → Bool
is_boundary_input_of ops t d =
    if leb d.num_tensors t
    then false
    else if produced_inside ops (d.tensor_producer t)
    then false
    else any (contains ops) (d.tensor_consumers t)

any_same : (p : ℕ) (ops : List ℕ) → any (λ i. p == i) ops ≡ elem ops p
any_same p [] = refl
any_same p (x ∷ ops) = ground (arith, any_same p ops)

any_never : (ops : List ℕ) → any (λ i. false) ops ≡ false
any_never [] = refl
any_never (x ∷ ops) = any_never ops

module _ (prob : Problem) (d : Dag) (desc : Describes prob d) (ops : FlatSet)
    (s : IsSorted ops) where
  contains-elem : (op : ℕ) → contains ops op ≡ elem ops op
  contains-elem op = ground (arith, count-elem ops op s)

  consumers-consumed : (t : ℕ) → any (contains ops) (d.tensor_consumers t) ≡ consumed_by prob ops t
  consumers-consumed t =
      any_cong (contains ops) (λ v. elem ops v) (d.tensor_consumers t) (λ v m. contains-elem v)
      ∙ any_swap (d.tensor_consumers t) ops
      ∙ any_cong _ _ ops (λ v m. desc.consumers t v)

  producer-produced : (t : ℕ) → produced_inside ops (d.tensor_producer t) ≡ produced_by prob ops t
  producer-produced t = elim (Option-cases (d.tensor_producer t)) [
    | inl e ↦
        let none_found : produced_by prob ops t ≡ false =
          any_cong _ (λ i. false) ops (λ i m. sym (desc.producers t i) ∙ ap (λ o. is_just o i) e)
          ∙ any_never ops in
        rw e (sym none_found)
    | inr (p, e) ↦
        let found : produced_by prob ops t ≡ elem ops p =
          any_cong _ (λ i. p == i) ops (λ i m. sym (desc.producers t i) ∙ ap (λ o. is_just o i) e)
          ∙ any_same p ops in
        rw e (contains-elem p ∙ sym found)
  ]

  output-eq :
      (t : ℕ)
      → is_boundary_output_of ops t prob d ≡ (
          ltb t (num_tensors prob)
          && produced_by prob ops t
          && (not (consumed_by prob ops t) || count prob.required_outputs t == 1))
  unfolding is_boundary_output_of
  output-eq t =
      let made = producer-produced t in
      elim (Option-cases (d.tensor_producer t)) [
        | inl e ↦
            let made' : false ≡ produced_by prob ops t = rw e at made in
            rw (e, is_boundary_output_of) (ground (arith, desc.tensors, made'))
        | inr (p, e) ↦
            let made' : contains ops p ≡ produced_by prob ops t = rw e at made in
            rw (e, is_boundary_output_of)
              (ground (arith, desc.tensors, made', consumers-consumed t))
      ]

  input-eq :
      (t : ℕ)
      → is_boundary_input_of ops t d
        ≡ (ltb t (num_tensors prob) && consumed_by prob ops t && not (produced_by prob ops t))
  unfolding is_boundary_input_of
  input-eq t = ground (arith, desc.tensors, producer-produced t, consumers-consumed t)

-- For a graph that describes the problem and a sorted set of operations, the two tests agree with
-- the boundary of the structure that the constructor gives for the set.
pub boundary_of_lem :
    (prob : Problem) (d : Dag)
    → Describes prob d
    → (ops : FlatSet) → IsSorted ops
    → (s : SubgraphStructure) → create prob d ops ≡ some s
    → (t : ℕ)
    → (is_boundary_output_of ops t prob d ≡ elem s.boundary_outputs t)
      × (is_boundary_input_of ops t d ≡ elem s.boundary_inputs t)
boundary_of_lem prob d desc ops sorted s h t =
    let c = classified_lem prob d desc ops s h in
    (
      output-eq prob d desc ops sorted t ∙ sym (c.outputs t),
      input-eq prob d desc ops sorted t ∙ sym (c.inputs t),
    )
