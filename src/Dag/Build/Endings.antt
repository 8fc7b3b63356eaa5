-- ===== src/Dag/Build/Endings.antt =====
-- core/dag.cpp, DAG::build: how the call ends on a problem in which a tensor may have several
-- producers, with the assertion against them and without it.
use pto_fusebox.Base.{
  ℕ, suc, ◌≤◌, ◌<◌, ◌≡◌, refl, ◌∙◌, subst, fun_ext, ◌≢◌, ◌↔◌, ◌⊎◌, inl, inr, Bool, true, false,
  ◌&&◌, ◌||◌, Option, none, some, List, [], ◌∷◌, arith, ◌==◌, Option-cases, eq_or_ne, ==→eq,
  ==_refl, ==-eq-false, elem, Table, put,
}
use pto_fusebox.FlatSet.Member.{elem-of_range}
use pto_fusebox.Problem.{Op, output, Problem, num_ops}
use pto_fusebox.Dag.{Dag}
use pto_fusebox.Dag.Topo.Complete.{topo_sort_sound}
use pto_fusebox.Dag.Build.{
  map_producers, link_ops, no_links, assemble, ok, assertion_failed, out_of_fuel, build,
}
use pto_fusebox.Dag.Build.Producers.{
  produces_from, produces_from-eq, is_just, produces, HasUniqueOutputs, map_producers_total,
  map_producers_unique,
}
use pto_fusebox.Dag.Build.Edges.{reads, link_ops_lem}
use pto_fusebox.Dag.Build.Correct.{
  linked-IsGraph, links-IsGraph, produces-lt, build-none, build-some,
}

-- Without assertions: the entry is the last of the numbers that satisfy the test, if there is one.
abbrev pub IsLast : (ℕ → Bool) → Option ℕ → Type 0
IsLast test none = (u : ℕ) → test u ≡ false
IsLast test (some u) = (test u ≡ true) × ((v : ℕ) → test v ≡ true → v ≤ u)

pub IsLast-just :
    (test : ℕ → Bool) (o : Option ℕ) (u : ℕ) → IsLast test o → is_just o u ≡ true → test u ≡ true
IsLast-just test none u last h = cc
IsLast-just test (some a) u last h = subst (λ x. test x ≡ true) (==→eq a u h) last.0

IsLast-put :
    (i : ℕ) (op : Op) (p : Table (Option ℕ)) (t : ℕ) (test : ℕ → Bool)
    → ((u : ℕ) → test u ≡ true → u < i)
    → IsLast test (p t)
    → IsLast (λ u. test u || u == i && output op == t) (put p (output op) (some i) t)
IsLast-put i op p t test old last = elim (eq_or_ne (output op) t) [
  | inl e ↦ rw (e, ==_refl t) (ground arith, λ v m. ground (arith, old v))
  | inr ne ↦
      rw (==-eq-false (output op) t ne)
        (subst (λ f. IsLast f (p t)) (fun_ext (λ u. ground arith)) last)
]

map_producers-IsLast :
    (i : ℕ) (ops : List Op) (p : Table (Option ℕ)) (test : ℕ → ℕ → Bool)
    → ((t u : ℕ) → test t u ≡ true → u < i)
    → ((t : ℕ) → IsLast (test t) (p t))
    → (q : Table (Option ℕ)) × (map_producers false i ops p ≡ some q)
      × ((t : ℕ) → IsLast (λ u. test t u || produces_from i ops u t) (q t))
unfolding map_producers
map_producers-IsLast i [] p test old last =
    (p, refl, λ t. subst (λ f. IsLast f (p t)) (fun_ext (λ u. ground arith)) (last t))
map_producers-IsLast i (op ∷ ops) p test old last =
    let (q, runs, after) =
      map_producers-IsLast (suc i) ops (put p (output op) (some i))
        (λ t u. test t u || u == i && output op == t) (λ t u m. ground (arith, old t u))
        (λ t. IsLast-put i op p t (test t) (old t) (last t)) in
    (
      q,
      elim (Option-cases (p (output op))) [
        | inl e ↦ rw (e, map_producers) runs
        | inr (j, e) ↦ rw (e, map_producers) runs
      ],
      λ t. subst (λ f. IsLast f (q t)) (fun_ext (λ u. ground arith)) (after t),
    )

-- Without assertions the loop ends, and names the last producer of each tensor.
pub unchecked-IsLast :
    (ops : List Op)
    → (q : Table (Option ℕ)) × (map_producers false 0 ops (λ t. none) ≡ some q)
      × ((t : ℕ) → IsLast (λ u. produces ops u t) (q t))
unchecked-IsLast ops =
    let (q, runs, last) =
      map_producers-IsLast 0 ops (λ t. none) (λ t u. false) (λ t u m. cc) (λ t u. refl) in
    (q, runs, λ t. subst (λ f. IsLast f (q t)) (fun_ext (λ u. produces_from-eq ops u t)) (last t))

-- The build with assertions ends normally, or in the assertion.
build_checked :
    (prob : Problem)
    → (HasUniqueOutputs prob.ops × (d : Dag) × (build true prob ≡ ok d))
      ⊎ ((build true prob ≡ assertion_failed) × (map_producers true 0 prob.ops (λ t. none) ≡ none))
build_checked prob = elim (Option-cases (map_producers true 0 prob.ops (λ t. none))) [
  | inl e ↦ inr (build-none true prob e, e)
  | inr (producer, runs) ↦
      let (order, sorts, _) = topo_sort_sound (links-IsGraph prob producer runs) in
      inl (
        map_producers_unique prob.ops producer runs,
        _,
        build-some true prob producer order runs sorts,
      )
]

checked_outcome :
    (prob : Problem)
    → (build true prob ≢ out_of_fuel)
      × ((build true prob ≢ assertion_failed) ↔ HasUniqueOutputs prob.ops)
checked_outcome prob = elim (build_checked prob) [
  | inl (unique, d, runs) ↦ (λ e. cc, (λ h. unique, λ u e. cc))
  | inr (failed, e) ↦ (
    λ o. cc,
    (λ h. absurd (h failed), λ u o. let (q, runs) = map_producers_total prob.ops u in cc),
  )
]

-- With assertions `build` fails exactly when its assertion fails, which is when some tensor is the
-- output of two operations, and never runs out of fuel. Without them, as in the default build, it
-- returns a graph on every problem: the producer of a tensor is the last operation that has it as
-- its output, and none if there is no such operation, and the predecessors of an operation are the
-- producers, so named, of its inputs.
pub build_outcome :
    (prob : Problem)
    → ((build true prob ≢ out_of_fuel)
        × ((build true prob ≢ assertion_failed) ↔ HasUniqueOutputs prob.ops))
      × (d : Dag) × (build false prob ≡ ok d)
      × ((t : ℕ) → IsLast (λ u. produces prob.ops u t) (d.tensor_producer t))
      × ((u v : ℕ) → elem (d.op_preds v) u ≡ reads d.tensor_producer prob.ops u v)
build_outcome prob =
    let (producer, runs, last) = unchecked-IsLast prob.ops in
    let bound : (t u : ℕ) → is_just (producer t) u ≡ true → u < num_ops prob = λ t u h.
      produces-lt prob.ops u t
        (IsLast-just (λ u. produces prob.ops u t) (producer t) u (last t) h) in
    let (order, sorts, _) = topo_sort_sound (linked-IsGraph prob producer bound) in
    (
      checked_outcome prob,
      _,
      build-some false prob producer order runs sorts,
      unfold assemble in last,
      unfold assemble in
          λ u v.
            elem-of_range ((link_ops producer 0 prob.ops no_links).op_preds v) u
            ∙ (link_ops_lem producer prob.ops u v 0).0,
    )
