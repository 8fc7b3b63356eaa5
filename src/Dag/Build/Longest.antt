-- ===== src/Dag/Build/Longest.antt =====
-- core/dag.cpp, DAG::build: the length of the longest chain of operations.
pub mod Paths
use pto_fusebox.Base.{
  ℕ, zero, suc, ◌+◌, ◌-◌, ◌*◌, ◌/◌, ◌%◌, ◌≤◌, ◌<◌, min, max, ◌≡◌, refl, sym, ap, ◌∙◌, subst,
  fun_ext, ◌≢◌, ◌↔◌, ◌⊎◌, inl, inr, Bool, true, false, not, ◌&&◌, ◌||◌, Option, none, some, List,
  [], ◌∷◌, ◌++◌, map, arith, ltb, leb, ◌==◌, if◌then◌else◌, Bool-cases, Option-cases, eq_or_ne,
  ltb→lt, lt→ltb, leb→le, ==→eq, ==_refl, ==-eq-false, length, get_elem?, get_or, length-append,
  List-cases, All, elem, elem-append, any, any_find, any_intro, any_cong, Table, put,
}
use pto_fusebox.Dag.{Dag}
use pto_fusebox.Dag.Graph.{IsGraph, Follows}
use pto_fusebox.Dag.Build.Correct.{HasNoCycle, build_lem, build-Parts}
use pto_fusebox.Dag.Build.Producers.{HasUniqueOutputs, map_producers_unique}
use pto_fusebox.Problem.{Problem, num_ops}
use pto_fusebox.Dag.Build.{Links, extend_paths, path_lengths, largest, build, ok, assemble}
use pto_fusebox.Dag.Build.Longest.Paths.{
  Chain, start, extend, extend_paths-grows, extend_paths-other, extend_paths-reaches,
  path_lengths-Realized, path_lengths-grows,
}

-- With an operation, all its predecessors are in the set.
abbrev Closed : Table (List ℕ) → List ℕ → Type 0
Closed preds seen = (x p : ℕ) → elem seen x ≡ true → elem (preds x) p ≡ true → elem seen p ≡ true

Closed-append :
    (preds : Table (List ℕ)) (seen : List ℕ) (op : ℕ)
    → Closed preds seen
    → ((p : ℕ) → elem (preds op) p ≡ true → elem seen p ≡ true)
    → Closed preds (seen ++ op ∷ [])
Closed-append preds seen op c h x p m e =
    ground (arith, elem-append seen (op ∷ []) x, elem-append seen (op ∷ []) p, c x p, h p)

module _ {n : ℕ} {preds succs : Table (List ℕ)} (g : IsGraph n preds succs) where
  -- An operation that is placed already is not a successor of a later one.
  path_lengths-placed :
      (order seen : List ℕ) (dist : Table ℕ) (x : ℕ)
      → Follows preds seen order
      → Closed preds seen
      → elem seen x ≡ true
      → path_lengths succs order dist x ≡ dist x
  unfolding path_lengths
  path_lengths-placed [] seen dist x f c m = refl
  path_lengths-placed (op ∷ order) seen dist x f c m =
      let ahead : elem (succs op) x ≡ false = ground (arith, g.mirror op x, c x op m, f.0) in
      path_lengths-placed order (seen ++ op ∷ []) (extend_paths op (succs op) dist) x f.2
        (Closed-append preds seen op c f.1) (ground (arith, elem-append seen (op ∷ []) x))
      ∙ extend_paths-other op (succs op) dist x ahead

  path_lengths-edge :
      (order seen : List ℕ) (dist : Table ℕ) (u v : ℕ)
      → Follows preds seen order
      → Closed preds seen
      → elem order u ≡ true
      → elem (succs u) v ≡ true
      → path_lengths succs order dist u < path_lengths succs order dist v
  unfolding path_lengths
  path_lengths-edge [] seen dist u v f c m h = cc
  path_lengths-edge (op ∷ order) seen dist u v f c m h =
      let c' = Closed-append preds seen op c f.1 in
      elim (eq_or_ne u op) [
        | inl e ↦
            let edge : elem (succs op) v ≡ true = ap (λ y. elem (succs y) v) (sym e) ∙ h in
            let alone : elem (succs op) op ≡ false = ground (arith, g.mirror op op, f.0, f.1 op) in
            rw e (
              omega (
                arith,
                path_lengths-placed order (seen ++ op ∷ []) (extend_paths op (succs op) dist) op f.2
                    c' (ground (arith, elem-append seen (op ∷ []) op)),
                extend_paths-other op (succs op) dist op alone,
                extend_paths-reaches op (succs op) dist v alone edge,
                path_lengths-grows succs order (extend_paths op (succs op) dist) v,
              ))
        | inr e ↦
            path_lengths-edge order (seen ++ op ∷ []) (extend_paths op (succs op) dist) u v f.2 c'
              (ground arith) h
      ]

  Chain-bound :
      (order : List ℕ)
      → Follows preds [] order
      → ((x : ℕ) → elem order x ≡ ltb x n)
      → {k u v : ℕ} → Chain succs k u v
      → k ≤ path_lengths succs order (λ x. 0) v
  Chain-bound order f full start = omega arith
  Chain-bound order f full (extend {k} {u} {v} {w} c edge) =
      let inside = g.inside v w edge in
      omega (
        arith,
        Chain-bound order f full c,
        path_lengths-edge order [] (λ x. 0) v w f (λ x p m h. cc) (ground (arith, full v)) edge,
      )

largest-bound : (n : ℕ) (dist : Table ℕ) (v : ℕ) → v < n → dist v ≤ largest n dist
unfolding largest
largest-bound zero dist v h = absurd (omega arith)
largest-bound (suc n) dist v h = elim (eq_or_ne v n) [
  | inl e ↦ ground (arith, ap dist e)
  | inr e ↦ ground (arith, largest-bound n dist v)
]

largest-attained : (n : ℕ) (dist : Table ℕ) → 0 < n → (v : ℕ) × (v < n) × (dist v ≡ largest n dist)
unfolding largest
largest-attained zero dist h = absurd (omega arith)
largest-attained (suc zero) dist h = (0, omega arith, ground arith)
largest-attained (suc (suc n)) dist h =
    elim (Bool-cases (ltb (largest (suc n) dist) (dist (suc n)))) [
      | inl e ↦ (suc n, omega arith, rw (e, largest))
      | inr e ↦
          let (v, inside, at) = largest-attained (suc n) dist (omega arith) in
          (v, omega arith, rw (e, largest) at)
    ]

-- The number is the length of a longest chain.
pub record IsLongest (d : Dag) : Type 0 where
  pub bound : {k u v : ℕ} → v < d.num_ops → Chain d.op_succs k u v → k ≤ d.longest_chain
  pub attained : 0 < d.num_ops → (u v : ℕ) × (v < d.num_ops) × Chain d.op_succs d.longest_chain u v

assemble-IsLongest :
    (prob : Problem) (producer : Table (Option ℕ)) (l : Links) (order : List ℕ)
    → IsGraph (num_ops prob) l.op_preds l.op_succs
    → Follows l.op_preds [] order
    → ((x : ℕ) → elem order x ≡ ltb x (num_ops prob))
    → IsLongest (assemble prob producer l order)
unfolding assemble
assemble-IsLongest prob producer l order g f full = record {
  bound = λ inside c. omega (
    arith,
    Chain-bound g order f full c,
    largest-bound (num_ops prob) (path_lengths l.op_succs order (λ x. 0)) _ inside,
  );
  attained = λ some_op.
      let dist = path_lengths l.op_succs order (λ x. 0) in
      let (v, inside, at) = largest-attained (num_ops prob) dist some_op in
      let (u, c) = path_lengths-Realized l.op_succs order (λ x. 0) (λ x. (x, start)) v in
      (u, v, inside, subst (λ k. Chain l.op_succs k u v) at c);
}

-- When the data flow of the problem has no cycle, and no tensor is the output of two operations or
-- the build has assertions, the longest chain that `build` stores is the
-- largest number of edges on a chain of operations: no chain has more, and some chain has as many.
pub longest_lem :
    (assertions : Bool) (prob : Problem) (d : Dag)
    → (assertions ≡ false → HasUniqueOutputs prob.ops)
    → build assertions prob ≡ ok d
    → HasNoCycle prob
    → IsLongest d
unfolding assemble
longest_lem assertions prob d unique h acyclic =
    let p = build-Parts assertions prob d unique h in
    let (d', e, desc) = build_lem prob (map_producers_unique prob.ops p.producer p.runs) acyclic in
    let built = e assertions in
    let same : d' ≡ d = cc in
    let full =
      subst (λ (z : Dag). (x : ℕ) → elem z.topo_order x ≡ ltb x z.num_ops) (same ∙ p.whole)
        desc.built.full in
    subst IsLongest (sym p.whole)
      (assemble-IsLongest prob p.producer _ p.order p.graph p.is_order.follows full)
