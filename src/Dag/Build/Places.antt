-- ===== src/Dag/Build/Places.antt =====
-- core/dag.cpp, DAG::build: the positions of the operations in the order.
use pto_fusebox.Base.{
  Bool, ℕ, suc, ◌+◌, ◌<◌, ◌≡◌, refl, sym, ap, ◌∙◌, subst, inl, inr, true, false, some, List, [],
  ◌∷◌, ◌++◌, arith, eq_or_ne, get_elem?, elem, elem-append, Table, put,
}
use pto_fusebox.Dag.{Dag}
use pto_fusebox.Dag.Graph.{Follows}
use pto_fusebox.Dag.Build.{positions, build, ok, assemble}
use pto_fusebox.Dag.Build.Producers.{HasUniqueOutputs, depends}
use pto_fusebox.Dag.Build.Correct.{preds-depends, build-Parts}
use pto_fusebox.Problem.{Problem}

pub Follows-fresh :
    (preds : Table (List ℕ)) (order seen : List ℕ) (x : ℕ)
    → Follows preds seen order
    → elem seen x ≡ true
    → elem order x ≡ false
Follows-fresh preds [] seen x f m = refl
Follows-fresh preds (op ∷ order) seen x f m =
    ground
      (arith, f.0, Follows-fresh preds order (seen ++ op ∷ []) x f.2, elem-append seen (op ∷ []) x)

positions-other :
    (order : List ℕ) (i : ℕ) (pos : Table ℕ) (x : ℕ)
    → elem order x ≡ false
    → positions i order pos x ≡ pos x
unfolding positions
positions-other [] i pos x h = refl
positions-other (op ∷ order) i pos x h =
    ground (arith, positions-other order (suc i) (put pos op i) x)

-- The operation stands at its position.
positions-at :
    (preds : Table (List ℕ)) (order seen : List ℕ) (i : ℕ) (pos : Table ℕ) (x : ℕ)
    → Follows preds seen order
    → elem order x ≡ true
    → (k : ℕ) × (positions i order pos x ≡ i + k) × (get_elem? order k ≡ some x)
unfolding positions
positions-at preds [] seen i pos x f m = cc
positions-at preds (op ∷ order) seen i pos x f m = elim (eq_or_ne x op) [
  | inl e ↦
      let out : elem order x ≡ false =
        Follows-fresh preds order (seen ++ op ∷ []) x f.2
          (ground (arith, elem-append seen (op ∷ []) x)) in
      (0, ground (arith, positions-other order (suc i) (put pos op i) x out), ap some (sym e))
  | inr e ↦
      let (k, at, found) =
        positions-at preds order (seen ++ op ∷ []) (suc i) (put pos op i) x f.2 (ground arith) in
      (suc k, omega (arith, at), found)
]

positions-rise :
    (preds : Table (List ℕ)) (order seen : List ℕ) (i : ℕ) (pos : Table ℕ) (u v : ℕ)
    → Follows preds seen order
    → elem order v ≡ true
    → elem (preds v) u ≡ true
    → elem seen u ≡ false
    → positions i order pos u < positions i order pos v
unfolding positions
positions-rise preds [] seen i pos u v f m h new = cc
positions-rise preds (op ∷ order) seen i pos u v f m h new = elim (eq_or_ne v op) [
  | inl e ↦ absurd (ground (arith, f.1 u, ap preds e))
  | inr e ↦
      let later : elem order v ≡ true = ground arith in
      let (k, at, found) =
        positions-at preds order (seen ++ op ∷ []) (suc i) (put pos op i) v f.2 later in
      elim (eq_or_ne u op) [
        | inl e' ↦
            let out : elem order u ≡ false =
              Follows-fresh preds order (seen ++ op ∷ []) u f.2
                (ground (arith, elem-append seen (op ∷ []) u)) in
            ground (arith, at, positions-other order (suc i) (put pos op i) u out)
        | inr e' ↦
            positions-rise preds order (seen ++ op ∷ []) (suc i) (put pos op i) u v f.2 later h
              (ground (arith, elem-append seen (op ∷ []) u))
      ]
]

-- What the order and the positions promise to who compares two positions.
pub record Places (prob : Problem) (d : Dag) : Type 0 where
  pub inverse :
      (x : ℕ) → elem d.topo_order x ≡ true → get_elem? d.topo_order (d.topo_pos x) ≡ some x
  pub rises :
      (u v : ℕ)
      → elem d.topo_order v ≡ true
      → depends prob.ops u v ≡ true
      → d.topo_pos u < d.topo_pos v

-- In the graph that `build` returns, with assertions or, on a problem in which no tensor is the
-- output of two operations, without, an operation of the order stands in it at its position, and
-- all the operations that it depends on have smaller positions.
pub places_lem :
    (assertions : Bool) (prob : Problem) (d : Dag)
    → (assertions ≡ false → HasUniqueOutputs prob.ops)
    → build assertions prob ≡ ok d
    → Places prob d
unfolding assemble
places_lem assertions prob d unique h =
    let p = build-Parts assertions prob d unique h in
    subst (Places prob) (sym p.whole) (record {
      inverse = λ x m.
          let (k, at, found) = positions-at _ p.order [] 0 (λ i. 0) x p.is_order.follows m in
          let same : positions 0 p.order (λ i. 0) x ≡ k = omega (arith, at) in rw same found;
      rises = λ u v m e.
          positions-rise _ p.order [] 0 (λ i. 0) u v p.is_order.follows m
            (preds-depends prob p.producer p.runs u v ∙ e) refl;
    })
