-- ===== src/Dag/Build/Longest/Paths.antt =====
-- core/dag.cpp, DAG::build: the path lengths that the loop over the order computes.
use pto_fusebox.Base.{
  ℕ, suc, ◌+◌, ◌≤◌, ◌≡◌, refl, sym, ap, ◌∙◌, subst, inl, inr, true, false, List, [], ◌∷◌, arith,
  ltb, if◌then◌else◌, Bool-cases, eq_or_ne, elem, Table, put,
}
use pto_fusebox.Dag.Build.{extend_paths, path_lengths}

-- The chains of `k` edges from `u` to `v`.
pub data Chain (succs : Table (List ℕ)) : ℕ → ℕ → ℕ → Type 0 where
  start : {u : ℕ} → Chain succs 0 u u
  extend : {k u v w : ℕ} → Chain succs k u v → elem (succs v) w ≡ true → Chain succs (suc k) u w

pub extend_paths-grows :
    (u : ℕ) (vs : List ℕ) (dist : Table ℕ) (x : ℕ) → dist x ≤ extend_paths u vs dist x
unfolding extend_paths
extend_paths-grows u [] dist x = omega arith
extend_paths-grows u (v ∷ vs) dist x = ground (
  arith,
  extend_paths-grows u vs (if ltb (dist v) (dist u + 1) then put dist v (dist u + 1) else dist) x,
)

pub extend_paths-other :
    (u : ℕ) (vs : List ℕ) (dist : Table ℕ) (x : ℕ)
    → elem vs x ≡ false
    → extend_paths u vs dist x ≡ dist x
unfolding extend_paths
extend_paths-other u [] dist x h = refl
extend_paths-other u (v ∷ vs) dist x h = ground (
  arith,
  extend_paths-other u vs (if ltb (dist v) (dist u + 1) then put dist v (dist u + 1) else dist) x,
)

pub extend_paths-reaches :
    (u : ℕ) (vs : List ℕ) (dist : Table ℕ) (x : ℕ)
    → elem vs u ≡ false
    → elem vs x ≡ true
    → dist u + 1 ≤ extend_paths u vs dist x
unfolding extend_paths
extend_paths-reaches u [] dist x h m = cc
extend_paths-reaches u (v ∷ vs) dist x h m = elim (eq_or_ne x v) [
  | inl e ↦ ground (
    arith,
    ap dist e,
    extend_paths-grows u vs (if ltb (dist v) (dist u + 1) then put dist v (dist u + 1) else dist) x,
  )
  | inr e ↦ ground (
    arith,
    extend_paths-reaches u vs (if ltb (dist v) (dist u + 1) then put dist v (dist u + 1) else dist)
        x,
  )
]

-- Every entry is the length of a chain that ends there.
abbrev Realized : Table (List ℕ) → Table ℕ → Type 0
Realized succs dist = (x : ℕ) → (u : ℕ) × Chain succs (dist x) u x

Realized-put :
    (succs : Table (List ℕ)) (dist : Table ℕ) (u v : ℕ)
    → Realized succs dist
    → elem (succs u) v ≡ true
    → Realized succs (put dist v (dist u + 1))
Realized-put succs dist u v r h x = elim (eq_or_ne v x) [
  | inl e ↦
      let (from, c) = r u in
      let longer : suc (dist u) ≡ put dist v (dist u + 1) x = ground arith in
      (
        from,
        subst (λ k. Chain succs k from x) longer
            (extend c (ap (λ y. elem (succs u) y) (sym e) ∙ h)),
      )
  | inr e ↦
      let (from, c) = r x in
      let same : dist x ≡ put dist v (dist u + 1) x = ground arith in
      (from, subst (λ k. Chain succs k from x) same c)
]

extend_paths-Realized :
    (succs : Table (List ℕ)) (u : ℕ) (vs : List ℕ) (dist : Table ℕ)
    → Realized succs dist
    → ((x : ℕ) → elem vs x ≡ true → elem (succs u) x ≡ true)
    → Realized succs (extend_paths u vs dist)
unfolding extend_paths
extend_paths-Realized succs u [] dist r h = r
extend_paths-Realized succs u (v ∷ vs) dist r h =
    let edge : elem (succs u) v ≡ true = h v (ground arith) in
    let inner : (x : ℕ) → elem vs x ≡ true → elem (succs u) x ≡ true = λ x m. h x (ground arith) in
    elim (Bool-cases (ltb (dist v) (dist u + 1))) [
      | inl e ↦
          rw (e, extend_paths)
            (extend_paths-Realized succs u vs (put dist v (dist u + 1))
              (Realized-put succs dist u v r edge) inner)
      | inr e ↦ rw (e, extend_paths) (extend_paths-Realized succs u vs dist r inner)
    ]

pub path_lengths-Realized :
    (succs : Table (List ℕ)) (order : List ℕ) (dist : Table ℕ)
    → Realized succs dist
    → Realized succs (path_lengths succs order dist)
unfolding path_lengths
path_lengths-Realized succs [] dist r = r
path_lengths-Realized succs (u ∷ order) dist r =
    path_lengths-Realized succs order (extend_paths u (succs u) dist)
      (extend_paths-Realized succs u (succs u) dist r (λ x m. m))

pub path_lengths-grows :
    (succs : Table (List ℕ)) (order : List ℕ) (dist : Table ℕ) (x : ℕ)
    → dist x ≤ path_lengths succs order dist x
unfolding path_lengths
path_lengths-grows succs [] dist x = omega arith
path_lengths-grows succs (u ∷ order) dist x = omega (
  arith,
  path_lengths-grows succs order (extend_paths u (succs u) dist) x,
  extend_paths-grows u (succs u) dist x,
)
