-- ===== src/Dag/Topo/Kahn.antt =====
-- core/dag.cpp, DAG::topo_sort: one round of the loop and its invariant.
use pto_fusebox.Base.{
  ℕ, ◌+◌, ◌-◌, ◌<◌, ◌≡◌, ◌≢◌, refl, List, [], ◌∷◌, ◌++◌, true, false, not, ◌&&◌, ◌||◌, Table, ltb,
  ◌==◌, if◌then◌else◌, elem, elem-append, arith, All, Bool-cases, inl, inr,
}
use pto_fusebox.FlatSet.Order.{IsSorted, All-lt_trans}
use pto_fusebox.FlatSet.Member.{elem-below}
use pto_fusebox.Dag.Graph.{IsGraph, Follows}
use pto_fusebox.Dag.Topo.{push, Frontier, relax}

pub elem-push : (v : ℕ) (q : List ℕ) (x : ℕ) → elem (push v q) x ≡ (x == v || elem q x)
unfolding push
elem-push v [] x = refl
elem-push v (y ∷ q) x = ground (arith, elem-push v q x)

All-push : (b v : ℕ) (q : List ℕ) → b < v → All (λ y. b < y) q → All (λ y. b < y) (push v q)
unfolding push
All-push b v [] h p = (h, tt)
All-push b v (y ∷ q) h p = ground (arith, All-push b v q)

pub push-IsSorted : (v : ℕ) (q : List ℕ) → IsSorted q → elem q v ≡ false → IsSorted (push v q)
unfolding push
push-IsSorted v [] s h = (tt, tt)
push-IsSorted v (y ∷ q) s h = ground (arith, push-IsSorted v q, All-push y v q, All-lt_trans v y q)

-- How many of the predecessors are not placed yet.
abbrev pub missing : List ℕ → List ℕ → ℕ
missing order [] = 0
missing order (p ∷ ps) = (if elem order p then 0 else 1) + missing order ps

pub missing-append :
    (order : List ℕ) (u : ℕ) (ps : List ℕ)
    → IsSorted ps
    → elem order u ≡ false
    → missing (order ++ u ∷ []) ps + (if elem ps u then 1 else 0) ≡ missing order ps
missing-append order u [] s h = refl
missing-append order u (p ∷ ps) s h =
    ground (arith, missing-append order u ps, elem-append order (u ∷ []) p, elem-below p ps u)

pub missing-zero :
    (order : List ℕ) (ps : List ℕ) (p : ℕ)
    → missing order ps ≡ 0
    → elem ps p ≡ true
    → elem order p ≡ true
missing-zero order [] p z h = cc
missing-zero order (q ∷ ps) p z h = ground (arith, missing-zero order ps p)

pub missing-pos :
    (order : List ℕ) (ps : List ℕ)
    → missing order ps ≢ 0
    → (p : ℕ) × (elem ps p ≡ true) × (elem order p ≡ false)
missing-pos order [] h = absurd (h refl)
missing-pos order (q ∷ ps) h = elim (Bool-cases (elem order q)) [
  | inl e ↦ let (p, m, out) = missing-pos order ps (ground arith) in (p, ground arith, out)
  | inr e ↦ (q, ground arith, e)
]

pub in_deg-relax :
    (vs : List ℕ) (f : Frontier) (x : ℕ)
    → IsSorted vs
    → (relax vs f).in_deg x ≡ f.in_deg x - (if elem vs x then 1 else 0)
unfolding relax
in_deg-relax [] f x s = omega arith
in_deg-relax (v ∷ vs) f x s =
    ground (arith, in_deg-relax vs (relax (v ∷ []) f) x, elem-below v vs x)

pub elem-relax :
    (vs : List ℕ) (f : Frontier) (x : ℕ)
    → IsSorted vs
    → elem (relax vs f).queue x ≡ (elem f.queue x || elem vs x && f.in_deg x == 1)
unfolding relax
elem-relax [] f x s = ground arith
elem-relax (v ∷ vs) f x s =
    ground (arith, elem-relax vs (relax (v ∷ []) f) x, elem-below v vs x, elem-push v f.queue x)

pub relax-IsSorted :
    (vs : List ℕ) (f : Frontier)
    → IsSorted vs
    → IsSorted f.queue
    → ((x : ℕ) → elem vs x ≡ true → f.in_deg x ≡ 1 → elem f.queue x ≡ false)
    → IsSorted (relax vs f).queue
unfolding relax
relax-IsSorted [] f s t h = t
relax-IsSorted (v ∷ vs) f s t h =
    relax-IsSorted vs (relax (v ∷ []) f) s.1 (ground (arith, push-IsSorted v f.queue t, h v))
      (λ x m e. ground (arith, h x, elem-below v vs x s.0, elem-push v f.queue x))

pub Follows-append :
    (preds : Table (List ℕ)) (seen xs : List ℕ) (x : ℕ)
    → Follows preds seen xs
    → elem (seen ++ xs) x ≡ false
    → ((p : ℕ) → elem (preds x) p ≡ true → elem (seen ++ xs) p ≡ true)
    → Follows preds seen (xs ++ x ∷ [])
Follows-append preds seen [] x f new after = (
  ground (arith, elem-append seen [] x),
  λ p m. ground (arith, after p m, elem-append seen [] p),
  tt,
)
Follows-append preds seen (y ∷ xs) x f new after = (
  f.0,
  f.1,
  Follows-append preds (seen ++ y ∷ []) xs x f.2 (ground (arith, moved x))
      (λ p m. ground (arith, after p m, moved p)),
)
  where
    moved : (p : ℕ) → elem ((seen ++ y ∷ []) ++ xs) p ≡ elem (seen ++ y ∷ xs) p
    moved p = ground (
      arith,
      elem-append (seen ++ y ∷ []) xs p,
      elem-append seen (y ∷ []) p,
      elem-append seen (y ∷ xs) p,
    )

module _ {n : ℕ} {preds succs : Table (List ℕ)} (g : IsGraph n preds succs) where
  -- The counters count the predecessors that are not placed, and the queue holds the operations
  -- that are ready.
  pub record Inv (f : Frontier) (order : List ℕ) : Type 0 where
    pub degrees : (x : ℕ) → f.in_deg x ≡ missing order (preds x)
    pub ready : (x : ℕ) → elem f.queue x ≡ (ltb x n && f.in_deg x == 0 && not (elem order x))
    pub sorted : IsSorted f.queue
    pub closed : (x p : ℕ) → elem order x ≡ true → elem (preds x) p ≡ true → elem order p ≡ true
    pub follows : Follows preds [] order
    pub bounded : (x : ℕ) → elem order x ≡ true → x < n
