-- ===== src/Dag/Build/Producers.antt =====
-- core/dag.cpp, DAG::build: who produces and who consumes a tensor, in terms of the problem, and the
-- table of the producers.
use native.Mathlib.Nat.{zero-add}
use pto_fusebox.Base.{
  ℕ, zero, suc, ◌+◌, ◌≤◌, ◌<◌, ◌≡◌, List, [], ◌∷◌, Option, none, some, Bool, true, false, ◌&&◌,
  ◌||◌, Table, put, ◌==◌, get_elem?, length, arith, elem, any, refl, ap, eq_or_ne, inl, inr,
  Option-cases, sym, ◌∙◌,
}
use pto_fusebox.Problem.{Op, output}
use pto_fusebox.Dag.Build.{map_producers}

-- Operation `u` has tensor `t` as its output.
abbrev pub produces : List Op → ℕ → ℕ → Bool
produces ops u t = elim (get_elem? ops u) [ none ↦ false | some op ↦ output op == t ]

-- Operation `v` has tensor `t` among its inputs.
abbrev pub consumes : List Op → ℕ → ℕ → Bool
consumes ops v t = elim (get_elem? ops v) [ none ↦ false | some op ↦ elem op.inputs t ]

-- Operation `v` reads a tensor that operation `u` produces.
abbrev pub depends : List Op → ℕ → ℕ → Bool
depends ops u v = elim (get_elem? ops v) [
  | none ↦ false
  | some op ↦ any (λ t. produces ops u t) op.inputs
]

-- The same relations on a list whose operations are counted from `i`.
abbrev pub produces_from : ℕ → List Op → ℕ → ℕ → Bool
produces_from i [] u t = false
produces_from i (op ∷ ops) u t = u == i && output op == t || produces_from (suc i) ops u t

pub produces_from-bounds :
    (i : ℕ) (ops : List Op) (u t : ℕ)
    → produces_from i ops u t ≡ true
    → (i ≤ u) × (u < i + length ops)
produces_from-bounds i [] u t h = cc
produces_from-bounds i (op ∷ ops) u t h = ground (arith, produces_from-bounds (suc i) ops u t)

produces_from-add :
    (i : ℕ) (ops : List Op) (k t : ℕ) → produces_from i ops (i + k) t ≡ produces ops k t
produces_from-add i [] k t = refl
produces_from-add i (op ∷ ops) zero t = ground (arith, produces_from-bounds (suc i) ops (i + 0) t)
produces_from-add i (op ∷ ops) (suc k) t =
    let e : i + suc k ≡ suc i + k = omega arith in
    rw e (ground (arith, produces_from-add (suc i) ops k t))

-- The operation of an entry.
abbrev pub is_just : Option ℕ → ℕ → Bool
is_just none u = false
is_just (some a) u = a == u

map_producers-from :
    (i : ℕ) (ops : List Op) (p q : Table (Option ℕ)) (t u : ℕ)
    → map_producers true i ops p ≡ some q
    → is_just (q t) u ≡ (is_just (p t) u || produces_from i ops u t)
unfolding map_producers
map_producers-from i [] p q t u h = ground arith
map_producers-from i (op ∷ ops) p q t u h = elim (Option-cases (p (output op))) [
  | inl e ↦
      let ih =
        map_producers-from (suc i) ops (put p (output op) (some i)) q t u
          (rw (e, map_producers) at h) in
      elim (eq_or_ne (output op) t) [
        | inl d ↦ ground (arith, ih, ap p d)
        | inr d ↦ ground (arith, ih)
      ]
  | inr (j, e) ↦ cc (rw (e, map_producers) at h)
]

pub produces_from-eq : (ops : List Op) (u t : ℕ) → produces_from 0 ops u t ≡ produces ops u t
produces_from-eq ops u t =
    ap (λ k. produces_from 0 ops k t) (sym (zero-add u)) ∙ produces_from-add 0 ops u t

-- The table that the loop leaves names the producer of each tensor, if it has one.
pub map_producers_sound :
    (ops : List Op) (q : Table (Option ℕ)) (t u : ℕ)
    → map_producers true 0 ops (λ t. none) ≡ some q
    → is_just (q t) u ≡ produces ops u t
map_producers_sound ops q t u h =
    map_producers-from 0 ops (λ t. none) q t u h ∙ produces_from-eq ops u t

-- No tensor is the output of two operations.
abbrev pub HasUniqueOutputs : List Op → Type 0
HasUniqueOutputs ops = (t u v : ℕ) → produces ops u t ≡ true → produces ops v t ≡ true → u ≡ v

map_producers_total_from :
    (i : ℕ) (ops : List Op) (p : Table (Option ℕ))
    → ((t u v : ℕ) → produces_from i ops u t ≡ true → produces_from i ops v t ≡ true → u ≡ v)
    → ((t u : ℕ) → produces_from i ops u t ≡ true → p t ≡ none)
    → (q : Table (Option ℕ)) × (map_producers true i ops p ≡ some q)
unfolding map_producers
map_producers_total_from i [] p unique free = (p, refl)
map_producers_total_from i (op ∷ ops) p unique free =
    let e : p (output op) ≡ none = free (output op) i (ground arith) in
    let (q, runs) =
      map_producers_total_from (suc i) ops (put p (output op) (some i))
        (λ t u v a b. unique t u v (ground arith) (ground arith))
        (λ t u a. ground (arith, free t u, unique t i u, produces_from-bounds (suc i) ops u t)) in
    (q, rw (e, map_producers) runs)

-- Where the assertion holds it may be left out.
map_producers_unchecked :
    (i : ℕ) (ops : List Op) (p q : Table (Option ℕ))
    → map_producers true i ops p ≡ some q
    → map_producers false i ops p ≡ some q
unfolding map_producers
map_producers_unchecked i [] p q h = h
map_producers_unchecked i (op ∷ ops) p q h = elim (Option-cases (p (output op))) [
  | inl e ↦
      rw (e, map_producers)
        (map_producers_unchecked (suc i) ops (put p (output op) (some i)) q
          (rw (e, map_producers) at h))
  | inr (j, e) ↦ cc (rw (e, map_producers) at h)
]

pub map_producers_any :
    (assertions : Bool) (ops : List Op) (q : Table (Option ℕ))
    → map_producers true 0 ops (λ t. none) ≡ some q
    → map_producers assertions 0 ops (λ t. none) ≡ some q
map_producers_any true ops q h = h
map_producers_any false ops q h = map_producers_unchecked 0 ops (λ t. none) q h

-- With unique outputs the assertion holds.
pub map_producers_total :
    (ops : List Op)
    → HasUniqueOutputs ops
    → (q : Table (Option ℕ)) × (map_producers true 0 ops (λ t. none) ≡ some q)
map_producers_total ops unique =
    map_producers_total_from 0 ops (λ t. none)
      (λ t u v a b.
        unique t u v (rw (← produces_from-eq ops u t) a) (rw (← produces_from-eq ops v t) b))
      (λ t u a. refl)

-- The converse: a tensor with two producers fails the assertion.
pub map_producers_unique :
    (ops : List Op) (q : Table (Option ℕ))
    → map_producers true 0 ops (λ t. none) ≡ some q
    → HasUniqueOutputs ops
map_producers_unique ops q h t u v a b =
    ground (arith, map_producers_sound ops q t u h, map_producers_sound ops q t v h)
