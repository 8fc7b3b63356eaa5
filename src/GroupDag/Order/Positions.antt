-- ===== src/GroupDag/Order/Positions.antt =====
-- core/group_dag.cpp: the positions of the groups in a list that is the order.
use pto_fusebox.Base.{
  ℕ, zero, suc, ◌<◌, ◌≡◌, refl, sym, ap, ◌∙◌, subst, ◌↔◌, ◌⊎◌, inl, inr, true, false, Option, some,
  List, [], ◌∷◌, ◌++◌, arith, eq_or_ne, true_or_false, length, get_elem?, elem, elem-append, Table,
  put,
}
use mathlib.Core.Option.{some-injective}
use pto_fusebox.Dag.Graph.{Follows}

-- `topo_pos_` and `topo_order_` are inverse to each other.
abbrev pub IsInverse : Table (Option ℕ) → List ℕ → Type 0
IsInverse pos order = (x i : ℕ) → (pos x ≡ some i) ↔ (get_elem? order i ≡ some x)

pub get_elem?-elem : (xs : List ℕ) (i x : ℕ) → get_elem? xs i ≡ some x → elem xs x ≡ true
get_elem?-elem [] i x h = cc
get_elem?-elem (y ∷ ys) zero x h = ground (arith, some-injective _ _ h)
get_elem?-elem (y ∷ ys) (suc i) x h = ground (arith, get_elem?-elem ys i x h)

pub elem-get_elem? : (xs : List ℕ) (x : ℕ) → elem xs x ≡ true → (i : ℕ) × (get_elem? xs i ≡ some x)
elem-get_elem? [] x h = cc
elem-get_elem? (y ∷ ys) x h = elim (eq_or_ne x y) [
  | inl e ↦ (0, ap some (sym e))
  | inr ne ↦ let (i, p) = elem-get_elem? ys x (ground arith) in (suc i, p)
]

-- The entries of a list with one more element.
get_elem?-snoc :
    (xs : List ℕ) (u i x : ℕ)
    → (get_elem? (xs ++ u ∷ []) i ≡ some x)
      ↔ ((get_elem? xs i ≡ some x) ⊎ ((i ≡ length xs) × (u ≡ x)))
get_elem?-snoc [] u zero x =
    (λ h. inr (refl, some-injective _ _ h), elim [ inl h ↦ cc | inr h ↦ ap some h.1 ])
get_elem?-snoc [] u (suc i) x = (λ h. cc, elim [ inl h ↦ cc | inr h ↦ absurd (omega (arith, h.0)) ])
get_elem?-snoc (y ∷ ys) u zero x =
    (λ h. inl h, elim [ inl h ↦ h | inr h ↦ absurd (omega (arith, h.0)) ])
get_elem?-snoc (y ∷ ys) u (suc i) x =
    let (from, to) = get_elem?-snoc ys u i x in
    (
      λ h. elim (from h) [ inl p ↦ inl p | inr p ↦ inr (omega (arith, p.0), p.1) ],
      elim [ inl h ↦ to (inl h) | inr h ↦ to (inr (omega (arith, h.0), h.1)) ],
    )

pub IsInverse-snoc :
    (pos : Table (Option ℕ)) (order : List ℕ) (u : ℕ)
    → IsInverse pos order
    → elem order u ≡ false
    → IsInverse (put pos u (some (length order))) (order ++ u ∷ [])
IsInverse-snoc pos order u inv new x i =
    let (from, to) = get_elem?-snoc order u i x in
    elim (eq_or_ne u x) [
      | inl e ↦
          let at : put pos u (some (length order)) x ≡ some (length order) = ground (arith, e) in
          (
            λ h. to (inr (sym (some-injective _ _ (sym at ∙ h)), e)),
            λ h. elim (from h) [
              | inl p ↦ absurd (
                  true_or_false (get_elem?-elem order i x p)
                    (subst (λ z. elem order z ≡ false) e new))
              | inr (l, _) ↦ at ∙ ap some (sym l)
            ],
          )
      | inr ne ↦
          let at : put pos u (some (length order)) x ≡ pos x = ground (arith, ne) in
          (
            λ h. to (inl ((inv x i).0 (sym at ∙ h))),
            λ h. elim (from h) [ inl p ↦ at ∙ (inv x i).1 p | inr (_, e) ↦ absurd (ne e) ],
          )
    ]

-- Behind `seen`, a predecessor of an entry is in `seen` or earlier in the list.
pub Follows-earlier :
    (preds : Table (List ℕ)) (seen xs : List ℕ) (i x p : ℕ)
    → Follows preds seen xs
    → get_elem? xs i ≡ some x
    → elem (preds x) p ≡ true
    → (elem seen p ≡ true) ⊎ ((j : ℕ) × (j < i) × (get_elem? xs j ≡ some p))
Follows-earlier preds seen [] i x p f h m = cc
Follows-earlier preds seen (y ∷ ys) zero x p f h m =
    inl (f.1 p (subst (λ z. elem (preds z) p ≡ true) (sym (some-injective _ _ h)) m))
Follows-earlier preds seen (y ∷ ys) (suc i) x p f h m =
    elim (Follows-earlier preds (seen ++ y ∷ []) ys i x p f.2 h m) [
      | inl e ↦ elim (eq_or_ne p y) [
        | inl same ↦ inr (0, omega arith, ap some (sym same))
        | inr ne ↦ inl (ground (arith, elem-append seen (y ∷ []) p))
      ]
      | inr (j, lt, q) ↦ inr (suc j, omega arith, q)
    ]
