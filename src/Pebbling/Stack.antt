-- ===== src/Pebbling/Stack.antt =====
-- core/pebbling_order.cpp, DfsPostOrderStrategy: what stands on the stack.
use pto_fusebox.Base.{
  ℕ, suc, ◌+◌, ◌≤◌, ◌<◌, ◌≡◌, refl, ap, ◌∙◌, inl, inr, Bool, true, false, not, ◌&&◌, ◌||◌, List, [],
  ◌∷◌, arith, ◌==◌, Bool-cases, eq_or_ne, length, elem, Table,
}
use pto_fusebox.FlatSet.Member.{elem-unique, length-unique}
use pto_fusebox.Pebbling.{
  PebblingOrderNode, is_node, sort_insert_by, sort_by, by_stable_position, arrange, Entry,
  push_unvisited,
}

elem-sort_insert_by :
    (before : ℕ → ℕ → Bool) (a : ℕ) (xs : List ℕ) (w : ℕ)
    → elem (sort_insert_by before a xs) w ≡ (w == a || elem xs w)
unfolding sort_insert_by
elem-sort_insert_by before a [] w = refl
elem-sort_insert_by before a (x ∷ xs) w = ground (arith, elem-sort_insert_by before a xs w)

elem-sort_by :
    (before : ℕ → ℕ → Bool) (xs : List ℕ) (w : ℕ) → elem (sort_by before xs) w ≡ elem xs w
unfolding sort_by
elem-sort_by before [] w = refl
elem-sort_by before (x ∷ xs) w =
    ground (arith, elem-sort_by before xs w, elem-sort_insert_by before x (sort_by before xs) w)

pub elem-arrange :
    (nodes : List PebblingOrderNode) (xs : List ℕ) (w : ℕ) → elem (arrange nodes xs) w ≡ elem xs w
unfolding arrange
elem-arrange nodes xs w =
    elem-unique (sort_by (by_stable_position nodes) xs) w
    ∙ elem-sort_by (by_stable_position nodes) xs w

length-sort_insert_by :
    (before : ℕ → ℕ → Bool) (a : ℕ) (xs : List ℕ)
    → length (sort_insert_by before a xs) ≡ suc (length xs)
unfolding sort_insert_by
length-sort_insert_by before a [] = refl
length-sort_insert_by before a (x ∷ xs) = ground (arith, length-sort_insert_by before a xs)

length-sort_by : (before : ℕ → ℕ → Bool) (xs : List ℕ) → length (sort_by before xs) ≡ length xs
unfolding sort_by
length-sort_by before [] = refl
length-sort_by before (x ∷ xs) =
    omega (arith, length-sort_by before xs, length-sort_insert_by before x (sort_by before xs))

pub length-arrange :
    (nodes : List PebblingOrderNode) (xs : List ℕ) → length (arrange nodes xs) ≤ length xs
unfolding arrange
length-arrange nodes xs = omega (
  arith,
  length-unique (sort_by (by_stable_position nodes) xs),
  length-sort_by (by_stable_position nodes) xs,
)

-- An entry for `x` is on the stack; an expanded entry for `x` is on the stack.
abbrev pub on_stack : List Entry → ℕ → Bool
on_stack [] x = false
on_stack (e ∷ stack) x = x == e.node_id || on_stack stack x

abbrev pub open_on : List Entry → ℕ → Bool
open_on [] x = false
open_on (e ∷ stack) x = e.expanded && x == e.node_id || open_on stack x

module _ (nodes : List PebblingOrderNode) (visited : List ℕ) where
  pub open_on-push :
      (ps : List ℕ) (stack : List Entry) (x : ℕ)
      → open_on (push_unvisited nodes visited ps stack) x ≡ open_on stack x
  unfolding push_unvisited
  open_on-push [] stack x = refl
  open_on-push (p ∷ ps) stack x = ground (arith, open_on-push ps stack x)

  pub on_stack-push :
      (ps : List ℕ) (stack : List Entry) (x : ℕ)
      → on_stack (push_unvisited nodes visited ps stack) x
        ≡ (on_stack stack x || elem ps x && not (elem visited x) && is_node nodes x)
  unfolding push_unvisited
  on_stack-push [] stack x = ground arith
  on_stack-push (p ∷ ps) stack x = elim (eq_or_ne x p) [
    | inl e ↦ rw e (ground (arith, on_stack-push ps stack p))
    | inr e ↦ ground (arith, on_stack-push ps stack x)
  ]

  pub length-push :
      (ps : List ℕ) (stack : List Entry)
      → length (push_unvisited nodes visited ps stack) ≤ length ps + length stack
  unfolding push_unvisited
  length-push [] stack = omega arith
  length-push (p ∷ ps) stack = ground (arith, length-push ps stack)

-- Each entry has a smaller rank than the expanded ones below it.
abbrev pub Ordered : (ℕ → ℕ) → List Entry → Type 0
Ordered rank [] = Unit
Ordered rank (e ∷ stack) =
    ((x : ℕ) → open_on stack x ≡ true → rank e.node_id < rank x) × Ordered rank stack

-- Each predecessor of an expanded entry is visited or stands above it.
abbrev pub Covered : Table (List ℕ) → List ℕ → List ℕ → List Entry → Type 0
Covered preds visited above [] = Unit
Covered preds visited above (e ∷ stack) =
    (e.expanded ≡ true
      → (p : ℕ) → elem (preds e.node_id) p ≡ true
      → (elem visited p || elem above p) ≡ true)
    × Covered preds visited (e.node_id ∷ above) stack

pub Covered-weaken :
    (preds : Table (List ℕ)) (visited above visited' above' : List ℕ) (stack : List Entry)
    → ((p : ℕ)
        → (elem visited p || elem above p) ≡ true
        → (elem visited' p || elem above' p) ≡ true)
    → Covered preds visited above stack
    → Covered preds visited' above' stack
Covered-weaken preds visited above visited' above' [] h c = tt
Covered-weaken preds visited above visited' above' (e ∷ stack) h c = (
  λ x p m. h p (c.0 x p m),
  Covered-weaken preds visited (e.node_id ∷ above) visited' (e.node_id ∷ above') stack
      (λ p m. ground (arith, h p)) c.1,
)

module _ (nodes : List PebblingOrderNode) (visited : List ℕ) where
  pub Ordered-push :
      (rank : ℕ → ℕ) (ps : List ℕ) (stack : List Entry)
      → ((p x : ℕ)
          → elem ps p ≡ true
          → is_node nodes p ≡ true
          → open_on stack x ≡ true
          → rank p < rank x)
      → Ordered rank stack
      → Ordered rank (push_unvisited nodes visited ps stack)
  unfolding push_unvisited
  Ordered-push rank [] stack h o = o
  Ordered-push rank (p ∷ ps) stack h o =
      let rest = Ordered-push rank ps stack (λ q x m. h q x (ground arith)) o in
      elim (Bool-cases (not (elem visited p) && is_node nodes p)) [
        | inl e ↦
            rw (e, push_unvisited)
              (
                λ x m.
                    h p x (ground arith) (ground arith)
                      (ground (arith, open_on-push nodes visited ps stack x)),
                rest,
              )
        | inr e ↦ rw (e, push_unvisited) rest
      ]

  pub Covered-push :
      (preds : Table (List ℕ)) (ps : List ℕ) (stack : List Entry) (above above' : List ℕ)
      → ((q : ℕ)
          → elem above' q ≡ true
          → (elem visited q || elem above q || elem ps q && is_node nodes q) ≡ true)
      → Covered preds visited above' stack
      → Covered preds visited above (push_unvisited nodes visited ps stack)
  unfolding push_unvisited
  Covered-push preds [] stack above above' h c =
      Covered-weaken preds visited above' visited above stack (λ p m. ground (arith, h p)) c
  Covered-push preds (p ∷ ps) stack above above' h c =
      elim (Bool-cases (not (elem visited p) && is_node nodes p)) [
        | inl e ↦
            rw (e, push_unvisited)
              (
                λ x. cc,
                Covered-push preds ps stack (p ∷ above) above' (λ q m. ground (arith, h q m)) c,
              )
        | inr e ↦
            rw (e, push_unvisited)
              (Covered-push preds ps stack above above'
                (λ q m. elim (eq_or_ne q p) [
                  | inl same ↦
                      ground (arith, h q m, ap (elem visited) same, ap (is_node nodes) same)
                  | inr other ↦ ground (arith, h q m)
                ])
                c)
      ]
