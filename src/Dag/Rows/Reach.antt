-- ===== src/Dag/Rows/Reach.antt =====
-- core/dag.cpp, DAG::precompute_reachability: the matrix holds exactly the walks of the graph.
use pto_fusebox.Base.Bits.{test_bit-zero}
use pto_fusebox.Base.{
  ℕ, ◌/◌, ◌<◌, ◌≡◌, List, [], ◌∷◌, ◌++◌, true, false, ◌||◌, Table, ◌==◌, elem, elem-append, arith,
  inl, inr, ◌⊎◌, refl, eq_or_ne, if◌then◌else◌, ◌%◌, any_cong, any, ap, any_find, any_intro,
}
use pto_fusebox.Dag.Rows.{set_self, fill}
use pto_fusebox.Dag.Graph.{IsGraph, Walk, here, step, Follows}
use pto_fusebox.Dag.Rows.Cells.{bit, bit-set_self, bit-or_succs}

-- Behind each operation of the list stand all its successors, and it does not come again.
abbrev pub Leads : Table (List ℕ) → List ℕ → Type 0
Leads succs [] = Unit
Leads succs (u ∷ rest) =
    (elem rest u ≡ false)
    × ((v : ℕ) → elem (succs u) v ≡ true → elem rest v ≡ true)
    × Leads succs rest

Follows-new :
    (preds : Table (List ℕ)) (seen xs : List ℕ) (y : ℕ)
    → Follows preds seen xs
    → elem xs y ≡ true
    → elem seen y ≡ false
Follows-new preds seen [] y f m = cc
Follows-new preds seen (x ∷ xs) y f m =
    ground (arith, f.0, Follows-new preds (seen ++ x ∷ []) xs y f.2, elem-append seen (x ∷ []) y)

module _ {n : ℕ} {preds succs : Table (List ℕ)} (g : IsGraph n preds succs) where
  -- An order that is complete and follows the predecessors leads to the successors.
  pub Follows-Leads :
      (seen xs : List ℕ)
      → Follows preds seen xs
      → ((x p : ℕ) → elem seen x ≡ true → elem (preds x) p ≡ true → elem seen p ≡ true)
      → ((v : ℕ) → v < n → (elem seen v || elem xs v) ≡ true)
      → Leads succs xs
  Follows-Leads seen [] f closed full = tt
  Follows-Leads seen (x ∷ xs) f closed full = (
    ground (arith, Follows-new preds (seen ++ x ∷ []) xs x f.2, elem-append seen (x ∷ []) x),
    λ v m. ground (arith, g.inside x v m, g.mirror x v, closed v x, f.0, f.1 x, full v),
    Follows-Leads (seen ++ x ∷ []) xs f.2
        (λ y p m h.
          ground
            (arith, elem-append seen (x ∷ []) y, elem-append seen (x ∷ []) p, closed y p, f.1 p))
        (λ v h. ground (arith, full v h, elem-append seen (x ∷ []) v)),
  )

Walk-cases :
    {succs : Table (List ℕ)} {u v : ℕ}
    → Walk succs u v
    → (v ≡ u) ⊎ ((w : ℕ) × (elem (succs u) w ≡ true) × Walk succs w v)
Walk-cases here = inl refl
Walk-cases (step edge walk) = inr (_, edge, walk)

module _ (words : ℕ) (succs : Table (List ℕ)) where
  -- Rows of operations that were not processed are empty.
  fill_empty :
      (xs : List ℕ) (u v : ℕ)
      → ((x : ℕ) → elem xs x ≡ true → x / 64 < words)
      → v / 64 < words
      → elem xs u ≡ false
      → bit words (fill words succs xs) u v ≡ false
  unfolding fill
  fill_empty [] u v fits h m = test_bit-zero (v % 64)
  fill_empty (x ∷ xs) u v fits h m = ground (
    arith,
    bit-or_succs words x (succs x) (set_self words x (fill words succs xs)) u v h,
    bit-set_self words x (fill words succs xs) u v (fits x (ground arith)) h,
    fill_empty xs u v (λ y p. fits y (ground arith)) h,
  )

  -- The head's row is its diagonal bit and the rows of its successors.
  fill_row :
      (u : ℕ) (xs : List ℕ) (x v : ℕ)
      → ((y : ℕ) → elem (u ∷ xs) y ≡ true → y / 64 < words)
      → v / 64 < words
      → elem xs u ≡ false
      → elem (succs u) u ≡ false
      → bit words (fill words succs (u ∷ xs)) x v ≡ (
          if x == u
          then v == u || any (λ w. bit words (fill words succs xs) w v) (succs u)
          else bit words (fill words succs xs) x v)
  unfolding fill
  fill_row u xs x v fits h new loop =
      let rows = fill words succs xs in
      let self = λ (y : ℕ). bit-set_self words u rows y v (fits u (ground arith)) h in
      let same : any (λ w. bit words (set_self words u rows) w v) (succs u)
          ≡ any (λ w. bit words rows w v) (succs u) =
        any_cong _ _ (succs u) (λ w m. elim (eq_or_ne w u) [
          | inl e ↦ cc (ap (elem (succs u)) e, m, loop)
          | inr e ↦ ground (arith, self w)
        ]) in
      let whole = bit-or_succs words u (succs u) (set_self words u rows) x v h in
      elim (eq_or_ne x u) [
        | inl e ↦ ground (
          arith,
          whole,
          self x,
          same,
          ap (λ t. bit words rows t v) e,
          fill_empty xs u v (λ y p. fits y (ground arith)) h new,
        )
        | inr e ↦ ground (arith, whole, self x)
      ]

  module _ (v : ℕ) (h : v / 64 < words) where
    -- A set bit comes from a walk.
    pub fill_sound :
        (xs : List ℕ) (u : ℕ)
        → ((y : ℕ) → elem xs y ≡ true → y / 64 < words)
        → Leads succs xs
        → elem xs u ≡ true
        → bit words (fill words succs xs) u v ≡ true
        → Walk succs u v
    fill_sound [] u fits l m b = cc
    fill_sound (x ∷ xs) u fits l m b =
        let loop : elem (succs x) x ≡ false = ground (arith, l.0, l.1 x) in
        let row = fill_row x xs u v fits h l.0 loop in
        let ih = λ (w : ℕ). fill_sound xs w (λ y p. fits y (ground arith)) l.2 in
        elim (eq_or_ne u x) [
          | inl e ↦ elim (eq_or_ne v u) [
            | inl d ↦ rw d here
            | inr d ↦
                let found : any (λ w. bit words (fill words succs xs) w v) (succs x) ≡ true =
                  ground (arith, row) in
                let (w, edge, set) = any_find _ (succs x) found in
                rw e (step edge (ih w (l.1 w edge) set))
          ]
          | inr e ↦ ih u (ground arith) (ground (arith, row))
        ]

    -- A walk sets the bit.
    pub fill_complete :
        (xs : List ℕ) (u : ℕ)
        → ((y : ℕ) → elem xs y ≡ true → y / 64 < words)
        → Leads succs xs
        → elem xs u ≡ true
        → Walk succs u v
        → bit words (fill words succs xs) u v ≡ true
    fill_complete [] u fits l m walk = cc
    fill_complete (x ∷ xs) u fits l m walk =
        let loop : elem (succs x) x ≡ false = ground (arith, l.0, l.1 x) in
        let row = fill_row x xs u v fits h l.0 loop in
        let ih = λ (w : ℕ). fill_complete xs w (λ y p. fits y (ground arith)) l.2 in
        elim (eq_or_ne u x) [
          | inl e ↦ elim (Walk-cases walk) [
            | inl d ↦ ground (arith, row)
            | inr (w, edge, rest) ↦
                let edge' : elem (succs x) w ≡ true = rw (← e) edge in
                let reached = ih w (l.1 w edge') rest in
                ground (
                  arith,
                  row,
                  any_intro (λ t. bit words (fill words succs xs) t v) (succs x) w edge' reached,
                )
          ]
          | inr e ↦ ground (arith, row, ih u (ground arith) walk)
        ]
