-- ===== src/GroupDag/Queries/Events.antt =====
-- core/group_dag.cpp: the loops of `merge_creates_cycle` over the merged set and over successors.
use pto_fusebox.Base.{
  ℕ, ◌≤◌, ◌<◌, ◌≡◌, refl, subst, inl, inr, true, false, not, ◌&&◌, Option, none, some, List, [],
  ◌∷◌, arith, ltb, leb, Bool-cases, eq_or_ne, above_leb, ==_refl, elem, any,
}
use pto_fusebox.GroupDag.{GroupDag}
use pto_fusebox.GroupDag.Explore.Marks.{visits, finds, finds-append, visits-append}
use pto_fusebox.GroupDag.Queries.{
  is_merged, is_placed, later, all_have_topo, max_pos, seed_events, seeds_of, merge_events,
}

le-later : (o : Option ℕ) (top : ℕ) → top ≤ later o top
le-later none top = omega arith
le-later (some i) top = omega arith

module _ (g : GroupDag) (ms : List ℕ) where
  pub finds-merge_events : (gs : List ℕ) → finds (merge_events g ms gs) ≡ any (is_merged g ms) gs
  unfolding merge_events
  finds-merge_events [] = refl
  finds-merge_events (gj ∷ gs) = elim (Bool-cases (is_merged g ms gj)) [
    | inl e ↦ rw e refl
    | inr e ↦ rw e (finds-merge_events gs)
  ]

  pub elem-merge_events :
      (gs : List ℕ) (x : ℕ)
      → elem (visits (merge_events g ms gs)) x ≡ (elem gs x && not (is_merged g ms x))
  unfolding merge_events
  elem-merge_events [] x = refl
  elem-merge_events (gj ∷ gs) x = elim (eq_or_ne x gj) [
    | inl same ↦ elim (Bool-cases (is_merged g ms gj)) [
      | inl e ↦ rw (same, e) (ground (arith, elem-merge_events gs gj, e, ==_refl gj))
      | inr e ↦ rw (same, e) (ground (arith, e, ==_refl gj))
    ]
    | inr ne ↦ elim (Bool-cases (is_merged g ms gj)) [
      | inl e ↦ rw e (ground (arith, elem-merge_events gs x, ne))
      | inr e ↦ rw e (ground (arith, elem-merge_events gs x, ne))
    ]
  ]

  finds-seed_events : (gs : List ℕ) → finds (seed_events g ms gs) ≡ false
  unfolding seed_events
  finds-seed_events [] = refl
  finds-seed_events (gj ∷ gs) = elim (Bool-cases (is_merged g ms gj)) [
    | inl e ↦ rw e (finds-seed_events gs)
    | inr e ↦ rw e (finds-seed_events gs)
  ]

  elem-seed_events :
      (gs : List ℕ) (x : ℕ)
      → elem (visits (seed_events g ms gs)) x ≡ (elem gs x && not (is_merged g ms x))
  unfolding seed_events
  elem-seed_events [] x = refl
  elem-seed_events (gj ∷ gs) x = elim (eq_or_ne x gj) [
    | inl same ↦ elim (Bool-cases (is_merged g ms gj)) [
      | inl e ↦ rw (same, e) (ground (arith, elem-seed_events gs gj, e, ==_refl gj))
      | inr e ↦ rw (same, e) (ground (arith, e, ==_refl gj))
    ]
    | inr ne ↦ elim (Bool-cases (is_merged g ms gj)) [
      | inl e ↦ rw e (ground (arith, elem-seed_events gs x, ne))
      | inr e ↦ rw e (ground (arith, elem-seed_events gs x, ne))
    ]
  ]

  pub finds-seeds_of : (xs : List ℕ) → finds (seeds_of g ms xs) ≡ false
  unfolding seeds_of
  finds-seeds_of [] = refl
  finds-seeds_of (x ∷ xs) = elim (Bool-cases (leb g.size x)) [
    | inl e ↦ rw e (finds-seeds_of xs)
    | inr e ↦ rw e (
        ground (
          arith,
          finds-append (seed_events g ms (g.succs x)) (seeds_of g ms xs),
          finds-seed_events (g.succs x),
          finds-seeds_of xs,
        ))
  ]

  pub elem-seeds_of :
      (xs : List ℕ) (x : ℕ)
      → elem (visits (seeds_of g ms xs)) x
        ≡ (any (λ gi. ltb gi g.size && elem (g.succs gi) x) xs && not (is_merged g ms x))
  unfolding seeds_of
  elem-seeds_of [] x = refl
  elem-seeds_of (y ∷ ys) x = elim (Bool-cases (leb g.size y)) [
    | inl e ↦ rw e (ground (arith, elem-seeds_of ys x))
    | inr e ↦ rw e (
        ground (
          arith,
          elem-seeds_of ys x,
          elem-seed_events (g.succs y) x,
          visits-append (seed_events g ms (g.succs y)) (seeds_of g ms ys) x,
        ))
  ]

  pub placed-of_all :
      (xs : List ℕ) (x : ℕ)
      → all_have_topo g xs ≡ true
      → elem xs x ≡ true
      → x < g.size
      → is_placed (g.topo_pos x) ≡ true
  unfolding all_have_topo
  placed-of_all [] x a i h = cc
  placed-of_all (y ∷ ys) x a i h = elim (eq_or_ne x y) [
    | inl same ↦ rw same (ground (arith, a, h, same))
    | inr ne ↦ placed-of_all ys x (ground (arith, a)) (ground (arith, i)) h
  ]

  pub le-max_pos :
      (xs : List ℕ) (x i : ℕ)
      → elem xs x ≡ true
      → x < g.size
      → g.topo_pos x ≡ some i
      → i ≤ max_pos g xs
  unfolding max_pos
  le-max_pos [] x i m h e = cc
  le-max_pos (y ∷ ys) x i m h e = elim (eq_or_ne x y) [
    | inl same ↦
        let p : g.topo_pos y ≡ some i = subst (λ z. g.topo_pos z ≡ some i) same e in
        rw (above_leb g.size y (omega (arith, same)), p) (omega arith)
    | inr ne ↦
        let rest = le-max_pos ys x i (ground arith) h e in
        elim (Bool-cases (leb g.size y)) [
          | inl f ↦ rw f rest
          | inr f ↦ rw f (omega (arith, rest, le-later (g.topo_pos y) (max_pos g ys)))
        ]
  ]
