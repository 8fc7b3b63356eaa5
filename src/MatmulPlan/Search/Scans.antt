-- ===== src/MatmulPlan/Search/Scans.antt =====
-- The loops of `best_in_regime` of core/l0_matmul_plan.cpp keep the cheapest tile that they reach.
use pto_fusebox.Base.{
  ℕ, ◌≤◌, ◌≡◌, refl, subst, ◌⊎◌, inl, inr, Bool, true, false, Option, none, some, List, [], ◌∷◌,
  arith, if◌then◌else◌, Bool-cases, eq_or_ne, ==-eq-false, In, All-In, IsAscending,
}
use pto_fusebox.MatmulPlan.{Double, L0MatmulConfig}
use pto_fusebox.MatmulPlan.Costs.{Regime}
use pto_fusebox.MatmulPlan.Search.{Candidate, candidate_at, scan_k, scan_n, scan_m, keep, better}
use pto_fusebox.MatmulPlan.Search.Tile.{
  AtMost, IsOffered, k_values_at, skips_at, IsReached, breaks_at, n_values_at, IsRow,
}

module _ {ℓ} {W : Type ℓ} ⦃d : Double W⦄ (c : L0MatmulConfig W) (r : Regime)
    (require_2d require_full_k : Bool) where
  better_le :
      (new old : Candidate W)
      → (better new old c ≡ true → new.wall_cycles ≤ old.wall_cycles)
        × (better new old c ≡ false → old.wall_cycles ≤ new.wall_cycles)
  unfolding better
  better_le new old = elim (eq_or_ne new.wall_cycles old.wall_cycles) [
    | inl e ↦ (λ h. omega arith, λ h. omega arith)
    | inr ne ↦ rw (==-eq-false _ _ ne) (λ h. ground arith, λ h. ground arith)
  ]

  pub keep-AtMost :
      (new : Candidate W) (best : Option (Candidate W)) (w : ℕ)
      → AtMost c r require_2d require_full_k w best ⊎ (new.wall_cycles ≤ w)
      → AtMost c r require_2d require_full_k w (keep c r new best)
  unfolding keep
  keep-AtMost new none w (inl h) = elim h [ ]
  keep-AtMost new none w (inr h) = h
  keep-AtMost new (some best) w h = elim (Bool-cases (better new best c)) [
    | inl e ↦ rw e (ground (arith, (better_le new best).0 e, h))
    | inr e ↦ rw e (ground (arith, (better_le new best).1 e, h))
  ]

  -- A step that leaves `best` alone or adds a candidate keeps every bound.
  pub step-AtMost :
      (skipped : Bool) (new : Candidate W) (best : Option (Candidate W)) (w : ℕ)
      → AtMost c r require_2d require_full_k w best ⊎ ((skipped ≡ false) × (new.wall_cycles ≤ w))
      → AtMost c r require_2d require_full_k w (if skipped then best else keep c r new best)
  step-AtMost true new best w (inl h) = h
  step-AtMost true new best w (inr (e, h)) = cc
  step-AtMost false new best w (inl h) = keep-AtMost new best w (inl h)
  step-AtMost false new best w (inr (e, h)) = keep-AtMost new best w (inr h)

  pub scan_k-AtMost :
      (m n : ℕ) (ks : List ℕ) (best : Option (Candidate W)) (w : ℕ)
      → AtMost c r require_2d require_full_k w best
        ⊎ ((k : ℕ) × In k ks × IsOffered c r require_2d require_full_k m n w k)
      → AtMost c r require_2d require_full_k w (scan_k c r require_2d require_full_k m n ks best)
  unfolding scan_k
  scan_k-AtMost m n [] best w (inl h) = h
  scan_k-AtMost m n [] best w (inr (k, i, h)) = elim i [ ]
  scan_k-AtMost m n (x ∷ ks) best w h = scan_k-AtMost m n ks _ w (elim h [
    | inl a ↦ inl (step-AtMost _ (candidate_at c r m n x) best w (inl a))
    | inr (k, i, o) ↦ elim i [
      | inr j ↦ inr (k, j, o)
      | inl same ↦ inl (
          step-AtMost _ (candidate_at c r m n x) best w
            (inr (subst (IsOffered c r require_2d require_full_k m n w) same o)))
    ]
  ])

  -- A step that leaves `best` alone or searches on keeps every bound, if the search does.
  pub guard-AtMost :
      (skipped : Bool) (best next : Option (Candidate W)) (w : ℕ)
      → (AtMost c r require_2d require_full_k w best → AtMost c r require_2d require_full_k w next)
      → AtMost c r require_2d require_full_k w best
        ⊎ ((skipped ≡ false) × AtMost c r require_2d require_full_k w next)
      → AtMost c r require_2d require_full_k w (if skipped then best else next)
  guard-AtMost true best next w keeps (inl h) = h
  guard-AtMost true best next w keeps (inr (e, h)) = cc
  guard-AtMost false best next w keeps (inl h) = keeps h
  guard-AtMost false best next w keeps (inr (e, h)) = h

  pub scan_n-AtMost :
      (m : ℕ) (ns : List ℕ) (best : Option (Candidate W)) (w : ℕ)
      → AtMost c r require_2d require_full_k w best
        ⊎ ((n : ℕ) × In n ns × IsReached c r require_2d require_full_k m w n)
      → AtMost c r require_2d require_full_k w (scan_n c r require_2d require_full_k m ns best)
  unfolding scan_n
  scan_n-AtMost m [] best w (inl h) = h
  scan_n-AtMost m [] best w (inr (n, i, h)) = elim i [ ]
  scan_n-AtMost m (x ∷ ns) best w h =
      let keeps : AtMost c r require_2d require_full_k w best
          → AtMost c r require_2d require_full_k w (
              scan_k c r require_2d require_full_k m x
                (k_values_at c r require_2d require_full_k m x) best) =
        λ a. scan_k-AtMost m x (k_values_at c r require_2d require_full_k m x) best w (inl a) in
      scan_n-AtMost m ns _ w (elim h [
        | inl a ↦
            inl (guard-AtMost (skips_at c r require_2d require_full_k m x) best _ w keeps (inl a))
        | inr (n, i, o) ↦ elim i [
          | inr j ↦ inr (n, j, o)
          | inl same ↦
              let (on, found) = subst (IsReached c r require_2d require_full_k m w) same o in
              inl (
                guard-AtMost (skips_at c r require_2d require_full_k m x) best _ w keeps (
                  inr (
                    on,
                    scan_k-AtMost m x (k_values_at c r require_2d require_full_k m x) best w
                        (inr found),
                  )))
        ]
      ])

  pub scan_m-AtMost :
      (ms : List ℕ) (best : Option (Candidate W)) (w : ℕ)
      → IsAscending ms
      → AtMost c r require_2d require_full_k w best
        ⊎ ((m : ℕ) × In m ms
            × ((l : ℕ) → In l ms → l ≤ m → breaks_at c r require_2d require_full_k l ≡ false)
            × IsRow c r require_2d require_full_k w m)
      → AtMost c r require_2d require_full_k w (scan_m c r require_2d require_full_k ms best)
  unfolding scan_m
  scan_m-AtMost [] best w s (inl h) = h
  scan_m-AtMost [] best w s (inr (m, i, h, o)) = elim i [ ]
  scan_m-AtMost (x ∷ ms) best w (low, s) h =
      let row_x = n_values_at c r require_2d require_full_k x in
      let keeps : AtMost c r require_2d require_full_k w best
          → AtMost c r require_2d require_full_k w
              (scan_n c r require_2d require_full_k x row_x best) =
        λ a. scan_n-AtMost x row_x best w (inl a) in
      let onward : AtMost c r require_2d require_full_k w best
          → AtMost c r require_2d require_full_k w (scan_m c r require_2d require_full_k ms _) =
        λ a. scan_m-AtMost ms _ w s (inl (guard-AtMost _ best _ w keeps (inl a))) in
      guard-AtMost (breaks_at c r require_2d require_full_k x) best _ w onward (elim h [
        | inl a ↦ inl a
        | inr (m, i, g, o) ↦ elim i [
          | inl same ↦
              let (on, found) = subst (IsRow c r require_2d require_full_k w) same o in
              inr (
                g x (inl refl) (omega arith),
                scan_m-AtMost ms _ w s (
                    inl (
                      guard-AtMost _ best _ w keeps
                        (inr (on, scan_n-AtMost x row_x best w (inr found))))),
              )
          | inr j ↦ inr (
            g x (inl refl) (All-In _ ms m low j),
            scan_m-AtMost ms _ w s (inr (m, j, (λ l k. g l (inr k)), o)),
          )
        ]
      ])
