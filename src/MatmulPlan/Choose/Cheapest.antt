-- ===== src/MatmulPlan/Choose/Cheapest.antt =====
-- The plan of `choose_l0_matmul_plan` (core/l0_matmul_plan.cpp) against the tiles it chooses from.
use pto_fusebox.Base.{
  ℕ, ◌≤◌, ◌≡◌, refl, sym, ap, ◌∙◌, subst, ◌↔◌, ◌⊎◌, inl, inr, Bool, true, false, not, ◌&&◌, Option,
  none, some, List, [], ◌∷◌, arith, ltb, Bool-cases, true_or_false,
}
use mathlib.Core.Bool.{false≢true}
use native.Mathlib.Nat.{le_refl, le_trans}
use pto_fusebox.MatmulPlan.{Double, L0MatmulConfig, Diagnostic, L0Stationarity}
use pto_fusebox.MatmulPlan.Costs.{Regime}
use pto_fusebox.MatmulPlan.Search.{Candidate, candidate_at, best_in_regime}
use pto_fusebox.MatmulPlan.Search.Tile.{IsTile, AtMost}
use pto_fusebox.MatmulPlan.Search.Optimal.{best_in_regime-AtMost}
use pto_fusebox.MatmulPlan.Search.Found.{Holds, IsOfTile, best_in_regime-IsOfTile}
use pto_fusebox.MatmulPlan.Choose.{
  validate, is_clear, baseline, is_output, cheaper, search_regime, try_regime, try_buffers,
  stationarities, try_all, is_tiled, refine, plan_of, planned, no_plan, choose_l0_matmul_plan,
}
use pto_fusebox.MatmulPlan.Choose.Valid.{IsValid, validate_iff}
use pto_fusebox.MatmulPlan.Choose.Plan.{IsValid-IsPositive}

module _ {ℓ} {W : Type ℓ} ⦃d : Double W⦄ (c : L0MatmulConfig W) where
  cheaper_le :
      (new : Option (Candidate W)) (best : Candidate W)
      → (cheaper new best).wall_cycles ≤ best.wall_cycles
  cheaper_le none best = le_refl _
  cheaper_le (some new) best = elim (Bool-cases (ltb new.wall_cycles best.wall_cycles)) [
    | inl e ↦ rw e (ground (arith, e))
    | inr e ↦ rw e (le_refl _)
  ]

  pub cheaper-AtMost :
      (r : Regime) (s t : Bool) (w : ℕ) (new : Option (Candidate W)) (best : Candidate W)
      → AtMost c r s t w new
      → (cheaper new best).wall_cycles ≤ w
  cheaper-AtMost r s t w none best h = elim h [ ]
  cheaper-AtMost r s t w (some new) best h =
      elim (Bool-cases (ltb new.wall_cycles best.wall_cycles)) [
        | inl e ↦ rw e h
        | inr e ↦ rw e (ground (arith, e, h))
      ]

  pub try_regime_le :
      (s : L0Stationarity) (dbc : Bool) (best : Candidate W)
      → (try_regime c s dbc best).wall_cycles ≤ best.wall_cycles
  unfolding try_regime
  try_regime_le s dbc best = elim (Bool-cases (is_output s && not dbc)) [
    | inl e ↦ rw e (le_refl _)
    | inr e ↦ rw e (cheaper_le (search_regime c s dbc) best)
  ]

  pub try_buffers_le :
      (s : L0Stationarity) (best : Candidate W)
      → (try_buffers c s best).wall_cycles ≤ best.wall_cycles
  unfolding try_buffers
  try_buffers_le s best = elim (Bool-cases c.allow_double_buffer_c) [
    | inl e ↦
        simp e
          (le_trans (try_regime_le s true (try_regime c s false best)) (try_regime_le s false best))
    | inr e ↦ simp e (try_regime_le s false best)
  ]

  pub try_all_le :
      (ss : List L0Stationarity) (best : Candidate W)
      → (try_all c ss best).wall_cycles ≤ best.wall_cycles
  unfolding try_all
  try_all_le [] best = le_refl _
  try_all_le (s ∷ ss) best = le_trans (try_all_le ss (try_buffers c s best)) (try_buffers_le s best)

  refine_le : (best : Candidate W) → (refine c best).wall_cycles ≤ best.wall_cycles
  unfolding refine
  refine_le best = elim (Bool-cases (is_tiled c best)) [
    | inl e ↦ simp e (try_all_le (stationarities c) best)
    | inr e ↦ simp e (le_refl _)
  ]

  pub chosen_of_clear :
      is_clear (validate c) ≡ true
      → choose_l0_matmul_plan c ≡ planned c (best_in_regime c baseline false false)
  unfolding choose_l0_matmul_plan
  chosen_of_clear e = rw e refl

  chosen_of_not_clear :
      is_clear (validate c) ≡ false → choose_l0_matmul_plan c ≡ no_plan (validate c)
  unfolding choose_l0_matmul_plan
  chosen_of_not_clear e = rw e refl

  planned_le :
      (w : ℕ) (o : Option (Candidate W))
      → AtMost c baseline false false w o
      → ((planned c o).feasible ≡ true) × ((planned c o).estimated_cost_cycles ≤ w)
  unfolding plan_of
  planned_le w none h = elim h [ ]
  planned_le w (some best) h = (refl, le_trans (refine_le best) h)

  -- If the configuration is valid and the baseline regime has a legal tile, the plan is feasible
  -- and its estimated cost is at most the cost of that tile.
  pub choose_l0_matmul_plan_le :
      (m n k : ℕ)
      → IsValid c
      → IsTile c baseline false false m n k
      → ((choose_l0_matmul_plan c).feasible ≡ true)
        × ((choose_l0_matmul_plan c).estimated_cost_cycles
            ≤ (candidate_at c baseline m n k).wall_cycles)
  choose_l0_matmul_plan_le m n k v tile = rw (chosen_of_clear ((validate_iff c).1 v)) (
      planned_le _ (best_in_regime c baseline false false)
        (best_in_regime-AtMost c baseline false false m n k (IsValid-IsPositive c v) tile))

  found_tile :
      (o : Option (Candidate W))
      → o ≡ best_in_regime c baseline false false
      → IsValid c
      → (planned c o).feasible ≡ true
      → (m : ℕ) × (n : ℕ) × (k : ℕ) × IsTile c baseline false false m n k
  found_tile none e v f = absurd (false≢true f)
  found_tile (some x) e v f =
      let found = best_in_regime-IsOfTile c baseline false false (IsValid-IsPositive c v) in
      let (m, n, k, _, tile) = subst (Holds (IsOfTile c baseline false false)) (sym e) found in
      (m, n, k, tile)

  no_tile_diagnostic :
      (o : Option (Candidate W))
      → (planned c o).feasible ≡ false
      → (planned c o).diagnostic ≡ Diagnostic.no_legal_tile
  unfolding plan_of
  no_tile_diagnostic none f = refl
  no_tile_diagnostic (some x) f = absurd (true_or_false refl f)

  -- An infeasible plan says why: either it carries the report of `validate`, or the configuration is
  -- valid, the report is that there is no legal tile, and the baseline regime indeed has none.
  pub choose-infeasible :
      (choose_l0_matmul_plan c).feasible ≡ false
      → ((is_clear (validate c) ≡ false) × ((choose_l0_matmul_plan c).diagnostic ≡ validate c))
        ⊎ (IsValid c
            × ((choose_l0_matmul_plan c).diagnostic ≡ Diagnostic.no_legal_tile)
            × ((m n k : ℕ) → ¬ IsTile c baseline false false m n k))
  choose-infeasible f = elim (Bool-cases (is_clear (validate c))) [
    | inl e ↦
        let v = (validate_iff c).0 e in
        let same = chosen_of_clear e in
        inr (
          v,
          ap (λ p. p.diagnostic) same ∙ no_tile_diagnostic _ (sym (ap (λ p. p.feasible) same) ∙ f),
          λ m n k tile. true_or_false (choose_l0_matmul_plan_le m n k v tile).0 f,
        )
    | inr e ↦ inl (e, ap (λ p. p.diagnostic) (chosen_of_not_clear e))
  ]

  -- A plan is feasible exactly if `validate` reports nothing and the baseline regime has a legal
  -- tile.
  pub choose-feasible_iff :
      ((choose_l0_matmul_plan c).feasible ≡ true)
      ↔ (IsValid c × ((m : ℕ) × (n : ℕ) × (k : ℕ) × IsTile c baseline false false m n k))
  choose-feasible_iff = (
    λ f. elim (Bool-cases (is_clear (validate c))) [
      | inl e ↦
          let v = (validate_iff c).0 e in
          (v, found_tile _ refl v (sym (ap (λ p. p.feasible) (chosen_of_clear e)) ∙ f))
      | inr e ↦ absurd (false≢true (sym (ap (λ p. p.feasible) (chosen_of_not_clear e)) ∙ f))
    ],
    λ (v, (m, n, k, tile)). (choose_l0_matmul_plan_le m n k v tile).0,
  )
