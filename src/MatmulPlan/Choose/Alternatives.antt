-- ===== src/MatmulPlan/Choose/Alternatives.antt =====
-- The other regimes that `choose_l0_matmul_plan` (core/l0_matmul_plan.cpp) tries when the baseline
-- plan is tiled.
use pto_fusebox.Base.{ℕ, ◌≡◌, Bool, true, false, not, ◌&&◌, ◌||◌, In}
use pto_fusebox.MatmulPlan.{Double, L0MatmulConfig, L0Stationarity}
use pto_fusebox.MatmulPlan.Search.Tile.{IsTile}
use pto_fusebox.MatmulPlan.Choose.{regime_of, is_output, stationarities}

module _ {ℓ} {W : Type ℓ} ⦃d : Double W⦄ (c : L0MatmulConfig W) where
  -- A legal tile of a regime that is allowed besides the baseline.
  pub record IsAlternative (s : L0Stationarity) (dbc : Bool) (m n k : ℕ) : Type 0 where
    pub allowed : In s (stationarities c)
    pub buffered : dbc ≡ true → c.allow_double_buffer_c ≡ true
    pub not_baseline : (is_output s && not dbc) ≡ false
    pub tile : IsTile c (regime_of s dbc) dbc (not (is_output s) || dbc) m n k

  -- The plan is one tile of the whole problem.
  abbrev pub IsWhole : ℕ → ℕ → ℕ → Type 0
  IsWhole m n k = (m ≡ c.m) × (n ≡ c.n) × (k ≡ c.k)
