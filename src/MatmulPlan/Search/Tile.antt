-- ===== src/MatmulPlan/Search/Tile.antt =====
-- What `best_in_regime` of core/l0_matmul_plan.cpp searches: the tiles that are legal in a regime,
-- described apart from the order of the search.
use pto_fusebox.Base.{
  ℕ, ◌-◌, ◌*◌, ◌%◌, ◌≤◌, ◌≡◌, Bool, true, false, not, ◌&&◌, ◌||◌, Option, none, some, List, ltb,
  ◌==◌, In,
}
use pto_fusebox.MatmulPlan.{Double, L0MatmulConfig}
use pto_fusebox.MatmulPlan.Align.{ceil_div, PhysicalExtents, physical_extents}
use pto_fusebox.MatmulPlan.Extents.{IsExtents}
use pto_fusebox.MatmulPlan.Costs.{Regime}
use pto_fusebox.MatmulPlan.KValues.{IsLegalK, capacity_of, legal_k_values}
use pto_fusebox.MatmulPlan.Search.{
  Candidate, m_upper, n_upper, a_budget, b_budget, c_budget, is_accepted, candidate_at, skips_n,
  breaks_m, n_values,
}

module _ {ℓ} {W : Type ℓ} ⦃d : Double W⦄ (c : L0MatmulConfig W) (r : Regime)
    (require_2d require_full_k : Bool) where
  pub record IsTile (m n k : ℕ) : Type 0 where
    pub m_ge : c.min_m ≤ m
    pub m_le : m ≤ m_upper c r
    pub m_step : (m - c.min_m) % c.align_m ≡ 0
    pub n_ge : c.min_n ≤ n
    pub n_le : n ≤ n_upper c r
    pub n_step : (n - c.min_n) % c.align_n ≡ 0
    pub extents : PhysicalExtents
    pub of_extents : IsExtents m n c extents
    pub fits_c : extents.l0c_m * extents.boxed_n ≤ c_budget c r
    pub legal : IsLegalK c (capacity_of (a_budget c r) (b_budget c r) extents) k
    pub two : require_2d ≡ true → (2 ≤ ceil_div c.m m) × (2 ≤ ceil_div c.n n)
    pub full : require_full_k ≡ true → k ≡ c.k
    pub accepted : is_accepted c r m n k ≡ true

  -- There is a result, and it costs no more than `w`.
  abbrev pub AtMost : ℕ → Option (Candidate W) → Type 0
  AtMost w none = ⊥
  AtMost w (some a) = a.wall_cycles ≤ w

  -- The test of the loop over k lets the tile through, and its cost is at most `w`.
  abbrev pub IsOffered : ℕ → ℕ → ℕ → ℕ → Type 0
  IsOffered m n w k =
      (((require_full_k && not (k == c.k)) || not (is_accepted c r m n k)) ≡ false)
      × ((candidate_at c r m n k).wall_cycles ≤ w)

  abbrev pub k_values_at : ℕ → ℕ → List ℕ
  k_values_at m n = legal_k_values m n c (a_budget c r) (b_budget c r)

  abbrev pub skips_at : ℕ → ℕ → Bool
  skips_at m n = skips_n c r require_2d require_full_k n (physical_extents m n c)

  abbrev pub IsReached : ℕ → ℕ → ℕ → Type 0
  IsReached m w n = (skips_at m n ≡ false) × ((k : ℕ) × In k (k_values_at m n) × IsOffered m n w k)

  abbrev pub breaks_at : ℕ → Bool
  breaks_at m = breaks_m c r require_2d require_full_k (physical_extents m c.min_n c)

  abbrev pub n_values_at : ℕ → List ℕ
  n_values_at m = n_values c r require_2d require_full_k (physical_extents m c.min_n c)

  -- The loop over m gets to the row `m`, which has a tile of cost at most `w`.
  abbrev pub IsRow : ℕ → ℕ → Type 0
  IsRow w m =
      ((require_2d && ltb (ceil_div c.m m) 2) ≡ false)
      × ((n : ℕ) × In n (n_values_at m) × IsReached m w n)
