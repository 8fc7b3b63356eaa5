-- ===== src/MatmulPlan/Search/Optimal.antt =====
-- `best_in_regime` of core/l0_matmul_plan.cpp does not miss a legal tile.
use pto_fusebox.Base.{
  ℕ, suc, ◌*◌, ◌/◌, ◌≤◌, ◌<◌, min, ◌≡◌, refl, sym, subst, inr, Bool, true, false, not, ◌&&◌, none,
  arith, ltb, ◌==◌, In, In-range_by, range_by-IsAscending,
}
use native.Mathlib.Nat.{le-div_iff_mul-le, mul-le-mul, le_refl}
use pto_fusebox.MatmulPlan.{Double, L0MatmulConfig}
use pto_fusebox.MatmulPlan.Align.{ceil_div, physical_extents}
use pto_fusebox.MatmulPlan.Extents.{IsExtents-physical_extents, physical_extents_mono, IsExtents-le}
use pto_fusebox.MatmulPlan.Costs.{Regime}
use pto_fusebox.MatmulPlan.KValues.{In-legal_k_values}
use pto_fusebox.MatmulPlan.Search.{
  m_upper, n_upper, a_budget, b_budget, c_budget, candidate_at, best_in_regime, n_max,
}
use pto_fusebox.MatmulPlan.Search.Tile.{
  IsTile, AtMost, IsOffered, IsReached, breaks_at, n_values_at,
}
use pto_fusebox.MatmulPlan.Search.Scans.{scan_m-AtMost}

-- What `validate` makes sure of and the loops need.
pub record IsPositive {ℓ} {W : Type ℓ} (c : L0MatmulConfig W) : Type 0 where
  pub min_m_pos : 0 < c.min_m
  pub min_n_pos : 0 < c.min_n
  pub align_m_pos : 0 < c.align_m
  pub align_n_pos : 0 < c.align_n
  pub align_k_pos : 0 < c.align_k

full_test : (b : Bool) (k total : ℕ) → (b ≡ true → k ≡ total) → (b && not (k == total)) ≡ false
full_test b k total h = ground arith

two_test : (b : Bool) (x : ℕ) → (b ≡ true → 2 ≤ x) → (b && ltb x 2) ≡ false
two_test b x h = ground arith

module _ {ℓ} {W : Type ℓ} ⦃d : Double W⦄ (c : L0MatmulConfig W) (r : Regime)
    (require_2d require_full_k : Bool) where
  -- Each factor of a product that fits is within the quotient.
  quotient_fits : (x y budget : ℕ) → 0 < y → x * y ≤ budget → ltb (budget / y) x ≡ false
  quotient_fits x y budget p h =
      ground (arith, (le-div_iff_mul-le {k = y} {x = x} {y = budget} p).1 h)

  not_breaks :
      (m n k l : ℕ)
      → IsPositive c
      → IsTile c r require_2d require_full_k m n k
      → c.min_m ≤ l
      → l ≤ m
      → breaks_at c r require_2d require_full_k l ≡ false
  not_breaks m n k l p t lo le =
      let (e, x, bm, bn, lm, ge) =
        physical_extents_mono l c.min_n m n c t.extents (omega (arith, p.min_m_pos)) p.min_n_pos le
          t.n_ge t.of_extents in
      rw (IsExtents-physical_extents l c.min_n c e x) (
        quotient_fits e.l0c_m e.boxed_n (c_budget c r) (omega (arith, p.min_n_pos))
          (omega (arith, mul-le-mul lm bn, t.fits_c)))

  In-n_values :
      (m n k : ℕ)
      → IsPositive c
      → IsTile c r require_2d require_full_k m n k
      → In n (n_values_at c r require_2d require_full_k m)
  In-n_values m n k p t =
      let (e, x, bm, bn, lm, ge) =
        physical_extents_mono m c.min_n m n c t.extents (omega (arith, p.min_m_pos, t.m_ge))
          p.min_n_pos (omega arith) t.n_ge t.of_extents in
      let (pm, _, lem, _, lel) = IsExtents-le m c.min_n c e x in
      let pos : 0 < e.l0c_m = omega arith in
      let (_, _, _, ge', _) = IsExtents-le m n c t.extents t.of_extents in
      let fits : n ≤ c_budget c r / e.l0c_m =
        (le-div_iff_mul-le pos).1 (omega (arith, mul-le-mul ge' lm, t.fits_c)) in
      let minimum = physical_extents m c.min_n c in
      let top : n_max c r require_2d require_full_k minimum
          ≡ min (n_upper c r) (c_budget c r / e.l0c_m) =
        rw (IsExtents-physical_extents m c.min_n c e x) refl in
      (In-range_by _ c.min_n (n_max c r require_2d require_full_k minimum) c.align_n n p.align_n_pos
          (omega arith)).1
        (t.n_ge, subst (λ z. n ≤ z) (sym top) (omega (arith, fits, t.n_le)), t.n_step)

  tile_IsOffered :
      (m n k : ℕ)
      → IsTile c r require_2d require_full_k m n k
      → IsOffered c r require_2d require_full_k m n (candidate_at c r m n k).wall_cycles k
  tile_IsOffered m n k t = (rw (t.accepted, full_test require_full_k k c.k t.full) refl, le_refl _)

  tile_IsReached :
      (m n k : ℕ)
      → IsPositive c
      → IsTile c r require_2d require_full_k m n k
      → IsReached c r require_2d require_full_k m (candidate_at c r m n k).wall_cycles n
  tile_IsReached m n k p t =
      let found = IsExtents-physical_extents m n c t.extents t.of_extents in
      (
        rw (found, two_test require_2d (ceil_div c.n n) (λ e. (t.two e).1))
            (rw
              (quotient_fits t.extents.l0c_m t.extents.boxed_n (c_budget c r)
                (omega (arith, p.min_n_pos, t.n_ge, (IsExtents-le m n c t.extents t.of_extents).3))
                t.fits_c)
              refl),
        (
          k,
          (In-legal_k_values m n c (a_budget c r) (b_budget c r) k p.align_k_pos).1
              (t.extents, found, t.legal),
          tile_IsOffered m n k t,
        ),
      )

  -- The search ends with a result, which costs no more than any legal tile.
  pub best_in_regime-AtMost :
      (m n k : ℕ)
      → IsPositive c
      → IsTile c r require_2d require_full_k m n k
      → AtMost c r require_2d require_full_k
          (candidate_at c r m n k).wall_cycles
          (best_in_regime c r require_2d require_full_k)
  unfolding best_in_regime
  best_in_regime-AtMost m n k p t =
      let upper = m_upper c r in
      let rows = In-range_by (suc upper) c.min_m upper c.align_m in
      scan_m-AtMost c r require_2d require_full_k _ none _
        (range_by-IsAscending (suc upper) c.min_m upper c.align_m p.align_m_pos (omega arith))
        (inr (
          m,
          (rows m p.align_m_pos (omega arith)).1 (t.m_ge, t.m_le, t.m_step),
          (λ l i le. not_breaks m n k l p t ((rows l p.align_m_pos (omega arith)).0 i).0 le),
          (
            two_test require_2d (ceil_div c.m m) (λ e. (t.two e).0),
            (n, In-n_values m n k p t, tile_IsReached m n k p t),
          ),
        ))
