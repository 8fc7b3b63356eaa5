-- ===== src/MatmulPlan/Extents.antt =====
-- What `physical_extents` of core/l0_matmul_plan.cpp returns.
use pto_fusebox.Base.{ℕ, ◌≤◌, ◌<◌, ◌≡◌, refl, subst, some, arith, >>=-some}
use mathlib.Core.Option.{some-injective}
use pto_fusebox.MatmulPlan.{L0MatmulConfig}
use pto_fusebox.MatmulPlan.Align.{
  checked_align_up, checked_align_up-some, checked_align_up_mono, PhysicalExtents, physical_extents,
}

module _ {ℓ} {W : Type ℓ} where
  -- The three roundings that the extents come from.
  pub record IsExtents (m n : ℕ) (c : L0MatmulConfig W) (e : PhysicalExtents) : Type 0 where
    pub of_m : checked_align_up m c.box_align_m ≡ some e.boxed_m
    pub of_n : checked_align_up n c.box_align_n ≡ some e.boxed_n
    pub of_l0c_m : checked_align_up e.boxed_m c.l0c_align_m ≡ some e.l0c_m

  pub physical_extents-some :
      (m n : ℕ) (c : L0MatmulConfig W) (e : PhysicalExtents)
      → physical_extents m n c ≡ some e
      → IsExtents m n c e
  unfolding physical_extents
  physical_extents-some m n c e h =
      let (bm, f, h1) = >>=-some (checked_align_up m c.box_align_m) _ h in
      let (bn, g, h2) = >>=-some (checked_align_up n c.box_align_n) _ h1 in
      let (lm, i, h3) = >>=-some (checked_align_up bm c.l0c_align_m) _ h2 in
      subst (IsExtents m n c) (some-injective _ _ h3) (record { of_m = f; of_n = g; of_l0c_m = i })

  pub IsExtents-physical_extents :
      (m n : ℕ) (c : L0MatmulConfig W) (e : PhysicalExtents)
      → IsExtents m n c e
      → physical_extents m n c ≡ some e
  unfolding physical_extents
  IsExtents-physical_extents m n c e h = rw (h.of_m, h.of_n, h.of_l0c_m) refl

  -- A smaller tile has extents whenever a larger one does, and they are no larger.
  pub physical_extents_mono :
      (m n m' n' : ℕ) (c : L0MatmulConfig W) (e : PhysicalExtents)
      → 0 < m
      → 0 < n
      → m ≤ m'
      → n ≤ n'
      → IsExtents m' n' c e
      → (d : PhysicalExtents) × IsExtents m n c d
        × (d.boxed_m ≤ e.boxed_m)
        × (d.boxed_n ≤ e.boxed_n)
        × (d.l0c_m ≤ e.l0c_m)
        × (n ≤ d.boxed_n)
  physical_extents_mono m n m' n' c e pm pn lm ln h =
      let (x, ex, lx, gx) = checked_align_up_mono m m' c.box_align_m e.boxed_m pm lm h.of_m in
      let (y, ey, ly, gy) = checked_align_up_mono n n' c.box_align_n e.boxed_n pn ln h.of_n in
      let (z, ez, lz, gz) =
        checked_align_up_mono x e.boxed_m c.l0c_align_m e.l0c_m (omega arith) lx h.of_l0c_m in
      (
        record { boxed_m = x; boxed_n = y; l0c_m = z },
        record { of_m = ex; of_n = ey; of_l0c_m = ez },
        lx,
        ly,
        lz,
        gy,
      )

  -- The extents are positive and no smaller than the tile.
  pub IsExtents-le :
      (m n : ℕ) (c : L0MatmulConfig W) (e : PhysicalExtents)
      → IsExtents m n c e
      → (0 < m) × (0 < n) × (m ≤ e.boxed_m) × (n ≤ e.boxed_n) × (e.boxed_m ≤ e.l0c_m)
  IsExtents-le m n c e h =
      let (pm, _, um, _) = checked_align_up-some m c.box_align_m e.boxed_m h.of_m in
      let (pn, _, un, _) = checked_align_up-some n c.box_align_n e.boxed_n h.of_n in
      let (_, _, ul, _) = checked_align_up-some e.boxed_m c.l0c_align_m e.l0c_m h.of_l0c_m in
      (pm, pn, um.le_rounded, un.le_rounded, ul.le_rounded)
