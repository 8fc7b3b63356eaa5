-- ===== src/MatmulPlan/Choose/Plan.antt =====
-- What the plan of `choose_l0_matmul_plan` (core/l0_matmul_plan.cpp) promises.
use pto_fusebox.Base.{
  ℕ, ◌+◌, ◌*◌, ◌/◌, ◌≤◌, ◌<◌, ◌≡◌, refl, sym, ap, ◌∙◌, subst, inl, inr, Bool, true, false, not,
  ◌&&◌, Option, none, some, List, [], ◌∷◌, arith, ltb, if◌then◌else◌, Bool-cases,
}
use mathlib.Core.Bool.{false≢true}
use native.Mathlib.Nat.{le-div_iff_mul-le, div-mul-le_self, mod-lt, div-add-mod, mul-pos}
use pto_fusebox.MatmulPlan.{Double, L0MatmulConfig, L0MatmulPlan, L0KLoopPlan, L0Stationarity}
use pto_fusebox.MatmulPlan.Align.{PhysicalExtents}
use pto_fusebox.MatmulPlan.Extents.{IsExtents, IsExtents-le}
use pto_fusebox.MatmulPlan.Costs.{Regime, operand_depths}
use pto_fusebox.MatmulPlan.KValues.{capacity_of}
use pto_fusebox.MatmulPlan.Search.{
  Candidate, plan_k_loop, candidate_at, a_budget, b_budget, best_in_regime,
}
use pto_fusebox.MatmulPlan.Search.Tile.{IsTile}
use pto_fusebox.MatmulPlan.Search.Optimal.{IsPositive}
use pto_fusebox.MatmulPlan.Search.Found.{Holds, IsOfTile, best_in_regime-IsOfTile}
use pto_fusebox.MatmulPlan.Choose.{
  validate, is_clear, baseline, is_output, cheaper, search_regime, try_regime, try_buffers,
  stationarities, try_all, is_tiled, refine, plan_of, planned, no_plan, choose_l0_matmul_plan,
}
use pto_fusebox.MatmulPlan.Choose.Valid.{IsValid, validate_iff}

-- The chunks of the loop over k cover K, and only the last is partial.
pub record Covers (total k : ℕ) (loop : L0KLoopPlan) : Type 0 where
  pub chunk_eq : loop.chunk ≡ k
  pub covered : loop.full_chunks * loop.chunk + loop.tail ≡ total
  pub tail_lt : loop.tail < loop.chunk

plan_k_loop-Covers : (total k : ℕ) → 0 < k → Covers total k (plan_k_loop total k)
unfolding plan_k_loop
plan_k_loop-Covers total k p = record {
  chunk_eq = refl;
  covered = omega (arith, div-mul-le_self total k);
  tail_lt = omega (arith, div-add-mod total k, mod-lt total p);
}

-- A product of three within a budget that is itself a quotient.
fits_quotient : (x y bytes budget : ℕ) → 0 < bytes → x * y ≤ budget / bytes → x * y * bytes ≤ budget
fits_quotient x y bytes budget p h = (le-div_iff_mul-le p).0 h

one_or_two : (b : Bool) → 0 < (if b then 2 else 1)
one_or_two b = ground arith

le_of_false : (b : Bool) (y z x : ℕ) → b ≡ false → x ≤ (if b then y else z) → x ≤ z
le_of_false b y z x e h = ground arith

Holds-map {ℓ κ κ'} :
    {A : Type ℓ} {P : A → Type κ} {Q : A → Type κ'}
    → ((x : A) → P x → Q x)
    → (o : Option A) → Holds P o
    → Holds Q o
Holds-map f none h = tt
Holds-map f (some x) h = f x h

module _ {ℓ} {W : Type ℓ} ⦃d : Double W⦄ (c : L0MatmulConfig W) where
  -- The tile of the plan fits the three buffers at the depths of the plan, in whole boxes, and
  -- stays within the problem unless padding is allowed.
  pub record Fits (p : L0MatmulPlan W) : Type 0 where
    pub extents : PhysicalExtents
    pub of_extents : IsExtents p.m p.n c extents
    pub fits_a : extents.boxed_m * p.k * (c.bytes_a * p.buffer_depth_a) ≤ c.l0a_bytes
    pub fits_b : extents.boxed_n * p.k * (c.bytes_b * p.buffer_depth_b) ≤ c.l0b_bytes
    pub fits_c : extents.l0c_m * extents.boxed_n * (c.bytes_c * p.buffer_depth_c) ≤ c.l0c_bytes
    pub least : (c.min_m ≤ p.m) × (c.min_n ≤ p.n) × (c.min_k ≤ p.k)
    pub unpadded : c.allow_padding ≡ false → (p.m ≤ c.m) × (p.n ≤ c.n) × (p.k ≤ c.k)
    pub loop : Covers c.k p.k p.k_loop

  abbrev IsPlanned : Candidate W → Type ℓ
  IsPlanned x = (r : Regime) × (s : Bool) × (t : Bool) × IsOfTile c r s t x

  pub IsValid-IsPositive : IsValid c → IsPositive c
  IsValid-IsPositive v = record {
    min_m_pos = v.minimum.0;
    min_n_pos = v.minimum.1;
    align_m_pos = v.tile_alignment.0;
    align_n_pos = v.tile_alignment.1;
    align_k_pos = v.tile_alignment.2;
  }

  depths_pos : (s : L0Stationarity) → (0 < (operand_depths s).0) × (0 < (operand_depths s).1)
  depths_pos s = ground arith

  tile-Fits :
      (r : Regime) (s t : Bool) (m n k : ℕ)
      → IsValid c
      → IsTile c r s t m n k
      → Fits (plan_of c (candidate_at c r m n k))
  unfolding plan_of candidate_at capacity_of
  tile-Fits r s t m n k v tile =
      let e = tile.extents in
      let (_, pn, um, un, ul) = IsExtents-le m n c e tile.of_extents in
      let (da, db) = depths_pos r.stationarity in
      let ka : k * e.boxed_m ≤ a_budget c r =
        (le-div_iff_mul-le (omega arith)).0 (omega (arith, tile.legal.fits)) in
      let kb : k * e.boxed_n ≤ b_budget c r =
        (le-div_iff_mul-le (omega arith)).0 (omega (arith, tile.legal.fits)) in
      record {
        extents = e;
        of_extents = tile.of_extents;
        fits_a = fits_quotient e.boxed_m k _ _ (mul-pos v.bytes.0 da) (omega arith);
        fits_b = fits_quotient e.boxed_n k _ _ (mul-pos v.bytes.1 db) (omega arith);
        fits_c =
            fits_quotient e.l0c_m e.boxed_n _ _ (mul-pos v.bytes.2 (one_or_two r.double_buffer_c))
              tile.fits_c;
        least = (tile.m_ge, tile.n_ge, tile.legal.least);
        unpadded = λ f. (
          le_of_false c.allow_padding _ c.m m f tile.m_le,
          le_of_false c.allow_padding _ c.n n f tile.n_le,
          tile.legal.unpadded f,
        );
        loop = plan_k_loop-Covers c.k k (omega (arith, v.minimum.2, tile.legal.least));
      }

  cheaper-IsPlanned :
      (new : Option (Candidate W)) (best : Candidate W)
      → Holds IsPlanned new
      → IsPlanned best
      → IsPlanned (cheaper new best)
  cheaper-IsPlanned none best h p = p
  cheaper-IsPlanned (some new) best h p = elim (Bool-cases (ltb new.wall_cycles best.wall_cycles)) [
    | inl e ↦ rw e h
    | inr e ↦ rw e p
  ]

  search-IsPlanned :
      (s : Bool) (t : Bool) (r : Regime) → IsPositive c → Holds IsPlanned (best_in_regime c r s t)
  search-IsPlanned s t r p =
      Holds-map (λ x h. (r, s, t, h)) (best_in_regime c r s t) (best_in_regime-IsOfTile c r s t p)

  try_regime-IsPlanned :
      (s : L0Stationarity) (dbc : Bool) (best : Candidate W)
      → IsPositive c
      → IsPlanned best
      → IsPlanned (try_regime c s dbc best)
  unfolding try_regime
  try_regime-IsPlanned s dbc best p h = elim (Bool-cases (is_output s && not dbc)) [
    | inl e ↦ rw e h
    | inr e ↦ rw e (cheaper-IsPlanned (search_regime c s dbc) best (search-IsPlanned _ _ _ p) h)
  ]

  try_buffers-IsPlanned :
      (s : L0Stationarity) (best : Candidate W)
      → IsPositive c
      → IsPlanned best
      → IsPlanned (try_buffers c s best)
  unfolding try_buffers
  try_buffers-IsPlanned s best p h =
      let single = try_regime-IsPlanned s false best p h in
      elim (Bool-cases c.allow_double_buffer_c) [
        | inl e ↦ simp e (try_regime-IsPlanned s true (try_regime c s false best) p single)
        | inr e ↦ simp e single
      ]

  try_all-IsPlanned :
      (ss : List L0Stationarity) (best : Candidate W)
      → IsPositive c
      → IsPlanned best
      → IsPlanned (try_all c ss best)
  unfolding try_all
  try_all-IsPlanned [] best p h = h
  try_all-IsPlanned (s ∷ ss) best p h = try_all-IsPlanned ss _ p (try_buffers-IsPlanned s best p h)

  refine-IsPlanned :
      (best : Candidate W) → IsPositive c → IsPlanned best → IsPlanned (refine c best)
  unfolding refine
  refine-IsPlanned best p h = elim (Bool-cases (is_tiled c best)) [
    | inl e ↦ simp e (try_all-IsPlanned (stationarities c) best p h)
    | inr e ↦ rw e h
  ]

  planned-Fits :
      (o : Option (Candidate W))
      → IsValid c
      → Holds IsPlanned o
      → (planned c o).feasible ≡ true
      → Fits (planned c o)
  unfolding plan_of
  planned-Fits none v h f = absurd (false≢true f)
  planned-Fits (some best) v h f =
      let (r, s, t, (m, n, k, e, tile)) = refine-IsPlanned best (IsValid-IsPositive v) h in
      subst (λ x. Fits (plan_of c x)) (sym e) (tile-Fits r s t m n k v tile)

  -- The tile of a feasible plan, in whole boxes and times the depths that the plan gives the buffers,
  -- fits the L0A, L0B and L0C buffers; it is at least the minimum tile, at most the problem unless
  -- padding is allowed, and the full chunks and the tail of its loop over k add up to K.
  pub choose_l0_matmul_plan-Fits :
      (choose_l0_matmul_plan c).feasible ≡ true → Fits (choose_l0_matmul_plan c)
  unfolding choose_l0_matmul_plan
  choose_l0_matmul_plan-Fits f = elim (Bool-cases (is_clear (validate c))) [
    | inl e ↦
        let v = (validate_iff c).0 e in
        let searched = search-IsPlanned false false baseline (IsValid-IsPositive v) in
        let same : choose_l0_matmul_plan c ≡ planned c (best_in_regime c baseline false false) =
          rw e refl in
        subst Fits (sym same) (planned-Fits _ v searched (sym (ap (λ p. p.feasible) same) ∙ f))
    | inr e ↦
        let same : choose_l0_matmul_plan c ≡ no_plan (validate c) = rw e refl in
        absurd (false≢true (sym (ap (λ p. p.feasible) same) ∙ f))
  ]
