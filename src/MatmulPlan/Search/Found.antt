-- ===== src/MatmulPlan/Search/Found.antt =====
-- What `best_in_regime` of core/l0_matmul_plan.cpp returns is a legal tile.
use pto_fusebox.Base.{
  ℕ, suc, ◌/◌, ◌≤◌, ◌<◌, ◌≡◌, refl, sym, ◌∙◌, subst, inl, inr, Bool, true, false, not, ◌&&◌, ◌||◌,
  Option, none, some, List, [], ◌∷◌, arith, ltb, ◌==◌, if◌then◌else◌, Bool-cases, In, range_by,
  In-range_by,
}
use mathlib.Core.Option.{some-injective}
use native.Mathlib.Nat.{le-div_iff_mul-le}
use pto_fusebox.MatmulPlan.{Double, L0MatmulConfig}
use pto_fusebox.MatmulPlan.Align.{ceil_div, PhysicalExtents, physical_extents}
use pto_fusebox.MatmulPlan.Extents.{physical_extents-some, IsExtents-le}
use pto_fusebox.MatmulPlan.Costs.{Regime}
use pto_fusebox.MatmulPlan.KValues.{IsLegalK, capacity_of, In-legal_k_values}
use pto_fusebox.MatmulPlan.Search.{
  Candidate, better, keep, m_upper, n_upper, a_budget, b_budget, c_budget, is_accepted,
  candidate_at, scan_k, scan_n, scan_m, best_in_regime, skips_n, n_max,
}
use pto_fusebox.MatmulPlan.Search.Tile.{IsTile, k_values_at, skips_at, breaks_at, n_values_at}
use pto_fusebox.MatmulPlan.Search.Optimal.{IsPositive}

abbrev pub Holds {ℓ κ} : {A : Type ℓ} → (A → Type κ) → Option A → Type κ
Holds P none = Unit
Holds P (some a) = P a

guard-Holds {ℓ κ} :
    {A : Type ℓ} (P : A → Type κ) (skipped : Bool) (best next : Option A)
    → Holds P best
    → (skipped ≡ false → Holds P next)
    → Holds P (if skipped then best else next)
guard-Holds P true best next h g = h
guard-Holds P false best next h g = g refl

module _ {ℓ κ} {W : Type ℓ} ⦃d : Double W⦄ (c : L0MatmulConfig W) (r : Regime)
    (require_2d require_full_k : Bool) (P : Candidate W → Type κ) where
  keep-Holds :
      (new : Candidate W) (best : Option (Candidate W))
      → Holds P best
      → P new
      → Holds P (keep c r new best)
  unfolding keep
  keep-Holds new none h p = p
  keep-Holds new (some best) h p = elim (Bool-cases (better new best c)) [
    | inl e ↦ rw e p
    | inr e ↦ rw e h
  ]

  abbrev misses_k : ℕ → ℕ → ℕ → Bool
  misses_k m n k = (require_full_k && not (k == c.k)) || not (is_accepted c r m n k)

  abbrev OfK : ℕ → ℕ → ℕ → Type κ
  OfK m n k = misses_k m n k ≡ false → P (candidate_at c r m n k)

  scan_k-Holds :
      (m n : ℕ) (ks : List ℕ) (best : Option (Candidate W))
      → Holds P best
      → ((k : ℕ) → In k ks → OfK m n k)
      → Holds P (scan_k c r require_2d require_full_k m n ks best)
  unfolding scan_k
  scan_k-Holds m n [] best h p = h
  scan_k-Holds m n (x ∷ ks) best h p =
      scan_k-Holds m n ks _
        (guard-Holds P (misses_k m n x) best _ h
          (λ e. keep-Holds (candidate_at c r m n x) best h (p x (inl refl) e)))
        (λ k i. p k (inr i))

  abbrev OfN : ℕ → ℕ → Type κ
  OfN m n =
      skips_at c r require_2d require_full_k m n ≡ false
      → (k : ℕ) → In k (k_values_at c r require_2d require_full_k m n)
      → OfK m n k

  scan_n-Holds :
      (m : ℕ) (ns : List ℕ) (best : Option (Candidate W))
      → Holds P best
      → ((n : ℕ) → In n ns → OfN m n)
      → Holds P (scan_n c r require_2d require_full_k m ns best)
  unfolding scan_n
  scan_n-Holds m [] best h p = h
  scan_n-Holds m (x ∷ ns) best h p =
      scan_n-Holds m ns _
        (guard-Holds P (skips_at c r require_2d require_full_k m x) best _ h
          (λ e. scan_k-Holds m x _ best h (p x (inl refl) e)))
        (λ n i. p n (inr i))

  abbrev OfM : ℕ → Type κ
  OfM m =
      breaks_at c r require_2d require_full_k m ≡ false
      → (require_2d && ltb (ceil_div c.m m) 2) ≡ false
      → (n : ℕ) → In n (n_values_at c r require_2d require_full_k m)
      → OfN m n

  scan_m-Holds :
      (ms : List ℕ) (best : Option (Candidate W))
      → Holds P best
      → ((m : ℕ) → In m ms → OfM m)
      → Holds P (scan_m c r require_2d require_full_k ms best)
  unfolding scan_m
  scan_m-Holds [] best h p = h
  scan_m-Holds (x ∷ ms) best h p =
      guard-Holds P (breaks_at c r require_2d require_full_k x) best _ h (λ e.
        scan_m-Holds ms _
          (guard-Holds P (require_2d && ltb (ceil_div c.m x) 2) best _ h
            (λ f. scan_n-Holds x _ best h (p x (inl refl) e f)))
          (λ m i. p m (inr i)))

module _ {ℓ} {W : Type ℓ} ⦃d : Double W⦄ (c : L0MatmulConfig W) (r : Regime)
    (require_2d require_full_k : Bool) where
  -- The candidate of a legal tile.
  abbrev pub IsOfTile : Candidate W → Type ℓ
  IsOfTile a =
      (m : ℕ) × (n : ℕ) × (k : ℕ) × (a ≡ candidate_at c r m n k)
      × IsTile c r require_2d require_full_k m n k

  le-n_max :
      (minimum : Option PhysicalExtents) (n : ℕ)
      → 0 < n
      → n ≤ n_max c r require_2d require_full_k minimum
      → n ≤ n_upper c r
  le-n_max none n p h = absurd (omega arith)
  le-n_max (some e) n p h = omega arith

  not_skips_n :
      (n : ℕ) (o : Option PhysicalExtents)
      → skips_n c r require_2d require_full_k n o ≡ false
      → (e : PhysicalExtents) × (o ≡ some e)
        × (e.l0c_m ≤ c_budget c r / e.boxed_n)
        × (require_2d ≡ true → 2 ≤ ceil_div c.n n)
  not_skips_n n none h = cc
  not_skips_n n (some e) h = (e, refl, ground arith, ground arith)

  tile_at :
      (m n k : ℕ)
      → IsPositive c
      → In m (range_by (suc (m_upper c r)) c.min_m (m_upper c r) c.align_m)
      → (require_2d && ltb (ceil_div c.m m) 2) ≡ false
      → In n (n_values_at c r require_2d require_full_k m)
      → skips_at c r require_2d require_full_k m n ≡ false
      → In k (k_values_at c r require_2d require_full_k m n)
      → ((require_full_k && not (k == c.k)) || not (is_accepted c r m n k)) ≡ false
      → IsTile c r require_2d require_full_k m n k
  tile_at m n k p i wide j on kin offered =
      let (mlo, mhi, mstep) =
        (In-range_by (suc (m_upper c r)) c.min_m (m_upper c r) c.align_m m p.align_m_pos
            (omega arith)).0
          i in
      let top = n_max c r require_2d require_full_k (physical_extents m c.min_n c) in
      let (nlo, nhi, nstep) =
        (In-range_by (suc top) c.min_n top c.align_n n p.align_n_pos (omega arith)).0 j in
      let (e, f, small, two_n) = not_skips_n n (physical_extents m n c) on in
      let ext = physical_extents-some m n c e f in
      let (e', f', legal) =
        (In-legal_k_values m n c (a_budget c r) (b_budget c r) k p.align_k_pos).0 kin in
      let positive = IsExtents-le m n c e ext in
      let same : e' ≡ e = some-injective _ _ (sym f' ∙ f) in
      record {
        m_ge = mlo;
        m_le = mhi;
        m_step = mstep;
        n_ge = nlo;
        n_le = le-n_max (physical_extents m c.min_n c) n (omega (arith, p.min_n_pos)) nhi;
        n_step = nstep;
        extents = e;
        of_extents = ext;
        fits_c = (le-div_iff_mul-le (omega (arith, positive.1, positive.3))).0 small;
        legal = subst (λ z. IsLegalK c (capacity_of (a_budget c r) (b_budget c r) z) k) same legal;
        two = λ t. (ground (arith, t, wide), two_n t);
        full = λ t. ground (arith, t, offered);
        accepted = ground (arith, offered);
      }

  pub best_in_regime-IsOfTile :
      IsPositive c → Holds IsOfTile (best_in_regime c r require_2d require_full_k)
  unfolding best_in_regime
  best_in_regime-IsOfTile p =
      scan_m-Holds c r require_2d require_full_k IsOfTile _ none tt
        (λ m i e wide n j on k kin off. (m, n, k, refl, tile_at m n k p i wide j on kin off))
