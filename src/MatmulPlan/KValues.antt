-- ===== src/MatmulPlan/KValues.antt =====
-- core/l0_matmul_plan.cpp: the innermost contraction tiles that the buffers and the problem allow.
use pto_fusebox.Base.{
  ℕ, suc, ◌-◌, ◌/◌, ◌%◌, ◌≤◌, ◌<◌, min, max, ◌≡◌, refl, sym, ap, ◌∙◌, subst, ◌↔◌, inl, inr, Bool,
  true, false, not, ◌&&◌, ◌||◌, Option, none, some, List, [], ◌∷◌, arith, ltb, ◌==◌, if◌then◌else◌,
  Bool-cases, Option-cases, eq_or_ne, lt→ltb, ltb_of_zero, true_or_false, In, range_by, In-range_by,
}
use mathlib.Core.Option.{some-injective}
use native.Mathlib.Nat.{div-mul-le_self}
use pto_fusebox.MatmulPlan.{L0MatmulConfig}
use pto_fusebox.MatmulPlan.Align.{align_up, align_down, PhysicalExtents, physical_extents}

-- `if (!o) return {};`
abbrev pub for_some : {A : Type 0} → Option A → (A → List ℕ) → List ℕ
for_some none f = []
for_some (some a) f = f a

unfoldable pub capacity_of : ℕ → ℕ → PhysicalExtents → ℕ
capacity_of a_budget b_budget physical =
    min (a_budget / physical.boxed_m) (b_budget / physical.boxed_n)

module _ {ℓ} {W : Type ℓ} where
  abbrev pub peels : L0MatmulConfig W → Bool
  peels c = c.allow_k_boundary && c.k % c.align_k == 0

  -- A tile that does not divide K needs padding or a peeled boundary.
  abbrev pub leaves_rest : L0MatmulConfig W → ℕ → Bool
  leaves_rest c k = not c.allow_padding && not (peels c) && not (c.k % k == 0)

  abbrev pub problem_k : L0MatmulConfig W → ℕ
  problem_k c = if c.allow_padding then max (align_up c.k c.align_k) c.min_k else c.k

  abbrev pub refuses_forced : L0MatmulConfig W → ℕ → Bool
  refuses_forced c capacity =
      ltb c.forced_k c.min_k
      || not (c.forced_k % c.align_k == 0)
      || ltb capacity c.forced_k
      || (not c.allow_padding && ltb c.k c.forced_k)
      || leaves_rest c c.forced_k

  -- The body of the loop over k, with its `continue`.
  unfoldable pub push_legal : L0MatmulConfig W → List ℕ → List ℕ
  push_legal c [] = []
  push_legal c (k ∷ ks) = let rest = push_legal c ks in if leaves_rest c k then rest else k ∷ rest

  unfoldable pub k_values : L0MatmulConfig W → ℕ → List ℕ
  k_values c capacity =
      let upper = align_down (min capacity (problem_k c)) c.align_k in
      if ltb 0 c.forced_k
      then (if refuses_forced c capacity then [] else c.forced_k ∷ [])
      else push_legal c (range_by (suc upper) c.min_k upper c.align_k)

  unfoldable pub legal_k_values : ℕ → ℕ → L0MatmulConfig W → ℕ → ℕ → List ℕ
  legal_k_values m n c a_budget b_budget =
      for_some (physical_extents m n c)
        λ physical. k_values c (capacity_of a_budget b_budget physical)

  -- The tile is at least the minimum, fits between its operands' buffers and K, and leaves no rest
  -- that the code could not handle; a search ends at the last multiple of the alignment below both.
  pub record IsLegalK (c : L0MatmulConfig W) (capacity k : ℕ) : Type 0 where
    pub least : c.min_k ≤ k
    pub fits : k ≤ capacity
    pub unpadded : c.allow_padding ≡ false → k ≤ c.k
    pub exact : c.allow_padding ≡ false → peels c ≡ false → c.k % k ≡ 0
    pub forced : 0 < c.forced_k → (k ≡ c.forced_k) × (k % c.align_k ≡ 0)
    pub searched :
        c.forced_k ≡ 0
        → ((k - c.min_k) % c.align_k ≡ 0) × (k ≤ align_down (min capacity (problem_k c)) c.align_k)

  In-push_legal :
      (c : L0MatmulConfig W) (ks : List ℕ) (k : ℕ)
      → In k (push_legal c ks) ↔ (In k ks × (leaves_rest c k ≡ false))
  unfolding push_legal
  In-push_legal c [] k = (λ m. elim m [ ], λ (m, e). m)
  In-push_legal c (x ∷ xs) k = elim (Bool-cases (leaves_rest c x)) [
    | inl e ↦ rw e (
      λ m. let (i, f) = (In-push_legal c xs k).0 m in (inr i, f),
      λ (i, f). elim i [
        | inl same ↦ absurd (true_or_false e (ap (leaves_rest c) (sym same) ∙ f))
        | inr m ↦ (In-push_legal c xs k).1 (m, f)
      ],
    )
    | inr e ↦ rw e (
      elim [
        | inl same ↦ (inl same, rw same e)
        | inr m ↦ let (i, f) = (In-push_legal c xs k).0 m in (inr i, f)
      ],
      λ (i, f). elim i [ inl same ↦ inl same | inr m ↦ inr ((In-push_legal c xs k).1 (m, f)) ],
    )
  ]

  leaves_rest_iff :
      (c : L0MatmulConfig W) (k : ℕ)
      → (leaves_rest c k ≡ false) ↔ (c.allow_padding ≡ false → peels c ≡ false → c.k % k ≡ 0)
  leaves_rest_iff c k = ground arith

  le-align_down :
      (c : L0MatmulConfig W) (capacity k : ℕ)
      → k ≤ align_down (min capacity (problem_k c)) c.align_k
      → (k ≤ capacity) × (c.allow_padding ≡ false → k ≤ c.k)
  unfolding align_down
  le-align_down c capacity k h =
      let le = div-mul-le_self (min capacity (problem_k c)) c.align_k in
      (omega arith, λ e. ground (arith))

  In-searched :
      (c : L0MatmulConfig W) (capacity k : ℕ)
      → 0 < c.align_k
      → c.forced_k ≡ 0
      → In k (k_values c capacity) ↔ IsLegalK c capacity k
  unfolding k_values
  In-searched c capacity k a z =
      let upper = align_down (min capacity (problem_k c)) c.align_k in
      let (from, to) = In-push_legal c (range_by (suc upper) c.min_k upper c.align_k) k in
      let (into, back) = In-range_by (suc upper) c.min_k upper c.align_k k a (omega arith) in
      rw (ltb_of_zero _ z) (
        λ m.
            let (i, rest) = from m in
            let (lo, hi, e) = into i in
            let (fits, small) = le-align_down c capacity k hi in
            record {
              least = lo;
              fits = fits;
              unpadded = small;
              exact = (leaves_rest_iff c k).0 rest;
              forced = λ p. absurd (omega arith);
              searched = λ _. (e, hi);
            },
        λ h.
            let (e, hi) = h.searched z in
            to (back (h.least, hi, e), (leaves_rest_iff c k).1 h.exact),
      )

  accepted_forced :
      (c : L0MatmulConfig W) (capacity : ℕ)
      → 0 < c.forced_k
      → refuses_forced c capacity ≡ false
      → IsLegalK c capacity c.forced_k
  accepted_forced c capacity f e = record {
    least = ground arith;
    fits = ground arith;
    unpadded = λ p. ground arith;
    exact = (leaves_rest_iff c c.forced_k).0 (ground arith);
    forced = λ _. (refl, ground arith);
    searched = λ z. absurd (omega arith);
  }

  legal_forced :
      (c : L0MatmulConfig W) (capacity : ℕ)
      → 0 < c.forced_k
      → IsLegalK c capacity c.forced_k
      → refuses_forced c capacity ≡ false
  legal_forced c capacity f h =
      let rest = (leaves_rest_iff c c.forced_k).1 h.exact in
      let small : ltb capacity c.forced_k ≡ false = ground (arith, h.fits) in
      let large : ltb c.forced_k c.min_k ≡ false = ground (arith, h.least) in
      let aligned : (c.forced_k % c.align_k == 0) ≡ true = ground (arith, (h.forced f).1) in
      rw (large, aligned, small, rest) (ground (arith, h.unpadded))

  In-forced :
      (c : L0MatmulConfig W) (capacity k : ℕ)
      → 0 < c.forced_k
      → In k (k_values c capacity) ↔ IsLegalK c capacity k
  unfolding k_values
  In-forced c capacity k f = rw (lt→ltb 0 _ f) (elim (Bool-cases (refuses_forced c capacity)) [
    | inl e ↦ rw e (
      λ m. elim m [ ],
      λ h.
          true_or_false e
            (legal_forced c capacity f (subst (IsLegalK c capacity) (h.forced f).0 h)),
    )
    | inr e ↦ rw e (
      elim [
        | inl same ↦ subst (IsLegalK c capacity) (sym same) (accepted_forced c capacity f e)
        | inr m ↦ elim m [ ]
      ],
      λ h. inl (h.forced f).0,
    )
  ])

  -- The values of the search are the legal ones.
  pub In-k_values :
      (c : L0MatmulConfig W) (capacity k : ℕ)
      → 0 < c.align_k
      → In k (k_values c capacity) ↔ IsLegalK c capacity k
  In-k_values c capacity k a = elim (eq_or_ne c.forced_k 0) [
    | inl z ↦ In-searched c capacity k a z
    | inr f ↦ In-forced c capacity k (omega arith)
  ]

  -- With a positive alignment, `legal_k_values` holds a contraction tile exactly if the extents of
  -- the shape exist and the tile is legal for them: it is at least the minimum and within the
  -- capacity of the two buffers; without padding it is at most K, and without padding or a peeled
  -- boundary it divides K; a forced tile is the only one, and is a multiple of the alignment; with
  -- none forced, the tile is a whole number of alignments above the minimum and at most the largest
  -- multiple of the alignment within both the capacity and K, where padding rounds K up to the
  -- alignment and to the minimum at least.
  pub In-legal_k_values :
      (m n : ℕ) (c : L0MatmulConfig W) (a_budget b_budget k : ℕ)
      → 0 < c.align_k
      → In k (legal_k_values m n c a_budget b_budget) ↔ (
          (e : PhysicalExtents) × (physical_extents m n c ≡ some e)
          × IsLegalK c (capacity_of a_budget b_budget e) k)
  unfolding legal_k_values
  In-legal_k_values m n c a_budget b_budget k a = elim (Option-cases (physical_extents m n c)) [
    | inl none_e ↦ rw none_e (λ i. elim i [ ], λ (e, f, h). absurd (cc))
    | inr (e, f) ↦ rw f (
      λ i. (e, refl, (In-k_values c (capacity_of a_budget b_budget e) k a).0 i),
      λ (x, g, h). (In-k_values c (capacity_of a_budget b_budget e) k a).1 (
          subst (λ y. IsLegalK c (capacity_of a_budget b_budget y) k) (sym (some-injective _ _ g))
            h),
    )
  ]
