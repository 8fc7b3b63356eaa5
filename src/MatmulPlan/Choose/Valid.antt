-- ===== src/MatmulPlan/Choose/Valid.antt =====
-- What `validate` of core/l0_matmul_plan.cpp accepts.
use pto_fusebox.Base.{
  ℕ, ◌≤◌, ◌<◌, ◌≡◌, refl, ◌↔◌, Bool, true, false, not, ◌&&◌, ◌||◌, List, [], ◌∷◌, arith, ltb,
  true_or_false, All,
}
use pto_fusebox.MatmulPlan.{Double, L0MatmulConfig, Diagnostic}
use pto_fusebox.MatmulPlan.Choose.{
  validate, checks, first_failure, is_clear, any_zero, not_positive, is_negative,
}

first_failure-clear :
    (tests : List (Bool × Diagnostic))
    → All (λ t. is_clear t.1 ≡ false) tests
    → (is_clear (first_failure tests) ≡ true) ↔ All (λ t. t.0 ≡ false) tests
first_failure-clear [] h = (λ _. tt, λ _. refl)
first_failure-clear ((true, text) ∷ tests) (e, h) = (λ f. absurd (true_or_false f e), λ (f, _). cc)
first_failure-clear ((false, text) ∷ tests) (e, h) =
    (λ f. (refl, (first_failure-clear tests h).0 f), λ (_, g). (first_failure-clear tests h).1 g)

any_zero_iff : (xs : List ℕ) → (any_zero xs ≡ false) ↔ All (λ x. 0 < x) xs
any_zero_iff [] = (λ _. tt, λ _. refl)
any_zero_iff (x ∷ xs) = (
  λ h. (ground arith, (any_zero_iff xs).0 (ground arith)),
  λ (p, h). ground (arith, (any_zero_iff xs).1 h),
)

any_of_four :
    (p q r s : Bool)
    → ((p || q || r || s) ≡ false) ↔ ((p ≡ false) × (q ≡ false) × (r ≡ false) × (s ≡ false))
any_of_four p q r s = ground arith

below_minimum :
    (padding : Bool) (x least : ℕ)
    → ((not padding && ltb x least) ≡ false) ↔ (padding ≡ false → least ≤ x)
below_minimum padding x least = ground arith

module _ {ℓ} {W : Type ℓ} ⦃d : Double W⦄ where
  -- The configurations that can be planned for.
  pub record IsValid (c : L0MatmulConfig W) : Type 0 where
    pub shape : (0 < c.m) × (0 < c.n) × (0 < c.k)
    pub capacity : (0 < c.l0a_bytes) × (0 < c.l0b_bytes) × (0 < c.l0c_bytes)
    pub bytes : (0 < c.bytes_a) × (0 < c.bytes_b) × (0 < c.bytes_c)
    pub minimum : (0 < c.min_m) × (0 < c.min_n) × (0 < c.min_k)
    pub tile_alignment : (0 < c.align_m) × (0 < c.align_n) × (0 < c.align_k)
    pub physical_alignment : (0 < c.l0c_align_m) × (0 < c.box_align_m) × (0 < c.box_align_n)
    pub bandwidth :
        (not_positive c.bw_l0a ≡ false)
        × (not_positive c.bw_l0b ≡ false)
        × (not_positive c.bw_drain ≡ false)
        × (not_positive c.bw_l0c_l1 ≡ false)
    pub drain :
        (is_negative c.drain_fixed_cycles ≡ false)
        × (is_negative c.drain_row_cycles ≡ false)
        × (is_negative c.drain_penalty_cycles ≡ false)
        × (0 < c.drain_c0_bytes)
        × (0 < c.mad_fp32_passes)
    pub unpadded : c.allow_padding ≡ false → (c.min_m ≤ c.m) × (c.min_n ≤ c.n) × (c.min_k ≤ c.k)

  failing_texts : (c : L0MatmulConfig W) → All (λ t. is_clear t.1 ≡ false) (checks c)
  failing_texts c =
      (refl, (refl, (refl, (refl, (refl, (refl, (refl, (refl, (refl, (refl, tt))))))))))

  -- `validate` reports nothing exactly on the configurations that can be planned for.
  pub validate_iff : (c : L0MatmulConfig W) → (is_clear (validate c) ≡ true) ↔ IsValid c
  unfolding validate
  validate_iff c =
      let (from, to) = first_failure-clear (checks c) (failing_texts c) in
      (
        λ h.
            let (s, (ca, (by, (mi, (al, (ba, (dr, (m, (n, (k, _)))))))))) = from h in
            let (s1, (s2, (s3, _))) = (any_zero_iff (c.m ∷ c.n ∷ c.k ∷ [])).0 s in
            let (c1, (c2, (c3, _))) =
              (any_zero_iff (c.l0a_bytes ∷ c.l0b_bytes ∷ c.l0c_bytes ∷ [])).0 ca in
            let (b1, (b2, (b3, _))) =
              (any_zero_iff (c.bytes_a ∷ c.bytes_b ∷ c.bytes_c ∷ [])).0 by in
            let (m1, (m2, (m3, _))) = (any_zero_iff (c.min_m ∷ c.min_n ∷ c.min_k ∷ [])).0 mi in
            let (a1, (a2, (a3, (a4, (a5, (a6, _)))))) =
              (any_zero_iff (
                  c.align_m ∷ c.align_n ∷ c.align_k ∷ c.l0c_align_m ∷ c.box_align_m ∷ c.box_align_n
                  ∷ [])).0
                al in
            let (d1, d2, d3, d4) = (any_of_four _ _ _ _).0 dr in
            let (d5, (d6, _)) = (any_zero_iff (c.drain_c0_bytes ∷ c.mad_fp32_passes ∷ [])).0 d4 in
            record {
              shape = (s1, s2, s3);
              capacity = (c1, c2, c3);
              bytes = (b1, b2, b3);
              minimum = (m1, m2, m3);
              tile_alignment = (a1, a2, a3);
              physical_alignment = (a4, a5, a6);
              bandwidth = (any_of_four _ _ _ _).0 ba;
              drain = (d1, d2, d3, d5, d6);
              unpadded = λ e. (
                (below_minimum _ _ _).0 m e,
                (below_minimum _ _ _).0 n e,
                (below_minimum _ _ _).0 k e,
              );
            },
        λ v.
            let (s1, s2, s3) = v.shape in
            let (c1, c2, c3) = v.capacity in
            let (b1, b2, b3) = v.bytes in
            let (m1, m2, m3) = v.minimum in
            let (a1, a2, a3) = v.tile_alignment in
            let (a4, a5, a6) = v.physical_alignment in
            let (d1, d2, d3, d5, d6) = v.drain in
            let drain =
              (any_zero_iff (c.drain_c0_bytes ∷ c.mad_fp32_passes ∷ [])).1 (d5, (d6, tt)) in
            to (
              (any_zero_iff (c.m ∷ c.n ∷ c.k ∷ [])).1 (s1, (s2, (s3, tt))),
              (
                (any_zero_iff (c.l0a_bytes ∷ c.l0b_bytes ∷ c.l0c_bytes ∷ [])).1
                    (c1, (c2, (c3, tt))),
                (
                  (any_zero_iff (c.bytes_a ∷ c.bytes_b ∷ c.bytes_c ∷ [])).1 (b1, (b2, (b3, tt))),
                  (
                    (any_zero_iff (c.min_m ∷ c.min_n ∷ c.min_k ∷ [])).1 (m1, (m2, (m3, tt))),
                    (
                      (any_zero_iff (
                            c.align_m ∷ c.align_n ∷ c.align_k ∷ c.l0c_align_m ∷ c.box_align_m
                            ∷ c.box_align_n ∷ [])).1
                          (a1, (a2, (a3, (a4, (a5, (a6, tt)))))),
                      (
                        (any_of_four _ _ _ _).1 v.bandwidth,
                        (
                          (any_of_four _ _ _ _).1 (d1, d2, d3, drain),
                          (
                            (below_minimum _ _ _).1 (λ e. (v.unpadded e).0),
                            (
                              (below_minimum _ _ _).1 (λ e. (v.unpadded e).1),
                              ((below_minimum _ _ _).1 (λ e. (v.unpadded e).2), tt),
                            ),
                          ),
                        ),
                      ),
                    ),
                  ),
                ),
              ),
            ),
      )
