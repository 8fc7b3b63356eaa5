-- ===== src/Dag/Merge/Scan.antt =====
-- core/dag.cpp, DAG::merge_creates_cycle: the loops over the set bits.
use Prim.Native.Nat.{bit_and}
use pto_fusebox.Base.{
  ℕ, zero, suc, ◌+◌, ◌-◌, ◌*◌, ◌/◌, ◌%◌, ◌^◌, ◌≤◌, ◌<◌, ◌≡◌, ◌≢◌, Bool, true, false, ◌||◌, ◌&&◌,
  not, Table, ltb, ◌==◌, if◌then◌else◌, arith, eq_or_ne, inl, inr, Bool-cases, refl, ap, sym, ◌∙◌,
  subst, ==-eq-false,
}
use pto_fusebox.Base.Bits.{test_bit, test_bit-zero, test_bit-bit_and, bit_and-lt_right}
use pto_fusebox.Base.Lowest.{countr_zero, countr_zero_lem, countr_zero_least, test_bit-clear_lowest}
use pto_fusebox.Dag.{Dag}
use pto_fusebox.Dag.Rows.Cells.{bit}
use pto_fusebox.Dag.Merge.{reaches_back, scan_bits, external, scan_words}
use pto_fusebox.Dag.Merge.Masks.{set_bit, IsMask, test_bit-external}

bit_ne : (a b i : ℕ) → test_bit a i ≡ true → test_bit b i ≡ false → a ≢ b
bit_ne a b i p q e = cc (ap (λ t. test_bit t i) e, p, q)

module _ (d : Dag) (mask : Table ℕ) (m : IsMask mask) where
  -- An operation that reaches back does so at some operation of the merged set.
  pub reaches_back_sound :
      (x count : ℕ)
      → reaches_back d mask x count ≡ true
      → (v : ℕ) × (v / 64 < count)
        × (bit d.words_per_row d.reachable x v ≡ true)
        × (set_bit mask v ≡ true)
  unfolding reaches_back
  reaches_back_sound x zero h = cc
  reaches_back_sound x (suc w) h = elim (Bool-cases (reaches_back d mask x w)) [
    | inl e ↦
        let (v, inside, reached, member) = reaches_back_sound x w e in
        (v, omega arith, reached, member)
    | inr e ↦
        let row = d.reachable (x * d.words_per_row + w) in
        let both = bit_and row (mask w) in
        let ne : both ≢ 0 = ground arith in
        let (set, inside) = countr_zero_lem 64 both (bit_and-lt_right 64 row (mask w) (m w)) ne in
        let i = countr_zero 64 both in
        let quotient : (w * 64 + i) / 64 ≡ w = omega arith in
        let remainder : (w * 64 + i) % 64 ≡ i = omega arith in
        let parts = test_bit-bit_and row (mask w) i in
        (
          w * 64 + i,
          omega arith,
          rw (quotient, remainder) (ground arith),
          rw (quotient, remainder) (ground arith),
        )
  ]

  pub reaches_back_complete :
      (x count v : ℕ)
      → v / 64 < count
      → bit d.words_per_row d.reachable x v ≡ true
      → set_bit mask v ≡ true
      → reaches_back d mask x count ≡ true
  unfolding reaches_back
  reaches_back_complete x zero v h p q = absurd (omega arith)
  reaches_back_complete x (suc w) v h p q = elim (eq_or_ne (v / 64) w) [
    | inl e ↦
        let row = d.reachable (x * d.words_per_row + v / 64) in
        let ne =
          bit_ne (bit_and row (mask (v / 64))) 0 (v % 64)
            (ground (arith, test_bit-bit_and row (mask (v / 64)) (v % 64)))
            (test_bit-zero (v % 64)) in
        rw (← e) (ground arith)
    | inr e ↦ ground (arith, reaches_back_complete x w v (omega arith) p q)
  ]

  abbrev pub hit_at : ℕ → Bool
  hit_at x = ltb x d.num_ops && reaches_back d mask x d.words_per_row

  external-lt : (out : Table ℕ) (w : ℕ) → external out mask w < 2 ^ 64
  unfolding external
  external-lt out w = bit_and-lt_right 64 (out w) (2 ^ 64 - 1 - mask w) (omega arith)

  -- The loop over a word finds an operation that reaches back, if a bit stands for one.
  scan_bits_sound :
      (w fuel ext : ℕ)
      → ext < 2 ^ 64
      → scan_bits d mask w fuel ext ≡ true
      → (i : ℕ) × (i < 64) × (test_bit ext i ≡ true) × (hit_at (w * 64 + i) ≡ true)
  unfolding scan_bits
  scan_bits_sound w zero ext h e = cc
  scan_bits_sound w (suc fuel) ext h e = elim (eq_or_ne ext 0) [
    | inl z ↦ cc (e, ap (λ t. t == 0) z)
    | inr ne ↦
        let (set, inside) = countr_zero_lem 64 ext h ne in
        elim (Bool-cases (hit_at (w * 64 + countr_zero 64 ext))) [
          | inl hit ↦ (countr_zero 64 ext, inside, set, hit)
          | inr miss ↦
              let rest = bit_and ext (ext - 1) in
              let (i, p, b, hit) =
                scan_bits_sound w fuel rest (bit_and-lt_right 64 ext (ext - 1) (omega arith))
                  (ground arith) in
              (i, p, ground (arith, test_bit-clear_lowest 64 ext i h ne), hit)
        ]
  ]

  scan_hit :
      (w fuel ext : ℕ)
      → ext ≢ 0
      → hit_at (w * 64 + countr_zero 64 ext) ≡ true
      → scan_bits d mask w (suc fuel) ext ≡ true
  unfolding scan_bits
  scan_hit w fuel ext ne hit = rw (==-eq-false ext 0 ne, hit)

  scan_next :
      (w fuel ext : ℕ)
      → ext ≢ 0
      → scan_bits d mask w fuel (bit_and ext (ext - 1)) ≡ true
      → scan_bits d mask w (suc fuel) ext ≡ true
  unfolding scan_bits
  scan_next w fuel ext ne found = rw (==-eq-false ext 0 ne, found) (same (hit_at _))
    where
      same : (b : Bool) → (if b then true else true) ≡ true
      same true = refl
      same false = refl

  scan_bits_complete :
      (w fuel done ext i : ℕ)
      → ext < 2 ^ 64
      → fuel + done ≡ 64
      → ((j : ℕ) → test_bit ext j ≡ true → done ≤ j)
      → test_bit ext i ≡ true
      → i < 64
      → hit_at (w * 64 + i) ≡ true
      → scan_bits d mask w fuel ext ≡ true
  scan_bits_complete w zero done ext i h f low b p hit = absurd (omega (arith, low i b))
  scan_bits_complete w (suc fuel) done ext i h f low b p hit =
      let ne = bit_ne ext 0 i b (test_bit-zero i) in
      let (set, inside) = countr_zero_lem 64 ext h ne in
      let cleared = λ (j : ℕ). test_bit-clear_lowest 64 ext j h ne in
      elim (eq_or_ne i (countr_zero 64 ext)) [
        | inl e ↦ scan_hit w fuel ext ne (subst (λ t. hit_at (w * 64 + t) ≡ true) e hit)
        | inr other ↦ scan_next w fuel ext ne (
            scan_bits_complete w fuel (suc done) (bit_and ext (ext - 1)) i
              (bit_and-lt_right 64 ext (ext - 1) (omega arith)) (omega arith)
              (λ j q. above (cleared j) q (countr_zero_least 64 ext j h) (low _ set))
              (rw (cleared i, b, ==-eq-false (countr_zero 64 ext) i (λ e. other (sym e)))) p hit)
      ]
    where
      above :
          {a b : Bool} {c j low : ℕ}
          → a ≡ (b && not (c == j))
          → a ≡ true
          → (b ≡ true → c ≤ j)
          → low ≤ c
          → suc low ≤ j
      above p q r s = ground arith

  scan_words-zero : (out : Table ℕ) → scan_words d mask out zero ≡ false
  unfolding scan_words
  scan_words-zero out = refl

  or_true : (b : Bool) → (b || true) ≡ true
  or_true true = refl
  or_true false = refl

  scan_words-suc :
      (out : Table ℕ) (w : ℕ)
      → scan_words d mask out (suc w)
        ≡ (scan_words d mask out w || scan_bits d mask w 64 (external out mask w))
  unfolding scan_words
  scan_words-suc out w = refl

  -- The loop over the words finds an external operation that reaches back, if there is one.
  pub scan_words_sound :
      (out : Table ℕ) (count : ℕ)
      → scan_words d mask out count ≡ true
      → (x : ℕ) × (x / 64 < count)
        × (set_bit out x ≡ true)
        × (set_bit mask x ≡ false)
        × (hit_at x ≡ true)
  scan_words_sound out zero h = cc (scan_words-zero out)
  scan_words_sound out (suc w) h = elim (Bool-cases (scan_words d mask out w)) [
    | inl e ↦
        let (x, inside, reached, new, hit) = scan_words_sound out w e in
        (x, omega arith, reached, new, hit)
    | inr e ↦
        let (i, p, b, hit) =
          scan_bits_sound w 64 (external out mask w) (external-lt out w)
            (rw e at (sym (scan_words-suc out w) ∙ h)) in
        let quotient : (w * 64 + i) / 64 ≡ w = omega arith in
        let remainder : (w * 64 + i) % 64 ≡ i = omega arith in
        let parts = test_bit-external out mask w i m p in
        (
          w * 64 + i,
          omega arith,
          rw (quotient, remainder) (ground arith),
          rw (quotient, remainder) (ground arith),
          hit,
        )
  ]

  pub scan_words_complete :
      (out : Table ℕ) (count x : ℕ)
      → x / 64 < count
      → set_bit out x ≡ true
      → set_bit mask x ≡ false
      → hit_at x ≡ true
      → scan_words d mask out count ≡ true
  scan_words_complete out zero x h p q hit = absurd (omega arith)
  scan_words_complete out (suc w) x h p q hit = elim (eq_or_ne (x / 64) w) [
    | inl e ↦
        let cell : x / 64 * 64 + x % 64 ≡ x = omega arith in
        let found =
          scan_bits_complete (x / 64) 64 0 (external out mask (x / 64)) (x % 64)
            (external-lt out (x / 64)) (omega arith) (λ j b. omega arith)
            (ground (arith, test_bit-external out mask (x / 64) (x % 64) m (omega arith)))
            (omega arith) (rw cell hit) in
        rw (← e, scan_words-suc out (x / 64), found) (or_true _)
    | inr e ↦ rw (scan_words-suc out w, scan_words_complete out w x (omega arith) p q hit)
  ]
