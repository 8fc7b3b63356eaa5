-- ===== src/MatmulPlan/Align.antt =====
-- core/l0_matmul_plan.cpp: rounding to an alignment, and the physical extents of a tile.
use pto_fusebox.Base.{
  ℕ, ◌+◌, ◌-◌, ◌*◌, ◌/◌, ◌%◌, ◌≤◌, ◌<◌, ◌≡◌, sym, ap, ◌∙◌, subst, ◌↔◌, inl, inr, ◌||◌, Option, none,
  some, arith, ltb, ◌==◌, if◌then◌else◌, Option-cases, eq_or_ne, lt_or_ge, ◌^◌, ◌>>=◌, ==-eq-false,
}
use native.Mathlib.Nat.{mul-le-mul, le_refl, div-add-mod, mod-lt, mul-mod_left}
use pto_fusebox.MatmulPlan.{L0MatmulConfig}

unfoldable pub ceil_div : ℕ → ℕ → ℕ
ceil_div value divisor = (value + divisor - 1) / divisor

unfoldable pub align_up : ℕ → ℕ → ℕ
align_up value alignment = ceil_div value alignment * alignment

unfoldable pub align_down : ℕ → ℕ → ℕ
align_down value alignment = value / alignment * alignment

-- `std::numeric_limits<int64_t>::max()`.
abbrev pub int64_max : ℕ
int64_max = 2 ^ 63 - 1

unfoldable pub increment : ℕ → ℕ → ℕ
increment value alignment =
    let remainder = value % alignment in if remainder == 0 then 0 else alignment - remainder

unfoldable pub checked_align_up : ℕ → ℕ → Option ℕ
checked_align_up value alignment =
    if value == 0 || alignment == 0
    then none
    else (if ltb (int64_max - increment value alignment) value
        then none
        else some (value + increment value alignment))

pub record PhysicalExtents : Type 0 where
  pub boxed_m : ℕ
  pub boxed_n : ℕ
  pub l0c_m : ℕ

module _ {ℓ} {W : Type ℓ} where
  unfoldable pub physical_extents : ℕ → ℕ → L0MatmulConfig W → Option PhysicalExtents
  physical_extents m n c = do
    boxed_m ← checked_align_up m c.box_align_m
    boxed_n ← checked_align_up n c.box_align_n
    l0c_m ← checked_align_up boxed_m c.l0c_align_m
    some (record { boxed_m = boxed_m; boxed_n = boxed_n; l0c_m = l0c_m })

-- A multiple of `a` above another is above it by `a` at least.
multiple_gap : (a p q : ℕ) → p * a < q * a → p * a + a ≤ q * a
multiple_gap a p q h = elim (lt_or_ge p q) [
  | inl lt ↦ omega (arith, mul-le-mul {n₁ = p + 1} {n₂ = q} (omega arith) (le_refl a))
  | inr ge ↦ absurd (omega (arith, mul-le-mul ge (le_refl a)))
]

multiple_of : (a x : ℕ) → x % a ≡ 0 → x ≡ x / a * a
multiple_of a x h = omega (arith, div-add-mod x a)

-- What rounding up promises: the least multiple of the alignment that is not below the value.
pub record IsRoundedUp (value alignment x : ℕ) : Type 0 where
  pub multiple : x % alignment ≡ 0
  pub le_rounded : value ≤ x
  pub least : (y : ℕ) → y % alignment ≡ 0 → value ≤ y → x ≤ y

-- A multiple that is less than one alignment above the value is the least one.
pub rounded_of_close :
    (value alignment x : ℕ)
    → x % alignment ≡ 0
    → value ≤ x
    → x < value + alignment
    → IsRoundedUp value alignment x
rounded_of_close value alignment x e lo hi = record {
  multiple = e;
  le_rounded = lo;
  least = λ y d above. elim (lt_or_ge y x) [
    | inl h ↦ absurd (
        omega (
          arith,
          multiple_gap alignment (y / alignment) (x / alignment)
              (omega (arith, multiple_of alignment y d, multiple_of alignment x e)),
          multiple_of alignment y d,
          multiple_of alignment x e,
        ))
    | inr h ↦ h
  ];
}

add_increment :
    (value alignment : ℕ)
    → 0 < alignment
    → ((value + increment value alignment) % alignment ≡ 0)
      × (increment value alignment < alignment)
unfolding increment
add_increment value alignment h = elim (eq_or_ne (value % alignment) 0) [
  | inl e ↦ rw e (subst (λ z. z % alignment ≡ 0) {x = value} (omega arith) e, h)
  | inr e ↦ rw (==-eq-false _ _ e) (
    subst (λ z. z % alignment ≡ 0) (omega (arith, div-add-mod value alignment, mod-lt value h))
        (mul-mod_left (value / alignment + 1) alignment),
    omega arith,
  )
]

add_increment-IsRoundedUp :
    (value alignment : ℕ)
    → 0 < alignment
    → IsRoundedUp value alignment (value + increment value alignment)
add_increment-IsRoundedUp value alignment h =
    let (e, lt) = add_increment value alignment h in
    rounded_of_close value alignment _ e (omega arith) (omega arith)

pub checked_align_up-some :
    (value alignment x : ℕ)
    → checked_align_up value alignment ≡ some x
    → (0 < value) × (0 < alignment) × IsRoundedUp value alignment x × (x ≤ int64_max)
unfolding checked_align_up
checked_align_up-some value alignment x e =
    let positive : (0 < value) × (0 < alignment) = ground arith in
    let sum : x ≡ value + increment value alignment = ground arith in
    (
      positive.0,
      positive.1,
      subst (IsRoundedUp value alignment) (sym sum)
          (add_increment-IsRoundedUp value alignment positive.1),
      ground arith,
    )

-- The code gives up exactly when no multiple fits.
pub checked_align_up-none :
    (value alignment y : ℕ)
    → 0 < value
    → 0 < alignment
    → checked_align_up value alignment ≡ none
    → y % alignment ≡ 0
    → value ≤ y
    → int64_max < y
unfolding checked_align_up
checked_align_up-none value alignment y v a e d le =
    let large : int64_max < value + increment value alignment = ground arith in
    omega (arith, (add_increment-IsRoundedUp value alignment a).least y d le)

-- On positive arguments, `checked_align_up` returns the least multiple of the alignment that is not
-- below the value if that multiple is an `int64_t`, and nothing otherwise.
pub checked_align_up_iff :
    (value alignment x : ℕ)
    → 0 < value
    → 0 < alignment
    → (checked_align_up value alignment ≡ some x)
      ↔ (IsRoundedUp value alignment x × (x ≤ int64_max))
checked_align_up_iff value alignment x v a = (
  λ e. let s = checked_align_up-some value alignment x e in (s.2, s.3),
  λ (r, fits). elim (Option-cases (checked_align_up value alignment)) [
    | inl e ↦
        absurd
          (omega (arith, checked_align_up-none value alignment x v a e r.multiple r.le_rounded))
    | inr (y, e) ↦
        let s = checked_align_up-some value alignment y e in
        let same : y ≡ x =
          omega
            (arith, s.2.least x r.multiple r.le_rounded, r.least y s.2.multiple s.2.le_rounded) in
        e ∙ ap some same
  ],
)

-- A smaller value is rounded up whenever a larger one is, and not further.
pub checked_align_up_mono :
    (v w alignment x : ℕ)
    → 0 < v
    → v ≤ w
    → checked_align_up w alignment ≡ some x
    → (y : ℕ) × (checked_align_up v alignment ≡ some y) × (y ≤ x) × (v ≤ y)
checked_align_up_mono v w alignment x pos le e =
    let s = checked_align_up-some w alignment x e in
    let r = add_increment-IsRoundedUp v alignment s.1 in
    let below = r.least x s.2.multiple (omega (arith, s.2.le_rounded)) in
    (
      v + increment v alignment,
      (checked_align_up_iff v alignment _ pos s.1).1 (r, omega arith),
      below,
      omega arith,
    )
