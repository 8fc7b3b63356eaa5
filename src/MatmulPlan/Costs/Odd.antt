-- ===== src/MatmulPlan/Costs/Odd.antt =====
-- `odd_part` of core/l0_matmul_plan.cpp ends with the odd part of its argument.
use pto_fusebox.Base.{
  ℕ, zero, suc, ◌+◌, ◌*◌, ◌/◌, ◌%◌, ◌≤◌, ◌<◌, ◌≡◌, inl, inr, arith, eq_or_ne, ◌^◌, ==-eq-false,
}
use native.Mathlib.Nat.{pow-suc}
use pto_fusebox.MatmulPlan.Costs.{halve, odd_part}

-- An odd number times a power of two.
abbrev pub IsOddPart : ℕ → ℕ → Type 0
IsOddPart x value = (x % 2 ≡ 1) × ((j : ℕ) × (value ≡ x * 2 ^ j))

double_pow : (x j : ℕ) → x * 2 ^ (j + 1) ≡ 2 * (x * 2 ^ j)
double_pow x j = grind (arith, pow-suc 2 j)

halve-IsOddPart : (fuel value : ℕ) → 0 < value → value ≤ fuel → IsOddPart (halve fuel value) value
unfolding halve
halve-IsOddPart zero value p h = absurd (omega arith)
halve-IsOddPart (suc fuel) value p h = elim (eq_or_ne (value % 2) 0) [
  | inl e ↦
      let (odd, (j, f)) = halve-IsOddPart fuel (value / 2) (omega arith) (omega arith) in
      let double : value ≡ halve fuel (value / 2) * 2 ^ (j + 1) =
        omega (arith, f, double_pow (halve fuel (value / 2)) j) in
      rw e (odd, (j + 1, double))
  | inr ne ↦ rw (==-eq-false _ _ ne) (omega arith, (0, omega arith))
]

-- For a positive number the loop ends: the result is odd, and the number is a power of two times it.
pub odd_part-IsOddPart : (value : ℕ) → 0 < value → IsOddPart (odd_part value) value
unfolding odd_part
odd_part-IsOddPart value p = halve-IsOddPart value value p (omega arith)
