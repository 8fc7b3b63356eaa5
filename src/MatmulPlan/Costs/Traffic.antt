-- ===== src/MatmulPlan/Costs/Traffic.antt =====
-- `traffic_bytes` of core/l0_matmul_plan.cpp against the least possible traffic.
use pto_fusebox.Base.{ℕ, ◌+◌, ◌*◌, ◌≤◌, ◌<◌, ◌≡◌, inl, inr, arith, Bool-cases}
use native.Mathlib.Nat.{le-div_iff_mul-le, mul-le-mul, le_refl, div-eq_of_lt-le}
use pto_fusebox.MatmulPlan.{Double, L0MatmulConfig}
use pto_fusebox.MatmulPlan.Align.{ceil_div}
use pto_fusebox.MatmulPlan.Costs.{Regime, traffic_bytes, output_traffic, holds_a, holds_b}

ceil_div_pos : (x y : ℕ) → 0 < x → 0 < y → 1 ≤ ceil_div x y
unfolding ceil_div
ceil_div_pos x y p q = (le-div_iff_mul-le q).1 (omega arith)

ceil_div_whole : (x y : ℕ) → 0 < x → x ≤ y → ceil_div x y ≡ 1
unfolding ceil_div
ceil_div_whole x y p h = div-eq_of_lt-le {k = 1} y (omega arith) (omega arith)

times_one : (x y : ℕ) → 1 ≤ y → x ≤ x * y
times_one x y h = omega (arith, mul-le-mul (le_refl x) h)

module _ {ℓ} {W : Type ℓ} ⦃d : Double W⦄ (c : L0MatmulConfig W) (r : Regime) where
  -- Each operand is read once, and the output is written once, and read if it is accumulated.
  abbrev pub least_traffic : ℕ
  least_traffic = c.bytes_a * c.m * c.k + c.bytes_b * c.k * c.n + output_traffic c c.output_target

  -- For a positive problem and a positive tile the traffic is never less than that of reading each
  -- operand once, and no more than that if one tile holds all of M and N.
  pub traffic_bytes_lem :
      (m n k : ℕ)
      → 0 < c.m
      → 0 < c.n
      → 0 < m
      → 0 < n
      → (least_traffic ≤ traffic_bytes m n k c r)
        × (c.m ≤ m → c.n ≤ n → traffic_bytes m n k c r ≡ least_traffic)
  unfolding traffic_bytes
  traffic_bytes_lem m n k pm pn qm qn =
      let am = times_one (c.bytes_b * c.k * c.n) (ceil_div c.m m) (ceil_div_pos c.m m pm qm) in
      let an = times_one (c.bytes_a * c.m * c.k) (ceil_div c.n n) (ceil_div_pos c.n n pn qn) in
      (
        elim (Bool-cases (holds_a m n k c r.stationarity)) [
          | inl e ↦ rw e (omega (arith, am))
          | inr e ↦ elim (Bool-cases (holds_b k c r.stationarity)) [
            | inl f ↦ rw (e, f) (omega (arith, an))
            | inr f ↦ rw (e, f) (omega (arith, am, an))
          ]
        ],
        λ hm hn.
            rw (ceil_div_whole c.m m pm hm, ceil_div_whole c.n n pn hn)
              (elim (Bool-cases (holds_a m n k c r.stationarity)) [
                | inl e ↦ rw e (omega arith)
                | inr e ↦ elim (Bool-cases (holds_b k c r.stationarity)) [
                  | inl f ↦ rw (e, f) (omega arith)
                  | inr f ↦ rw (e, f) (omega arith)
                ]
              ]),
      )
