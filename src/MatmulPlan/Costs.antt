-- ===== src/MatmulPlan/Costs.antt =====
-- core/l0_matmul_plan.cpp: the cost functions of a tile shape. A conversion of an `int64_t` to a
-- `double` is `of_int`. The divisors of the integer divisions are positive in a configuration that
-- `validate` accepts.
pub mod Odd
pub mod Traffic
use pto_fusebox.Base.{
  ℕ, zero, suc, ◌+◌, ◌-◌, ◌*◌, ◌/◌, ◌%◌, ◌≤◌, ◌<◌, min, max, ◌≡◌, refl, sym, ap, ◌∙◌, subst,
  fun_ext, ◌≢◌, ◌↔◌, ◌⊎◌, inl, inr, Bool, true, false, not, ◌&&◌, ◌||◌, Option, none, some, List,
  [], ◌∷◌, ◌++◌, map, arith, ltb, leb, ◌==◌, if◌then◌else◌, Bool-cases, Option-cases, eq_or_ne,
  lt_or_ge, ◌^◌, ◌>>=◌, >>=-some, ltb→lt, lt→ltb, leb→le, ==→eq, ==_refl, ==-eq-false, length,
  get_elem?, get_or, length-append, List-cases, All, elem, elem-append, any, any_find, any_intro,
  any_cong, Table, put,
}
use pto_fusebox.MatmulPlan.{
  Double, L0MatmulConfig, L0Stationarity, output, a, b, L0OutputTarget, acc, gm, l1,
}
use pto_fusebox.MatmulPlan.Align.{ceil_div}

pub record Regime : Type 0 where
  pub stationarity : L0Stationarity
  pub double_buffer_c : Bool

abbrev pub operand_depths : L0Stationarity → ℕ × ℕ
operand_depths L0Stationarity.a = (1, 2)
operand_depths L0Stationarity.b = (2, 1)
operand_depths L0Stationarity.output = (2, 2)

-- `value & 1` is the remainder by 2 and `value >>= 1` the quotient; `value` halvings suffice.
unfoldable pub halve : ℕ → ℕ → ℕ
halve zero value = value
halve (suc fuel) value = let rest = halve fuel (value / 2) in if value % 2 == 0 then rest else value

unfoldable pub odd_part : ℕ → ℕ
odd_part value = halve value value

module _ {ℓ} {W : Type ℓ} ⦃d : Double W⦄ where
  open d use {of_int, infinity, add, times, over, larger, le}

  abbrev pub held_a_cycles : ℕ → L0MatmulConfig W → W
  held_a_cycles m c =
      add (over (of_int (c.bytes_a * c.m * c.k)) c.bw_l0a)
        (over (of_int (c.bytes_b * c.k * c.n * ceil_div c.m m)) c.bw_l0b)

  abbrev pub held_b_cycles : ℕ → L0MatmulConfig W → W
  held_b_cycles n c =
      add (over (of_int (c.bytes_a * c.m * c.k * ceil_div c.n n)) c.bw_l0a)
        (over (of_int (c.bytes_b * c.k * c.n)) c.bw_l0b)

  unfoldable pub output_stationary_holds_a : ℕ → ℕ → L0MatmulConfig W → Bool
  output_stationary_holds_a m n c = le (held_a_cycles m c) (held_b_cycles n c)

  unfoldable pub load_cycles : ℕ → ℕ → ℕ → L0MatmulConfig W → Regime → W
  load_cycles m n k c r = elim r.stationarity [
    | L0Stationarity.a ↦ held_a_cycles m c
    | L0Stationarity.b ↦ held_b_cycles n c
    | L0Stationarity.output ↦
        if leb c.k k
        then (if output_stationary_holds_a m n c then held_a_cycles m c else held_b_cycles n c)
        else add (over (of_int (c.bytes_a * c.m * c.k * ceil_div c.n n)) c.bw_l0a)
            (over (of_int (c.bytes_b * c.k * c.n * ceil_div c.m m)) c.bw_l0b)
  ]

  abbrev pub fractal_depth : L0MatmulConfig W → ℕ
  fractal_depth c = max 1 (c.mad_k_fractal_bytes / c.bytes_a)

  abbrev pub cycles_per_repeat : L0MatmulConfig W → ℕ
  cycles_per_repeat c = if c.bytes_a == 4 then max 1 c.mad_fp32_passes else max 1 (c.bytes_a / 2)

  unfoldable pub mad_cycles : ℕ → ℕ → ℕ → L0MatmulConfig W → ℕ
  mad_cycles m n k c =
      let k_fractal = fractal_depth c in
      let full = c.k / k in
      let tail = c.k - full * k in
      let blocks = full + (if ltb 0 tail then 1 else 0) in
      let fractals =
        full * ceil_div k k_fractal + (if ltb 0 tail then ceil_div tail k_fractal else 0) in
      let per_tile =
        blocks * c.mad_head_cycles
        + cycles_per_repeat c * ceil_div m c.align_m * fractals * ceil_div n c.align_n in
      ceil_div c.m m * ceil_div c.n n * per_tile

  unfoldable pub one_block_load_cycles : ℕ → ℕ → ℕ → L0MatmulConfig W → W
  one_block_load_cycles m n k c =
      add (over (of_int (c.bytes_a * m * k)) c.bw_l0a) (over (of_int (c.bytes_b * k * n)) c.bw_l0b)

  unfoldable pub one_block_mad_cycles : ℕ → ℕ → ℕ → L0MatmulConfig W → W
  one_block_mad_cycles m n k c = add (of_int c.mad_head_cycles) (
      of_int (
        cycles_per_repeat c
        * ceil_div m c.align_m
        * ceil_div k (fractal_depth c)
        * ceil_div n c.align_n))

  unfoldable pub drain_cycles : ℕ → ℕ → L0MatmulConfig W → W
  drain_cycles m n c = elim c.output_target [
    | L0OutputTarget.acc ↦ of_int 0
    | L0OutputTarget.l1 ↦ over (of_int (c.bytes_c * m * n)) c.bw_l0c_l1
    | L0OutputTarget.gm ↦
        let drains = ceil_div c.m m * ceil_div c.n n in
        let n0 = max 1 (c.drain_c0_bytes / c.bytes_c) in
        let n1 = ceil_div n n0 in
        let throughput = over (of_int (c.bytes_c * n)) c.bw_drain in
        let per_row =
          add (larger c.drain_row_cycles throughput)
            (times c.drain_penalty_cycles (of_int (odd_part n1 - 1))) in
        times (of_int drains) (add c.drain_fixed_cycles (times (of_int m) per_row))
  ]

  -- The tests of `traffic_bytes` for the operand that stays in its buffer.
  abbrev pub holds_a : ℕ → ℕ → ℕ → L0MatmulConfig W → L0Stationarity → Bool
  holds_a m n k c L0Stationarity.a = true
  holds_a m n k c L0Stationarity.b = false
  holds_a m n k c L0Stationarity.output = leb c.k k && output_stationary_holds_a m n c

  abbrev pub holds_b : ℕ → L0MatmulConfig W → L0Stationarity → Bool
  holds_b k c L0Stationarity.a = false
  holds_b k c L0Stationarity.b = true
  holds_b k c L0Stationarity.output = leb c.k k

  abbrev pub output_traffic : L0MatmulConfig W → L0OutputTarget → ℕ
  output_traffic c L0OutputTarget.acc = 0
  output_traffic c _ = (if c.accumulator_read then 2 else 1) * c.bytes_c * c.m * c.n

  unfoldable pub traffic_bytes : ℕ → ℕ → ℕ → L0MatmulConfig W → Regime → ℕ
  traffic_bytes m n k c r =
      let once_a = c.bytes_a * c.m * c.k in
      let once_b = c.bytes_b * c.k * c.n in
      let operands =
        if holds_a m n k c r.stationarity
        then once_a + once_b * ceil_div c.m m
        else (if holds_b k c r.stationarity
            then once_a * ceil_div c.n n + once_b
            else once_a * ceil_div c.n n + once_b * ceil_div c.m m) in
      operands + output_traffic c c.output_target

  -- `estimate_l0_output_drain_cycles`.
  unfoldable pub estimate_l0_output_drain_cycles : ℕ → ℕ → L0MatmulConfig W → L0OutputTarget → W
  estimate_l0_output_drain_cycles m n config target =
      if m == 0 || n == 0
      then infinity
      else drain_cycles m n (record config { m = m; n = n; output_target = target })
