-- ===== src/MatmulPlan/Tests.antt =====
-- The planner on concrete configurations, with whole numbers for the doubles.
use pto_fusebox.Base.{
  ℕ, ◌+◌, ◌*◌, ◌/◌, ◌≤◌, min, max, ◌≡◌, refl, ◌⊎◌, true, false, some, arith, ltb, leb, ◌==◌, ◌^◌,
  ◌>>=◌, In, range_by,
}
use mathlib.Core.Bool.{false≢true}
use pto_fusebox.MatmulPlan.{Double, L0MatmulConfig, L0Stationarity, L0OutputTarget, Diagnostic}
use pto_fusebox.MatmulPlan.Align.{
  ceil_div, align_up, align_down, increment, checked_align_up, checked_align_up_iff,
  rounded_of_close, PhysicalExtents, physical_extents,
}
use pto_fusebox.MatmulPlan.Costs.{
  halve, odd_part, output_stationary_holds_a, load_cycles, mad_cycles, one_block_load_cycles,
  one_block_mad_cycles, drain_cycles, traffic_bytes,
}
use pto_fusebox.MatmulPlan.Costs.Odd.{IsOddPart, odd_part-IsOddPart}
use pto_fusebox.MatmulPlan.KValues.{
  capacity_of, push_legal, k_values, legal_k_values, IsLegalK, In-legal_k_values,
}
use pto_fusebox.MatmulPlan.Search.{
  better, plan_k_loop, selection_wall, phases_of, is_accepted, candidate_at, keep, scan_k, scan_n,
  scan_m, best_in_regime,
}
use pto_fusebox.MatmulPlan.Search.Tile.{IsTile}
use pto_fusebox.MatmulPlan.Choose.{
  validate, is_clear, baseline, regime_of, try_regime, try_buffers, try_all, refine, plan_of,
  choose_l0_matmul_plan,
}
use pto_fusebox.MatmulPlan.Choose.Valid.{IsValid, validate_iff}
use pto_fusebox.MatmulPlan.Choose.Plan.{Fits, choose_l0_matmul_plan-Fits}
use pto_fusebox.MatmulPlan.Choose.Cheapest.{choose_l0_matmul_plan_le, choose-infeasible}

instance abbrev whole_numbers : Double ℕ
whole_numbers = record {
  of_int = λ x. x;
  infinity = 2 ^ 1024;
  add = λ x y. x + y;
  times = λ x y. x * y;
  over = λ x y. x / y;
  larger = max;
  smaller = min;
  le = leb;
  lt = ltb;
  eq = λ x y. x == y;
  is_finite = λ x. ltb x (2 ^ 1024);
  llround = λ x. x;
}

-- 32 by 16, with K = 48, on buffers of 2 KB, 4 KB and 1 KB.
abbrev sample : L0MatmulConfig ℕ
sample = record {
  m = 32;
  n = 16;
  k = 48;
  forced_k = 0;
  l0a_bytes = 2048;
  l0b_bytes = 4096;
  l0c_bytes = 1024;
  bytes_a = 2;
  bytes_b = 2;
  bytes_c = 4;
  min_m = 16;
  min_n = 16;
  min_k = 16;
  align_m = 16;
  align_n = 16;
  align_k = 16;
  l0c_align_m = 16;
  box_align_m = 1;
  box_align_n = 1;
  allow_a_stationary = true;
  allow_b_stationary = true;
  allow_double_buffer_c = true;
  accumulator_read = false;
  allow_padding = false;
  allow_k_boundary = true;
  output_target = L0OutputTarget.gm;
  bw_l0a = 130;
  bw_l0b = 85;
  bw_drain = 118;
  bw_l0c_l1 = 74;
  drain_fixed_cycles = 164;
  drain_row_cycles = 4;
  drain_penalty_cycles = 3;
  drain_c0_bytes = 32;
  mad_head_cycles = 21;
  mad_k_fractal_bytes = 32;
  mad_fp32_passes = 2;
}

-- 16 rows are below a minimum of 32.
abbrev too_small : L0MatmulConfig ℕ
too_small = record sample { m = 16; min_m = 32 }

abbrev result : ℕ × ℕ × ℕ
result = let p = choose_l0_matmul_plan sample in (p.m, p.n, p.k)

abbrev cost : ℕ
cost = (choose_l0_matmul_plan sample).estimated_cost_cycles

sample_plan : (result ≡ (16, 16, 48)) × (cost ≡ 515)
unfolding ceil_div align_up align_down increment checked_align_up physical_extents halve odd_part
    output_stationary_holds_a load_cycles mad_cycles one_block_load_cycles one_block_mad_cycles
    drain_cycles traffic_bytes capacity_of push_legal k_values legal_k_values range_by better
    plan_k_loop selection_wall phases_of is_accepted candidate_at keep scan_k scan_n scan_m
    best_in_regime validate try_regime try_buffers try_all refine plan_of choose_l0_matmul_plan
sample_plan = (refl, refl)

abbrev sample_extents : PhysicalExtents
sample_extents = record { boxed_m = 16; boxed_n = 16; l0c_m = 16 }

checked_align_up_iff_example : checked_align_up 17 16 ≡ some 32
checked_align_up_iff_example =
    (checked_align_up_iff 17 16 32 (omega arith) (omega arith)).1
      (rounded_of_close 17 16 32 refl (omega arith) (omega arith), omega arith)

odd_part-IsOddPart_example : IsOddPart (odd_part 12) 12
odd_part-IsOddPart_example = odd_part-IsOddPart 12 (omega arith)

sample-IsValid : IsValid sample
unfolding ceil_div align_up align_down increment checked_align_up physical_extents halve odd_part
    output_stationary_holds_a load_cycles mad_cycles one_block_load_cycles one_block_mad_cycles
    drain_cycles traffic_bytes capacity_of push_legal k_values legal_k_values range_by better
    plan_k_loop selection_wall phases_of is_accepted candidate_at keep scan_k scan_n scan_m
    best_in_regime validate try_regime try_buffers try_all refine plan_of choose_l0_matmul_plan
sample-IsValid = (validate_iff sample).0 refl

sample-IsTile : IsTile sample baseline false false 16 16 16
unfolding ceil_div align_up align_down increment checked_align_up physical_extents halve odd_part
    output_stationary_holds_a load_cycles mad_cycles one_block_load_cycles one_block_mad_cycles
    drain_cycles traffic_bytes capacity_of push_legal k_values legal_k_values range_by better
    plan_k_loop selection_wall phases_of is_accepted candidate_at keep scan_k scan_n scan_m
    best_in_regime validate try_regime try_buffers try_all refine plan_of choose_l0_matmul_plan
sample-IsTile = record {
  m_ge = omega arith;
  m_le = omega arith;
  m_step = refl;
  n_ge = omega arith;
  n_le = omega arith;
  n_step = refl;
  extents = sample_extents;
  of_extents = record { of_m = refl; of_n = refl; of_l0c_m = refl };
  fits_c = omega arith;
  legal = record {
    least = omega arith;
    fits = omega arith;
    unpadded = λ _. omega arith;
    exact = λ _ _. refl;
    forced = λ p. absurd (omega arith);
    searched = λ _. (refl, omega arith);
  };
  two = λ e. absurd (false≢true e);
  full = λ e. absurd (false≢true e);
  accepted = refl;
}

sample_feasible : (choose_l0_matmul_plan sample).feasible ≡ true
unfolding ceil_div align_up align_down increment checked_align_up physical_extents halve odd_part
    output_stationary_holds_a load_cycles mad_cycles one_block_load_cycles one_block_mad_cycles
    drain_cycles traffic_bytes capacity_of push_legal k_values legal_k_values range_by better
    plan_k_loop selection_wall phases_of is_accepted candidate_at keep scan_k scan_n scan_m
    best_in_regime validate try_regime try_buffers try_all refine plan_of choose_l0_matmul_plan
sample_feasible = refl

too_small_infeasible : (choose_l0_matmul_plan too_small).feasible ≡ false
unfolding ceil_div align_up align_down increment checked_align_up physical_extents halve odd_part
    output_stationary_holds_a load_cycles mad_cycles one_block_load_cycles one_block_mad_cycles
    drain_cycles traffic_bytes capacity_of push_legal k_values legal_k_values range_by better
    plan_k_loop selection_wall phases_of is_accepted candidate_at keep scan_k scan_n scan_m
    best_in_regime validate try_regime try_buffers try_all refine plan_of choose_l0_matmul_plan
too_small_infeasible = refl

legal_here : IsLegalK sample (capacity_of 512 1024 sample_extents) 16
unfolding capacity_of align_down
legal_here = record {
  least = omega arith;
  fits = omega arith;
  unpadded = λ _. omega arith;
  exact = λ _ _. refl;
  forced = λ p. absurd (omega arith);
  searched = λ _. (refl, omega arith);
}

extents_here : physical_extents 16 16 sample ≡ some sample_extents
unfolding physical_extents checked_align_up increment
extents_here = refl

In-legal_k_values_example : In 16 (legal_k_values 16 16 sample 512 1024)
In-legal_k_values_example =
    (In-legal_k_values 16 16 sample 512 1024 16 (omega arith)).1
      (sample_extents, extents_here, legal_here)

choose_l0_matmul_plan-Fits_example : Fits sample (choose_l0_matmul_plan sample)
choose_l0_matmul_plan-Fits_example = choose_l0_matmul_plan-Fits sample sample_feasible

choose_l0_matmul_plan_le_example :
    ((choose_l0_matmul_plan sample).feasible ≡ true)
    × ((choose_l0_matmul_plan sample).estimated_cost_cycles
        ≤ (candidate_at sample baseline 16 16 16).wall_cycles)
choose_l0_matmul_plan_le_example =
    choose_l0_matmul_plan_le sample 16 16 16 sample-IsValid sample-IsTile

choose-infeasible_example :
    ((is_clear (validate too_small) ≡ false)
      × ((choose_l0_matmul_plan too_small).diagnostic ≡ validate too_small))
    ⊎ (IsValid too_small
        × ((choose_l0_matmul_plan too_small).diagnostic ≡ Diagnostic.no_legal_tile)
        × ((m n k : ℕ) → ¬ IsTile too_small baseline false false m n k))
choose-infeasible_example = choose-infeasible too_small too_small_infeasible

-- The baseline keeps two buffers of each operand; with one of A the least tile would fit, but
-- the plan is infeasible.
abbrev one_buffer : L0MatmulConfig ℕ
one_buffer = record sample { k = 16; l0a_bytes = 512 }

alternative_alone :
    ((choose_l0_matmul_plan one_buffer).feasible ≡ false)
    × ((best_in_regime one_buffer (regime_of L0Stationarity.a false) false true >>= λ x. some x.k)
        ≡ some 16)
unfolding ceil_div align_up align_down increment checked_align_up physical_extents halve odd_part
    output_stationary_holds_a load_cycles mad_cycles one_block_load_cycles one_block_mad_cycles
    drain_cycles traffic_bytes capacity_of push_legal k_values legal_k_values range_by better
    plan_k_loop selection_wall phases_of is_accepted candidate_at keep scan_k scan_n scan_m
    best_in_regime validate try_regime try_buffers try_all refine plan_of choose_l0_matmul_plan
alternative_alone = (refl, refl)
