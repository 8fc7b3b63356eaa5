-- ===== src/MatmulPlan/Choose.antt =====
-- core/l0_matmul_plan.cpp: `validate` and `choose_l0_matmul_plan`.
pub mod Valid
pub mod Plan
pub mod Cheapest
pub mod Alternatives
use pto_fusebox.Base.{
  ℕ, zero, suc, ◌+◌, ◌-◌, ◌*◌, ◌/◌, ◌%◌, ◌≤◌, ◌<◌, min, max, ◌≡◌, refl, sym, ap, ◌∙◌, subst,
  fun_ext, ◌≢◌, ◌↔◌, ◌⊎◌, inl, inr, Bool, true, false, not, ◌&&◌, ◌||◌, Option, none, some, List,
  [], ◌∷◌, ◌++◌, map, arith, ltb, leb, ◌==◌, if◌then◌else◌, Bool-cases, Option-cases, eq_or_ne,
  lt_or_ge, ◌^◌, ◌>>=◌, >>=-some, ltb→lt, lt→ltb, leb→le, le→leb, above_leb, ltb_of_zero,
  true_or_false, ==→eq, ==_refl, ==-eq-false, length, get_elem?, get_or, length-append, List-cases,
  All, elem, elem-append, In, All-In, range_by, In-range_by, IsAscending, range_by-IsAscending, any,
  any_find, any_intro, any_cong, Table, put,
}
use pto_fusebox.MatmulPlan.{
  Double, L0MatmulConfig, L0Stationarity, a, b, output, L0OutputTarget, gm, L0MatmulPlan,
  Diagnostic, clear, shape_not_positive, capacity_not_positive, bytes_not_positive,
  minimum_not_positive, alignment_not_positive, bandwidth_not_positive, drain_out_of_range,
  m_below_minimum, n_below_minimum, k_below_minimum, no_legal_tile, padded_plan,
}
use pto_fusebox.MatmulPlan.Costs.{Regime, operand_depths, output_stationary_holds_a}
use pto_fusebox.MatmulPlan.Search.{Candidate, best_in_regime}

-- Whether `<= 0` holds of one of the numbers.
abbrev pub any_zero : List ℕ → Bool
any_zero [] = false
any_zero (x ∷ xs) = x == 0 || any_zero xs

abbrev pub is_clear : Diagnostic → Bool
is_clear Diagnostic.clear = true
is_clear _ = false

-- The first diagnostic whose test holds.
abbrev pub first_failure : List (Bool × Diagnostic) → Diagnostic
first_failure [] = Diagnostic.clear
first_failure ((failed, text) ∷ rest) = if failed then text else first_failure rest

abbrev pub baseline : Regime
baseline = record { stationarity = L0Stationarity.output; double_buffer_c = false }

abbrev pub regime_of : L0Stationarity → Bool → Regime
regime_of stationarity dbc = record { stationarity = stationarity; double_buffer_c = dbc }

abbrev pub is_output : L0Stationarity → Bool
is_output L0Stationarity.output = true
is_output _ = false

module _ {ℓ} {W : Type ℓ} ⦃d : Double W⦄ where
  open d use {of_int, le, lt}

  abbrev pub not_positive : W → Bool
  not_positive x = le x (of_int 0)

  abbrev pub is_negative : W → Bool
  is_negative x = lt x (of_int 0)

  -- The tests of `validate` in their order.
  abbrev pub checks : L0MatmulConfig W → List (Bool × Diagnostic)
  checks c =
      ((any_zero (c.m ∷ c.n ∷ c.k ∷ []), Diagnostic.shape_not_positive)
        ∷ (
          any_zero (c.l0a_bytes ∷ c.l0b_bytes ∷ c.l0c_bytes ∷ []),
          Diagnostic.capacity_not_positive,
        )
        ∷ (any_zero (c.bytes_a ∷ c.bytes_b ∷ c.bytes_c ∷ []), Diagnostic.bytes_not_positive)
        ∷ (any_zero (c.min_m ∷ c.min_n ∷ c.min_k ∷ []), Diagnostic.minimum_not_positive)
        ∷ (
          any_zero (
              c.align_m ∷ c.align_n ∷ c.align_k ∷ c.l0c_align_m ∷ c.box_align_m ∷ c.box_align_n
              ∷ []),
          Diagnostic.alignment_not_positive,
        )
        ∷ (
          not_positive c.bw_l0a
              || not_positive c.bw_l0b
              || not_positive c.bw_drain
              || not_positive c.bw_l0c_l1,
          Diagnostic.bandwidth_not_positive,
        )
        ∷ (
          is_negative c.drain_fixed_cycles
              || is_negative c.drain_row_cycles
              || is_negative c.drain_penalty_cycles
              || any_zero (c.drain_c0_bytes ∷ c.mad_fp32_passes ∷ []),
          Diagnostic.drain_out_of_range,
        )
        ∷ (not c.allow_padding && ltb c.m c.min_m, Diagnostic.m_below_minimum c.m c.min_m)
        ∷ (not c.allow_padding && ltb c.n c.min_n, Diagnostic.n_below_minimum c.n c.min_n)
        ∷ (not c.allow_padding && ltb c.k c.min_k, Diagnostic.k_below_minimum c.k c.min_k)
        ∷ [])

  unfoldable pub validate : L0MatmulConfig W → Diagnostic
  validate c = first_failure (checks c)

  -- `if (candidate && candidate->wall_cycles < best->wall_cycles) best = candidate;`
  abbrev pub cheaper : Option (Candidate W) → Candidate W → Candidate W
  cheaper none best = best
  cheaper (some candidate) best =
      if ltb candidate.wall_cycles best.wall_cycles then candidate else best

  -- The search of one regime: two tiles each way if the output is double-buffered, all of K in one
  -- tile unless only one output tile is kept.
  abbrev pub search_regime : L0MatmulConfig W → L0Stationarity → Bool → Option (Candidate W)
  search_regime c stationarity dbc =
      best_in_regime c (regime_of stationarity dbc) dbc (not (is_output stationarity) || dbc)

  unfoldable pub try_regime : L0MatmulConfig W → L0Stationarity → Bool → Candidate W → Candidate W
  try_regime c stationarity dbc best =
      if is_output stationarity && not dbc
      then best
      else cheaper (search_regime c stationarity dbc) best

  -- The loop `for (int dbc = 0; dbc <= max_dbc; ++dbc)`.
  unfoldable pub try_buffers : L0MatmulConfig W → L0Stationarity → Candidate W → Candidate W
  try_buffers c stationarity best =
      let single = try_regime c stationarity false best in
      if c.allow_double_buffer_c then try_regime c stationarity true single else single

  abbrev pub stationarities : L0MatmulConfig W → List L0Stationarity
  stationarities c =
      (L0Stationarity.output ∷ [])
      ++ (if c.allow_a_stationary then L0Stationarity.a ∷ [] else [])
      ++ (if c.allow_b_stationary then L0Stationarity.b ∷ [] else [])

  unfoldable pub try_all : L0MatmulConfig W → List L0Stationarity → Candidate W → Candidate W
  try_all c [] best = best
  try_all c (s ∷ ss) best = try_all c ss (try_buffers c s best)

  abbrev pub is_tiled : L0MatmulConfig W → Candidate W → Bool
  is_tiled c best = not (best.m == c.m) || not (best.n == c.n) || not (best.k == c.k)

  unfoldable pub refine : L0MatmulConfig W → Candidate W → Candidate W
  refine c best = if is_tiled c best then try_all c (stationarities c) best else best

  -- A plan as it is constructed, with its diagnostic set.
  abbrev pub no_plan : Diagnostic → L0MatmulPlan W
  no_plan text = record {
    feasible = false;
    m = 0;
    n = 0;
    k = 0;
    stationarity = L0Stationarity.output;
    output_stationary_holds_a = true;
    buffer_depth_a = 2;
    buffer_depth_b = 2;
    buffer_depth_c = 1;
    output_target = L0OutputTarget.gm;
    estimated_traffic_bytes = 0;
    estimated_cost_cycles = 0;
    padded_compute_volume = 0;
    k_loop = record { chunk = 0; full_chunks = 0; tail = 0; pipeline_stages = 1 };
    phases = record {
      load_cycles = of_int 0;
      mad_cycles = of_int 0;
      init_cycles = of_int 0;
      rolled_cycles = of_int 0;
      tail_cycles = of_int 0;
      drain_cycles = of_int 0;
      wall_cycles = of_int 0;
    };
    diagnostic = text;
  }

  unfoldable pub plan_of : L0MatmulConfig W → Candidate W → L0MatmulPlan W
  plan_of c best = record {
    feasible = true;
    m = best.m;
    n = best.n;
    k = best.k;
    stationarity = best.regime.stationarity;
    output_stationary_holds_a = output_stationary_holds_a best.m best.n c;
    buffer_depth_a = (operand_depths best.regime.stationarity).0;
    buffer_depth_b = (operand_depths best.regime.stationarity).1;
    buffer_depth_c = if best.regime.double_buffer_c then 2 else 1;
    output_target = c.output_target;
    estimated_traffic_bytes = best.traffic_bytes;
    estimated_cost_cycles = best.wall_cycles;
    padded_compute_volume = best.padded_compute;
    k_loop = best.k_loop;
    phases = best.phases;
    diagnostic =
        if ltb c.m c.min_m || ltb c.n c.min_n || ltb c.k c.min_k
        then Diagnostic.padded_plan best.m best.n best.k
        else Diagnostic.clear;
  }

  abbrev pub planned : L0MatmulConfig W → Option (Candidate W) → L0MatmulPlan W
  planned c none = no_plan Diagnostic.no_legal_tile
  planned c (some best) = plan_of c (refine c best)

  unfoldable pub choose_l0_matmul_plan : L0MatmulConfig W → L0MatmulPlan W
  choose_l0_matmul_plan c =
      if is_clear (validate c)
      then planned c (best_in_regime c baseline false false)
      else no_plan (validate c)
