-- ===== src/MatmulPlan.antt =====
-- core/l0_matmul_plan.h: the configuration of one matmul on the L0 buffers and the plan for it.
-- `double` is a type of which only the operations that the code uses are known. The integers are
-- natural numbers, since every nonpositive size is refused alike; an overflow of `int64_t` is
-- written out where the code tests for it.
pub mod Align
pub mod Costs
pub mod KValues
pub mod Search
pub mod Choose
mod Tests
pub mod Extents
use pto_fusebox.Base.{ℕ, Bool}

-- What the code does with a `double`.
pub record Double {ℓ} (W : Type ℓ) : Type ℓ where
  pub of_int : ℕ → W
  pub infinity : W
  pub add : W → W → W
  pub times : W → W → W
  pub over : W → W → W
  pub larger : W → W → W
  pub smaller : W → W → W
  pub le : W → W → Bool
  pub lt : W → W → Bool
  pub eq : W → W → Bool
  pub is_finite : W → Bool
  pub llround : W → ℕ

pub data L0Stationarity : Type 0 where
  output a b : L0Stationarity

pub data L0OutputTarget : Type 0 where
  acc gm l1 : L0OutputTarget

pub record L0MatmulConfig {ℓ} (W : Type ℓ) : Type ℓ where
  pub m : ℕ
  pub n : ℕ
  pub k : ℕ
  pub forced_k : ℕ
  pub l0a_bytes : ℕ
  pub l0b_bytes : ℕ
  pub l0c_bytes : ℕ
  pub bytes_a : ℕ
  pub bytes_b : ℕ
  pub bytes_c : ℕ
  pub min_m : ℕ
  pub min_n : ℕ
  pub min_k : ℕ
  pub align_m : ℕ
  pub align_n : ℕ
  pub align_k : ℕ
  pub l0c_align_m : ℕ
  pub box_align_m : ℕ
  pub box_align_n : ℕ
  pub allow_a_stationary : Bool
  pub allow_b_stationary : Bool
  pub allow_double_buffer_c : Bool
  pub accumulator_read : Bool
  pub allow_padding : Bool
  pub allow_k_boundary : Bool
  pub output_target : L0OutputTarget
  pub bw_l0a : W
  pub bw_l0b : W
  pub bw_drain : W
  pub bw_l0c_l1 : W
  pub drain_fixed_cycles : W
  pub drain_row_cycles : W
  pub drain_penalty_cycles : W
  pub drain_c0_bytes : ℕ
  pub mad_head_cycles : ℕ
  pub mad_k_fractal_bytes : ℕ
  pub mad_fp32_passes : ℕ

pub record L0MatmulPhaseCost {ℓ} (W : Type ℓ) : Type ℓ where
  pub load_cycles : W
  pub mad_cycles : W
  pub init_cycles : W
  pub rolled_cycles : W
  pub tail_cycles : W
  pub drain_cycles : W
  pub wall_cycles : W

pub record L0KLoopPlan : Type 0 where
  pub chunk : ℕ
  pub full_chunks : ℕ
  pub tail : ℕ
  pub pipeline_stages : ℕ

-- The texts of `diagnostic`, with the numbers that they quote; `clear` is the empty string.
pub data Diagnostic : Type 0 where
  clear : Diagnostic
  shape_not_positive : Diagnostic
  capacity_not_positive : Diagnostic
  bytes_not_positive : Diagnostic
  minimum_not_positive : Diagnostic
  alignment_not_positive : Diagnostic
  bandwidth_not_positive : Diagnostic
  drain_out_of_range : Diagnostic
  m_below_minimum : ℕ → ℕ → Diagnostic
  n_below_minimum : ℕ → ℕ → Diagnostic
  k_below_minimum : ℕ → ℕ → Diagnostic
  no_legal_tile : Diagnostic
  padded_plan : ℕ → ℕ → ℕ → Diagnostic

pub record L0MatmulPlan {ℓ} (W : Type ℓ) : Type ℓ where
  pub feasible : Bool
  pub m : ℕ
  pub n : ℕ
  pub k : ℕ
  pub stationarity : L0Stationarity
  pub output_stationary_holds_a : Bool
  pub buffer_depth_a : ℕ
  pub buffer_depth_b : ℕ
  pub buffer_depth_c : ℕ
  pub output_target : L0OutputTarget
  pub estimated_traffic_bytes : ℕ
  pub estimated_cost_cycles : ℕ
  pub padded_compute_volume : ℕ
  pub k_loop : L0KLoopPlan
  pub phases : L0MatmulPhaseCost W
  pub diagnostic : Diagnostic
