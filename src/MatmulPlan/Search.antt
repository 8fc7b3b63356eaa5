-- ===== src/MatmulPlan/Search.antt =====
-- core/l0_matmul_plan.cpp: the enumeration of tiles, `best_in_regime`.
pub mod Tile
pub mod Scans
pub mod Optimal
pub mod Found
use pto_fusebox.Base.{
  ℕ, zero, suc, ◌+◌, ◌-◌, ◌*◌, ◌/◌, ◌%◌, ◌≤◌, ◌<◌, min, max, ◌≡◌, refl, sym, ap, ◌∙◌, subst,
  fun_ext, ◌≢◌, ◌↔◌, ◌⊎◌, inl, inr, Bool, true, false, not, ◌&&◌, ◌||◌, Option, none, some, List,
  [], ◌∷◌, ◌++◌, map, arith, ltb, leb, ◌==◌, if◌then◌else◌, Bool-cases, Option-cases, eq_or_ne,
  lt_or_ge, ◌^◌, ◌>>=◌, >>=-some, ltb→lt, lt→ltb, leb→le, le→leb, above_leb, ltb_of_zero,
  true_or_false, ==→eq, ==_refl, ==-eq-false, length, get_elem?, get_or, length-append, List-cases,
  All, elem, elem-append, In, All-In, range_by, In-range_by, any, any_find, any_intro, any_cong,
  Table, put,
}
use pto_fusebox.MatmulPlan.{Double, L0MatmulConfig, L0MatmulPhaseCost, L0KLoopPlan}
use pto_fusebox.MatmulPlan.Align.{ceil_div, align_up, PhysicalExtents, physical_extents}
use pto_fusebox.MatmulPlan.Costs.{
  Regime, operand_depths, load_cycles, mad_cycles, one_block_load_cycles, one_block_mad_cycles,
  drain_cycles, traffic_bytes,
}
use pto_fusebox.MatmulPlan.KValues.{legal_k_values}

pub record Candidate {ℓ} (W : Type ℓ) : Type ℓ where
  pub m : ℕ
  pub n : ℕ
  pub k : ℕ
  pub traffic_bytes : ℕ
  pub wall_cycles : ℕ
  pub padded_compute : ℕ
  pub k_loop : L0KLoopPlan
  pub phases : L0MatmulPhaseCost W
  pub regime : Regime

unfoldable pub plan_k_loop : ℕ → ℕ → L0KLoopPlan
plan_k_loop total k =
    let full_chunks = total / k in
    record {
      chunk = k;
      full_chunks = full_chunks;
      tail = total - full_chunks * k;
      pipeline_stages = if leb 2 full_chunks then 2 else 1;
    }

module _ {ℓ} {W : Type ℓ} ⦃d : Double W⦄ where
  open d use {of_int, add, times, over, larger, smaller, lt, eq, is_finite, llround}

  unfoldable pub better : Candidate W → Candidate W → L0MatmulConfig W → Bool
  better a b c =
      if not (a.wall_cycles == b.wall_cycles)
      then ltb a.wall_cycles b.wall_cycles
      else (if not (a.padded_compute == b.padded_compute)
          then ltb a.padded_compute b.padded_compute
          else (if not (ceil_div c.k a.k == ceil_div c.k b.k)
              then ltb (ceil_div c.k a.k) (ceil_div c.k b.k)
              else (if not (eq a.phases.load_cycles b.phases.load_cycles)
                  then lt a.phases.load_cycles b.phases.load_cycles
                  else (if not (a.m * a.n == b.m * b.n)
                      then ltb (b.m * b.n) (a.m * a.n)
                      else ltb b.k a.k))))

  module _ (c : L0MatmulConfig W) (r : Regime) where
    unfoldable pub selection_wall : ℕ → ℕ → ℕ → W
    selection_wall m n k =
        let compute = larger (load_cycles m n k c r) (of_int (mad_cycles m n k c)) in
        let drain = drain_cycles m n c in
        if r.double_buffer_c
        then add (larger compute drain)
            (over (smaller compute drain) (of_int (ceil_div c.m m * ceil_div c.n n)))
        else add compute drain

    -- The phases of the one output tile, in terms of the loop over k.
    abbrev init_cycles : ℕ → L0KLoopPlan → W
    init_cycles k loop =
        if ltb 0 loop.full_chunks
        then add (one_block_load_cycles c.m c.n k c) (one_block_mad_cycles c.m c.n k c)
        else of_int 0

    abbrev rolled_cycles : ℕ → L0KLoopPlan → W
    rolled_cycles k loop =
        if leb 2 loop.full_chunks
        then times (of_int (loop.full_chunks - 1))
            (larger (one_block_load_cycles c.m c.n k c) (one_block_mad_cycles c.m c.n k c))
        else of_int 0

    abbrev tail_cycles : L0KLoopPlan → W
    tail_cycles loop =
        if ltb 0 loop.tail
        then add (one_block_load_cycles c.m c.n loop.tail c)
            (one_block_mad_cycles c.m c.n loop.tail c)
        else of_int 0

    unfoldable pub phases_of : ℕ → ℕ → ℕ → L0MatmulPhaseCost W
    phases_of m n k =
        let loop = plan_k_loop c.k k in
        let load = load_cycles m n k c r in
        let mad = of_int (mad_cycles m n k c) in
        let drain = drain_cycles m n c in
        if ceil_div c.m m == 1 && ceil_div c.n n == 1
        then record {
          load_cycles = load;
          mad_cycles = mad;
          init_cycles = init_cycles k loop;
          rolled_cycles = rolled_cycles k loop;
          tail_cycles = tail_cycles loop;
          drain_cycles = drain;
          wall_cycles =
              add (add (add (init_cycles k loop) (rolled_cycles k loop)) (tail_cycles loop)) drain;
        }
        else record {
          load_cycles = load;
          mad_cycles = mad;
          init_cycles = of_int 0;
          rolled_cycles = of_int 0;
          tail_cycles = of_int 0;
          drain_cycles = drain;
          wall_cycles = selection_wall m n k;
        }

    -- The test on the two wall times; the bound is the largest integer below which a `double` is
    -- exact.
    unfoldable pub is_accepted : ℕ → ℕ → ℕ → Bool
    is_accepted m n k =
        is_finite (phases_of m n k).wall_cycles
        && is_finite (selection_wall m n k)
        && not (lt (of_int 9007199254740992) (selection_wall m n k))

    unfoldable pub candidate_at : ℕ → ℕ → ℕ → Candidate W
    candidate_at m n k = record {
      m = m;
      n = n;
      k = k;
      traffic_bytes = traffic_bytes m n k c r;
      wall_cycles = llround (selection_wall m n k);
      padded_compute = ceil_div c.m m * m * ceil_div c.n n * n * ceil_div c.k k * k;
      k_loop = plan_k_loop c.k k;
      phases = phases_of m n k;
      regime = r;
    }

    -- `if (!best || better(candidate, *best, c)) best = candidate;`
    unfoldable pub keep : Candidate W → Option (Candidate W) → Option (Candidate W)
    keep new none = some new
    keep new (some best) = if better new best c then some new else some best

    abbrev pub a_budget : ℕ
    a_budget = c.l0a_bytes / (c.bytes_a * (operand_depths r.stationarity).0)

    abbrev pub b_budget : ℕ
    b_budget = c.l0b_bytes / (c.bytes_b * (operand_depths r.stationarity).1)

    abbrev pub c_budget : ℕ
    c_budget = c.l0c_bytes / (c.bytes_c * (if r.double_buffer_c then 2 else 1))

    abbrev pub m_upper : ℕ
    m_upper = if c.allow_padding then align_up c.m c.align_m else c.m

    abbrev pub n_upper : ℕ
    n_upper = if c.allow_padding then align_up c.n c.align_n else c.n

    module _ (require_2d require_full_k : Bool) where
      unfoldable pub scan_k : ℕ → ℕ → List ℕ → Option (Candidate W) → Option (Candidate W)
      scan_k m n [] best = best
      scan_k m n (k ∷ ks) best =
          let skipped = (require_full_k && not (k == c.k)) || not (is_accepted m n k) in
          scan_k m n ks (if skipped then best else keep (candidate_at m n k) best)

      -- Whether the loop over n goes on to the next n.
      abbrev pub skips_n : ℕ → Option PhysicalExtents → Bool
      skips_n n none = true
      skips_n n (some physical) =
          ltb (c_budget / physical.boxed_n) physical.l0c_m || (require_2d && ltb (ceil_div c.n n) 2)

      unfoldable pub scan_n : ℕ → List ℕ → Option (Candidate W) → Option (Candidate W)
      scan_n m [] best = best
      scan_n m (n ∷ ns) best = scan_n m ns (
          if skips_n n (physical_extents m n c)
          then best
          else scan_k m n (legal_k_values m n c a_budget b_budget) best)

      -- Whether the loop over m ends, since the smallest n does not fit.
      abbrev pub breaks_m : Option PhysicalExtents → Bool
      breaks_m none = true
      breaks_m (some physical) = ltb (c_budget / physical.boxed_n) physical.l0c_m

      abbrev pub n_max : Option PhysicalExtents → ℕ
      n_max none = 0
      n_max (some physical) = min n_upper (c_budget / physical.l0c_m)

      abbrev pub n_values : Option PhysicalExtents → List ℕ
      n_values minimum = range_by (suc (n_max minimum)) c.min_n (n_max minimum) c.align_n

      unfoldable pub scan_m : List ℕ → Option (Candidate W) → Option (Candidate W)
      scan_m [] best = best
      scan_m (m ∷ ms) best =
          let minimum = physical_extents m c.min_n c in
          let skipped = require_2d && ltb (ceil_div c.m m) 2 in
          let rest = scan_m ms (if skipped then best else scan_n m (n_values minimum) best) in
          if breaks_m minimum then best else rest

      unfoldable pub best_in_regime : Option (Candidate W)
      best_in_regime = scan_m (range_by (suc m_upper) c.min_m m_upper c.align_m) none
