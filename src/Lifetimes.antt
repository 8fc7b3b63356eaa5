-- ===== src/Lifetimes.antt =====
-- core/pebbling_order.cpp, ComputeAlwaysRetainedValueLifetimes: from which step to which step a value
-- stays on chip.
pub mod Accounts
pub mod Cover
pub mod Valid
mod Tests
use pto_fusebox.Base.{
  ℕ, zero, suc, ◌+◌, ◌-◌, ◌*◌, ◌/◌, ◌%◌, ◌^◌, In, ◌≤◌, ◌<◌, min, max, ◌≡◌, refl, sym, ap, ◌∙◌,
  subst, fun_ext, ◌≢◌, ◌↔◌, ◌⊎◌, inl, inr, Bool, true, false, not, ◌&&◌, ◌||◌, Option, none, some,
  List, [], ◌∷◌, ◌++◌, map, arith, ltb, leb, ◌==◌, if◌then◌else◌, Bool-cases, Option-cases,
  eq_or_ne, ltb→lt, lt→ltb, leb→le, ==→eq, ==_refl, ==-eq-false, length, get_elem?, get_or,
  length-append, List-cases, All, elem, elem-append, any, any_find, any_intro, any_cong, Table, put,
}

abbrev pub max_size : ℕ
max_size = 2 ^ 64 - 1

pub data PebblingValueEventKind : Type 0 where
  materialize use_value : PebblingValueEventKind

pub record PebblingValueEvent : Type 0 where
  pub value_id : ℕ
  pub step : ℕ
  pub kind : PebblingValueEventKind

pub record PebblingValueLifetime : Type 0 where
  pub value_id : ℕ
  pub first_live_step : ℕ
  pub last_use_step : ℕ
  pub use_count : ℕ
  pub has_materialization : Bool

pub record PebblingValueLifetimePlan : Type 0 where
  pub valid : Bool
  pub lifetimes : List PebblingValueLifetime

abbrev pub invalid_plan : PebblingValueLifetimePlan
invalid_plan = record { valid = false; lifetimes = [] }

pub record Accumulator : Type 0 where
  pub first_materialization : ℕ
  pub first_use : ℕ
  pub last_use : ℕ
  pub materialization_count : ℕ
  pub use_count : ℕ

abbrev pub fresh : Accumulator
fresh = record {
  first_materialization = max_size;
  first_use = max_size;
  last_use = 0;
  materialization_count = 0;
  use_count = 0;
}

-- The body of the loop over the events, on the accumulator of the value.
pub account : PebblingValueEvent → Accumulator → Accumulator
account e a = elim e.kind [
  | materialize ↦ record a {
    first_materialization = min a.first_materialization e.step;
    materialization_count = a.materialization_count + 1;
  }
  | use_value ↦ record a {
    first_use = min a.first_use e.step;
    last_use = max a.last_use e.step;
    use_count = a.use_count + 1;
  }
]

-- An entry of `by_value`, which is sorted by the value.
pub record Slot : Type 0 where
  pub value_id : ℕ
  pub accumulator : Accumulator

-- `by_value[event.value_id]`, with the change of the accumulator.
pub update : PebblingValueEvent → List Slot → List Slot
unfolding account
update e [] = record { value_id = e.value_id; accumulator = account e fresh } ∷ []
update e (s ∷ slots) =
    let rest = s ∷ update e slots in
    if s.value_id == e.value_id
    then record s { accumulator = account e s.accumulator } ∷ slots
    else if ltb e.value_id s.value_id
    then record { value_id = e.value_id; accumulator = account e fresh } ∷ s ∷ slots
    else rest

-- The loop over the events; `none` is the early return.
pub collect : ℕ → List PebblingValueEvent → List Slot → Option (List Slot)
unfolding update
collect step_count [] slots = some slots
collect step_count (e ∷ events) slots =
    let rest = collect step_count events (update e slots) in
    if leb step_count e.step then none else rest

abbrev pub has_one : Accumulator → Bool
has_one a = a.materialization_count == 1

abbrev pub lifetime_of : Slot → PebblingValueLifetime
lifetime_of s = record {
  value_id = s.value_id;
  first_live_step =
      if has_one s.accumulator
      then s.accumulator.first_materialization
      else s.accumulator.first_use;
  last_use_step = s.accumulator.last_use;
  use_count = s.accumulator.use_count;
  has_materialization = has_one s.accumulator;
}

-- The loop over the values.
pub retain : List Slot → List PebblingValueLifetime → PebblingValueLifetimePlan
retain [] lifetimes = record { valid = true; lifetimes = lifetimes }
retain (s ∷ slots) lifetimes =
    let skip = retain slots lifetimes in
    let next = retain slots (lifetimes ++ lifetime_of s ∷ []) in
    if ltb 1 s.accumulator.materialization_count
    then invalid_plan
    else if s.accumulator.use_count == 0
    then skip
    else if has_one s.accumulator && ltb s.accumulator.first_use s.accumulator.first_materialization
    then invalid_plan
    else next

unfoldable pub compute_always_retained_value_lifetimes :
    ℕ → List PebblingValueEvent → PebblingValueLifetimePlan
unfolding collect retain
compute_always_retained_value_lifetimes step_count events = elim (collect step_count events []) [
  | none ↦ invalid_plan
  | some slots ↦ retain slots []
]
