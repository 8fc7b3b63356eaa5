-- ===== src/Lifetimes/Tests.antt =====
-- core/pebbling_order.cpp, ComputeAlwaysRetainedValueLifetimes on a few events.
use pto_fusebox.Base.{
  ℕ, All-In, ◌≤◌, ◌<◌, ◌≡◌, refl, inl, inr, true, false, List, [], ◌∷◌, arith, All,
}
use pto_fusebox.Lifetimes.{
  PebblingValueEventKind, materialize, use_value, PebblingValueEvent, PebblingValueLifetime,
  PebblingValueLifetimePlan, compute_always_retained_value_lifetimes,
}
use pto_fusebox.Lifetimes.Valid.{Retainable, valid_lem}
use pto_fusebox.Lifetimes.Cover.{Covered, cover_lem}

abbrev event : ℕ → ℕ → PebblingValueEventKind → PebblingValueEvent
event v s k = record { value_id = v; step = s; kind = k }

abbrev events : List PebblingValueEvent
events =
    event 7 1 materialize ∷ event 3 2 use_value ∷ event 7 2 use_value ∷ event 7 4 use_value ∷ []

abbrev spans : PebblingValueLifetimePlan → List (List ℕ)
spans plan = spans_of plan.lifetimes
  where
    spans_of : List PebblingValueLifetime → List (List ℕ)
    spans_of [] = []
    spans_of (l ∷ ls) =
        (l.value_id ∷ l.first_live_step ∷ l.last_use_step ∷ l.use_count ∷ []) ∷ spans_of ls

spans-events :
    spans (compute_always_retained_value_lifetimes 5 events)
    ≡ (3 ∷ 2 ∷ 2 ∷ 1 ∷ []) ∷ (7 ∷ 1 ∷ 4 ∷ 2 ∷ []) ∷ []
unfolding compute_always_retained_value_lifetimes
spans-events = refl

late_event : (compute_always_retained_value_lifetimes 4 events).valid ≡ false
unfolding compute_always_retained_value_lifetimes
late_event = refl

events_valid : (compute_always_retained_value_lifetimes 5 events).valid ≡ true
unfolding compute_always_retained_value_lifetimes
events_valid = refl

cover_lem_example : Covered (compute_always_retained_value_lifetimes 5 events) (event 7 4 use_value)
cover_lem_example =
    cover_lem 5 events events_valid (event 7 4 use_value) (inr (inr (inr (inl refl)))) refl

abbrev short : List PebblingValueEvent
short = event 7 1 materialize ∷ event 7 4 use_value ∷ []

InOrder : PebblingValueEvent → PebblingValueEvent → Type 0
InOrder e f = e.kind ≡ materialize → f.kind ≡ use_value → e.value_id ≡ f.value_id → e.step ≤ f.step

short-InOrder : All (λ e. All (InOrder e) short) short
unfolding InOrder
short-InOrder =
    ((λ k l v. omega arith, (λ k l v. omega arith, tt)), ((λ k l v. cc, (λ k l v. cc, tt)), tt))

short-Retainable : Retainable 5 short
unfolding InOrder
short-Retainable = record {
  steps = λ e m. All-In (λ e. e.step < 5) short e (omega arith, (omega arith, tt)) m;
  once = λ v. ground arith;
  before = λ e f m n.
      All-In (InOrder e) short f (All-In (λ e. All (InOrder e) short) short e short-InOrder m) n;
}

valid_lem_example : (compute_always_retained_value_lifetimes 5 short).valid ≡ true
valid_lem_example = valid_lem 5 short short-Retainable
