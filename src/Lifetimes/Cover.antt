-- ===== src/Lifetimes/Cover.antt =====
-- core/pebbling_order.cpp, ComputeAlwaysRetainedValueLifetimes: the lifetimes cover the uses.
use pto_fusebox.Base.{
  ℕ, In, In-append, ◌≤◌, ◌<◌, ◌≡◌, sym, ap, subst, inl, inr, true, ◌&&◌, List, [], ◌∷◌, ◌++◌, arith,
  ltb, ◌==◌, Bool-cases, Option-cases,
}
use pto_fusebox.Lifetimes.{
  use_value, PebblingValueEvent, PebblingValueLifetime, PebblingValueLifetimePlan, Slot, collect,
  has_one, lifetime_of, retain, compute_always_retained_value_lifetimes,
}
use pto_fusebox.Lifetimes.Accounts.{Seen, collect-Accounted}

retain-keeps :
    (slots : List Slot) (before : List PebblingValueLifetime) (l : PebblingValueLifetime)
    → (retain slots before).valid ≡ true
    → In l before
    → In l (retain slots before).lifetimes
unfolding retain
retain-keeps [] before l h m = m
retain-keeps (s ∷ slots) before l h m =
    elim (Bool-cases (ltb 1 s.accumulator.materialization_count)) [
      | inl a ↦ cc (rw (a, retain) at h)
      | inr a ↦ elim (Bool-cases (s.accumulator.use_count == 0)) [
        | inl b ↦ rw (a, b, retain) (retain-keeps slots before l (rw (a, b, retain) at h) m)
        | inr b ↦
            elim (Bool-cases (
              has_one s.accumulator
              && ltb s.accumulator.first_use s.accumulator.first_materialization)) [
                | inl c ↦ cc (rw (a, b, c, retain) at h)
                | inr c ↦
                    rw (a, b, c, retain)
                      (retain-keeps slots (before ++ lifetime_of s ∷ []) l
                        (rw (a, b, c, retain) at h)
                        ((In-append l before (lifetime_of s ∷ [])).1 (inl m)))
              ]
      ]
    ]

-- A value with a use has its lifetime in a valid plan, which does not start after its first use.
retain-has :
    (slots : List Slot) (before : List PebblingValueLifetime) (s : Slot)
    → (retain slots before).valid ≡ true
    → In s slots
    → 0 < s.accumulator.use_count
    → In (lifetime_of s) (retain slots before).lifetimes
      × ((lifetime_of s).first_live_step ≤ s.accumulator.first_use)
unfolding retain
retain-has [] before s h m u = elim m [ ]
retain-has (x ∷ slots) before s h m u =
    elim (Bool-cases (ltb 1 x.accumulator.materialization_count)) [
      | inl a ↦ cc (rw (a, retain) at h)
      | inr a ↦ elim (Bool-cases (x.accumulator.use_count == 0)) [
        | inl b ↦
            rw (a, b, retain)
              (elim m [
                | inl same ↦
                    absurd (ground (arith, b, ap (λ (y : Slot). y.accumulator.use_count) same))
                | inr later ↦ retain-has slots before s (rw (a, b, retain) at h) later u
              ])
        | inr b ↦
            elim (Bool-cases (
              has_one x.accumulator
              && ltb x.accumulator.first_use x.accumulator.first_materialization)) [
                | inl c ↦ cc (rw (a, b, c, retain) at h)
                | inr c ↦
                    let valid = rw (a, b, c, retain) at h in
                    rw (a, b, c, retain)
                      (elim m [
                        | inl same ↦ (
                          retain-keeps slots (before ++ lifetime_of x ∷ []) (lifetime_of s) valid (
                              (In-append (lifetime_of s) before (lifetime_of x ∷ [])).1
                                (inr (inl (ap lifetime_of same)))),
                          subst (λ y. (lifetime_of y).first_live_step ≤ y.accumulator.first_use)
                              (sym same) (ground (arith, c)),
                        )
                        | inr later ↦
                            retain-has slots (before ++ lifetime_of x ∷ []) s valid later u
                      ])
              ]
      ]
    ]

-- A lifetime of the plan from a step not after the event to one not before it.
pub record Covered (plan : PebblingValueLifetimePlan) (e : PebblingValueEvent) : Type 0 where
  pub lifetime : PebblingValueLifetime
  pub listed : In lifetime plan.lifetimes
  pub same_value : lifetime.value_id ≡ e.value_id
  pub starts : lifetime.first_live_step ≤ e.step
  pub ends : e.step ≤ lifetime.last_use_step

-- In a valid plan, every use of a value falls into a lifetime of that value.
pub cover_lem :
    (step_count : ℕ) (events : List PebblingValueEvent)
    → (compute_always_retained_value_lifetimes step_count events).valid ≡ true
    → (e : PebblingValueEvent) → In e events
    → e.kind ≡ use_value
    → Covered (compute_always_retained_value_lifetimes step_count events) e
unfolding compute_always_retained_value_lifetimes
cover_lem n events h e m k = elim (Option-cases (collect n events [])) [
  | inl f ↦ cc (rw (f, compute_always_retained_value_lifetimes) at h)
  | inr (slots, f) ↦
      let valid : (retain slots []).valid ≡ true =
        rw (f, compute_always_retained_value_lifetimes) at h in
      let a = collect-Accounted n events [] slots e f (inl m) in
      let (from, to, some_use) : (a.slot.accumulator.first_use ≤ e.step)
          × (e.step ≤ a.slot.accumulator.last_use)
          × (0 < a.slot.accumulator.use_count) =
        rw (k, Seen) at a.seen in
      let (listed, starts) = retain-has slots [] a.slot valid a.listed some_use in
      rw (f, compute_always_retained_value_lifetimes)
        (record {
          lifetime = lifetime_of a.slot;
          listed = listed;
          same_value = a.same_value;
          starts = omega (arith, starts, from);
          ends = to;
        })
]
