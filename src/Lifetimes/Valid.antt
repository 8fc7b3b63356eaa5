-- ===== src/Lifetimes/Valid.antt =====
-- core/pebbling_order.cpp, ComputeAlwaysRetainedValueLifetimes: when the plan is valid.
use pto_fusebox.Base.{
  ℕ, ◌+◌, In, ◌≤◌, ◌<◌, min, max, ◌≡◌, refl, sym, ◌∙◌, subst, ◌⊎◌, inl, inr, Bool, true, false,
  ◌&&◌, some, List, [], ◌∷◌, ◌++◌, arith, ltb, leb, ◌==◌, if◌then◌else◌, Bool-cases, ==→eq, All,
}
use pto_fusebox.Lifetimes.{
  PebblingValueEventKind, materialize, use_value, PebblingValueEvent, PebblingValueLifetime,
  max_size, Accumulator, fresh, account, Slot, update, collect, has_one, lifetime_of, retain,
  compute_always_retained_value_lifetimes,
}
use pto_fusebox.Lifetimes.Accounts.{kind-cases}

abbrev is_materialize : PebblingValueEventKind → Bool
is_materialize materialize = true
is_materialize use_value = false

-- How often the value is materialized.
abbrev pub count_materializations : ℕ → List PebblingValueEvent → ℕ
count_materializations v [] = 0
count_materializations v (e ∷ events) =
    (if e.value_id == v && is_materialize e.kind then 1 else 0) + count_materializations v events

-- All events are steps of the schedule, no value is materialized twice, and none is used before it is
-- materialized.
pub record Retainable (step_count : ℕ) (events : List PebblingValueEvent) : Type 0 where
  pub steps : (e : PebblingValueEvent) → In e events → e.step < step_count
  pub once : (v : ℕ) → count_materializations v events ≤ 1
  pub before :
      (e f : PebblingValueEvent)
      → In e events
      → In f events
      → e.kind ≡ materialize
      → f.kind ≡ use_value
      → e.value_id ≡ f.value_id
      → e.step ≤ f.step

module _ (all : List PebblingValueEvent) where
  -- What the accumulator of a slot holds comes from events of the list.
  record Backed (rest : List PebblingValueEvent) (s : Slot) : Type 0 where
    pub counted :
        s.accumulator.materialization_count + count_materializations s.value_id rest
        ≤ count_materializations s.value_id all
    pub low : s.accumulator.first_materialization ≤ max_size
    pub materialized_at :
        0 < s.accumulator.materialization_count
        → (e : PebblingValueEvent) × In e all
          × (e.kind ≡ materialize)
          × (e.value_id ≡ s.value_id)
          × (s.accumulator.first_materialization ≤ e.step)
    pub used_at :
        (s.accumulator.first_use ≡ max_size)
        ⊎ ((f : PebblingValueEvent) × In f all
            × (f.kind ≡ use_value)
            × (f.value_id ≡ s.value_id)
            × (f.step ≡ s.accumulator.first_use))

  abbrev slot : ℕ → Accumulator → Slot
  slot v a = record { value_id = v; accumulator = a }

  Backed-pass :
      (e : PebblingValueEvent) (rest : List PebblingValueEvent) (s : Slot)
      → Backed (e ∷ rest) s
      → Backed rest s
  Backed-pass e rest s b = record {
    counted = omega (arith, b.counted);
    low = b.low;
    materialized_at = b.materialized_at;
    used_at = b.used_at;
  }

  Backed-account :
      (e : PebblingValueEvent) (rest : List PebblingValueEvent) (a : Accumulator)
      → In e all
      → Backed (e ∷ rest) (slot e.value_id a)
      → Backed rest (slot e.value_id (account e a))
  unfolding account
  Backed-account e rest a m b = elim (kind-cases e.kind) [
    | inl k ↦
        let same : account e a ≡ record a {
          first_materialization = min a.first_materialization e.step;
          materialization_count = a.materialization_count + 1;
        } =
          rw (k, account) in
        subst (λ x. Backed rest (slot e.value_id x)) (sym same)
          (record {
            counted = ground (arith, b.counted, k);
            low = omega (arith, b.low);
            materialized_at = λ h. (e, m, k, refl, omega arith);
            used_at = b.used_at;
          })
    | inr k ↦
        let same : account e a ≡ record a {
          first_use = min a.first_use e.step;
          last_use = max a.last_use e.step;
          use_count = a.use_count + 1;
        } =
          rw (k, account) in
        let pass = Backed-pass e rest (slot e.value_id a) b in
        subst (λ x. Backed rest (slot e.value_id x)) (sym same)
          (record {
            counted = pass.counted;
            low = b.low;
            materialized_at = b.materialized_at;
            used_at = elim (Bool-cases (leb a.first_use e.step)) [
              | inl early ↦
                  let kept : a.first_use ≡ min a.first_use e.step = ground arith in
                  elim b.used_at [
                    | inl none_yet ↦ inl (sym kept ∙ none_yet)
                    | inr (f, n, l, v, at) ↦ inr (f, n, l, v, at ∙ kept)
                  ]
              | inr late ↦ inr (e, m, k, refl, ground arith)
            ];
          })
  ]

  Backed-fresh :
      (rest : List PebblingValueEvent) (v : ℕ)
      → count_materializations v rest ≤ count_materializations v all
      → Backed rest (slot v fresh)
  Backed-fresh rest v h = record {
    counted = omega (arith, h);
    low = omega arith;
    materialized_at = λ p. absurd (omega (arith, p));
    used_at = inl refl;
  }

  All-pass :
      (e : PebblingValueEvent) (rest : List PebblingValueEvent) (slots : List Slot)
      → All (Backed (e ∷ rest)) slots
      → All (Backed rest) slots
  All-pass e rest [] b = tt
  All-pass e rest (s ∷ slots) b = (Backed-pass e rest s b.0, All-pass e rest slots b.1)

  update-Backed :
      (e : PebblingValueEvent) (rest : List PebblingValueEvent) (slots : List Slot)
      → In e all
      → ((v : ℕ) → count_materializations v (e ∷ rest) ≤ count_materializations v all)
      → All (Backed (e ∷ rest)) slots
      → All (Backed rest) (update e slots)
  unfolding update
  update-Backed e rest [] m c b =
      (Backed-account e rest fresh m (Backed-fresh (e ∷ rest) e.value_id (c e.value_id)), tt)
  update-Backed e rest (s ∷ slots) m c b =
      let new = Backed-account e rest fresh m (Backed-fresh (e ∷ rest) e.value_id (c e.value_id)) in
      elim (Bool-cases (s.value_id == e.value_id)) [
        | inl h ↦
            let same = ==→eq s.value_id e.value_id h in
            let own =
              Backed-account e rest s.accumulator m
                (subst (λ v. Backed (e ∷ rest) (slot v s.accumulator)) same b.0) in
            rw (h, update)
              (
                subst (λ v. Backed rest (slot v (account e s.accumulator))) (sym same) own,
                All-pass e rest slots b.1,
              )
        | inr h ↦ elim (Bool-cases (ltb e.value_id s.value_id)) [
          | inl l ↦ rw (h, l, update) (new, All-pass e rest (s ∷ slots) b)
          | inr l ↦ rw (h, l, update) (Backed-pass e rest s b.0, update-Backed e rest slots m c b.1)
        ]
      ]

  -- The loop over the events returns, and what it returns is backed.
  collect-Backed :
      (n : ℕ) (events : List PebblingValueEvent) (slots : List Slot)
      → ((e : PebblingValueEvent) → In e events → In e all × (e.step < n))
      → ((v : ℕ) → count_materializations v events ≤ count_materializations v all)
      → All (Backed events) slots
      → (slots' : List Slot) × (collect n events slots ≡ some slots') × All (Backed []) slots'
  unfolding collect
  collect-Backed n [] slots h c b = (slots, refl, b)
  collect-Backed n (e ∷ events) slots h c b =
      let (m, early) = h e (inl refl) in
      let (slots', runs, b') =
        collect-Backed n events (update e slots) (λ f k. h f (inr k)) (λ v. omega (arith, c v))
          (update-Backed e events slots m c b) in
      let in_time : leb n e.step ≡ false = ground (arith, early) in
      (slots', rw (in_time, collect) runs, b')

  retain_valid :
      (n : ℕ)
      → Retainable n all
      → (slots : List Slot) (lifetimes : List PebblingValueLifetime) → All (Backed []) slots
      → (retain slots lifetimes).valid ≡ true
  unfolding retain
  retain_valid n r [] lifetimes b = refl
  retain_valid n r (s ∷ slots) lifetimes b =
      let a = s.accumulator in
      let once : ltb 1 a.materialization_count ≡ false =
        ground (arith, b.0.counted, r.once s.value_id) in
      let in_order : (has_one a && ltb a.first_use a.first_materialization) ≡ false =
        elim (Bool-cases (has_one a)) [
          | inr other ↦ rw other refl
          | inl one ↦
              let (e, m, k, v, at) = b.0.materialized_at (ground (arith, one)) in
              elim b.0.used_at [
                | inl none_yet ↦ ground (arith, b.0.low, none_yet)
                | inr (f, m', k', v', at') ↦
                    ground (arith, at, at', r.before e f m m' k k' (v ∙ sym v'))
              ]
        ] in
      elim (Bool-cases (a.use_count == 0)) [
        | inl unused ↦ rw (once, unused, retain) (retain_valid n r slots lifetimes b.1)
        | inr some_use ↦
            rw (once, some_use, in_order, retain)
              (retain_valid n r slots (lifetimes ++ lifetime_of s ∷ []) b.1)
      ]

-- The plan is valid when all events lie in the schedule, no value is materialized twice, and no
-- value is used before it is materialized.
pub valid_lem :
    (step_count : ℕ) (events : List PebblingValueEvent)
    → Retainable step_count events
    → (compute_always_retained_value_lifetimes step_count events).valid ≡ true
unfolding compute_always_retained_value_lifetimes
valid_lem n events r =
    let (slots, runs, b) =
      collect-Backed events n events [] (λ e m. (m, r.steps e m)) (λ v. omega arith) tt in
    rw (runs, compute_always_retained_value_lifetimes) (retain_valid events n r slots [] b)
