-- ===== src/Lifetimes/Accounts.antt =====
-- core/pebbling_order.cpp, ComputeAlwaysRetainedValueLifetimes: the loop over the events takes in
-- each of them.
use pto_fusebox.Base.{
  ℕ, ◌+◌, In, ◌≤◌, ◌<◌, min, max, ◌≡◌, refl, sym, ap, ◌∙◌, subst, ◌⊎◌, inl, inr, some, List, [],
  ◌∷◌, arith, ltb, leb, ◌==◌, Bool-cases, ==→eq,
}
use pto_fusebox.Lifetimes.{
  PebblingValueEventKind, materialize, use_value, PebblingValueEvent, Accumulator, fresh, account,
  Slot, update, collect,
}

-- The accumulator has taken in the event.
abbrev pub Seen : Accumulator → PebblingValueEvent → Type 0
Seen a e = elim e.kind [
  | materialize ↦ (a.first_materialization ≤ e.step) × (0 < a.materialization_count)
  | use_value ↦ (a.first_use ≤ e.step) × (e.step ≤ a.last_use) × (0 < a.use_count)
]

pub kind-cases : (k : PebblingValueEventKind) → (k ≡ materialize) ⊎ (k ≡ use_value)
kind-cases materialize = inl refl
kind-cases use_value = inr refl

abbrev materialized : PebblingValueEvent → Accumulator → Accumulator
materialized e a = record a {
  first_materialization = min a.first_materialization e.step;
  materialization_count = a.materialization_count + 1;
}

abbrev used : PebblingValueEvent → Accumulator → Accumulator
used e a = record a {
  first_use = min a.first_use e.step;
  last_use = max a.last_use e.step;
  use_count = a.use_count + 1;
}

account-Seen : (e : PebblingValueEvent) (a : Accumulator) → Seen (account e a) e
unfolding account
account-Seen e a = elim (kind-cases e.kind) [
  | inl k ↦
      let same : account e a ≡ materialized e a = rw (k, account) in
      subst (λ x. Seen x e) (sym same) (rw (k, Seen) (omega arith, omega arith))
  | inr k ↦
      let same : account e a ≡ used e a = rw (k, account) in
      subst (λ x. Seen x e) (sym same) (rw (k, Seen) (omega arith, omega arith, omega arith))
]

Seen-account : (e f : PebblingValueEvent) (a : Accumulator) → Seen a e → Seen (account f a) e
unfolding account
Seen-account e f a s = elim (kind-cases e.kind) [
  | inl k ↦
      let t : (a.first_materialization ≤ e.step) × (0 < a.materialization_count) =
        rw (k, Seen) at s in
      elim (kind-cases f.kind) [
        | inl l ↦ rw (k, l, account, Seen) (omega (arith, t.0), omega arith)
        | inr l ↦ rw (k, l, account, Seen) t
      ]
  | inr k ↦
      let t : (a.first_use ≤ e.step) × (e.step ≤ a.last_use) × (0 < a.use_count) =
        rw (k, Seen) at s in
      elim (kind-cases f.kind) [
        | inl l ↦ rw (k, l, account, Seen) t
        | inr l ↦ rw (k, l, account, Seen) (omega (arith, t.0), omega (arith, t.1), omega arith)
      ]
]

-- The slot of the event's value has taken it in.
pub record Accounted (slots : List Slot) (e : PebblingValueEvent) : Type 0 where
  pub slot : Slot
  pub listed : In slot slots
  pub same_value : slot.value_id ≡ e.value_id
  pub seen : Seen slot.accumulator e

Accounted-cons :
    (s : Slot) (slots : List Slot) (e : PebblingValueEvent)
    → Accounted slots e
    → Accounted (s ∷ slots) e
Accounted-cons s slots e a = record {
  slot = a.slot;
  listed = inr a.listed;
  same_value = a.same_value;
  seen = a.seen;
}

update-Accounted : (e : PebblingValueEvent) (slots : List Slot) → Accounted (update e slots) e
unfolding update
update-Accounted e [] = record {
  slot = _;
  listed = inl refl;
  same_value = refl;
  seen = account-Seen e fresh;
}
update-Accounted e (s ∷ slots) = elim (Bool-cases (s.value_id == e.value_id)) [
  | inl h ↦
      rw (h, update)
        (record {
          slot = record s { accumulator = account e s.accumulator };
          listed = inl refl;
          same_value = ==→eq s.value_id e.value_id h;
          seen = account-Seen e s.accumulator;
        })
  | inr h ↦ elim (Bool-cases (ltb e.value_id s.value_id)) [
    | inl l ↦
        rw (h, l, update)
          (record {
            slot = record { value_id = e.value_id; accumulator = account e fresh };
            listed = inl refl;
            same_value = refl;
            seen = account-Seen e fresh;
          })
    | inr l ↦ rw (h, l, update) (Accounted-cons s (update e slots) e (update-Accounted e slots))
  ]
]

Accounted-update :
    (e f : PebblingValueEvent) (slots : List Slot)
    → Accounted slots e
    → Accounted (update f slots) e
unfolding update
Accounted-update e f [] a = elim a.listed [ ]
Accounted-update e f (s ∷ slots) a = elim (Bool-cases (s.value_id == f.value_id)) [
  | inl h ↦
      rw (h, update)
        (elim a.listed [
          | inl same ↦ record {
            slot = record s { accumulator = account f s.accumulator };
            listed = inl refl;
            same_value = ap (λ (x : Slot). x.value_id) (sym same) ∙ a.same_value;
            seen =
                Seen-account e f s.accumulator
                  (subst (λ (x : Slot). Seen x.accumulator e) same a.seen);
          }
          | inr later ↦ record {
            slot = a.slot;
            listed = inr later;
            same_value = a.same_value;
            seen = a.seen;
          }
        ])
  | inr h ↦ elim (Bool-cases (ltb f.value_id s.value_id)) [
    | inl l ↦ rw (h, l, update) (Accounted-cons _ (s ∷ slots) e a)
    | inr l ↦
        rw (h, l, update)
          (elim a.listed [
            | inl same ↦ record {
              slot = a.slot;
              listed = inl same;
              same_value = a.same_value;
              seen = a.seen;
            }
            | inr later ↦ Accounted-cons s (update f slots) e (
                Accounted-update e f slots (record {
                  slot = a.slot;
                  listed = later;
                  same_value = a.same_value;
                  seen = a.seen;
                }))
          ])
  ]
]

pub collect-Accounted :
    (n : ℕ) (events : List PebblingValueEvent) (slots slots' : List Slot) (e : PebblingValueEvent)
    → collect n events slots ≡ some slots'
    → (In e events ⊎ Accounted slots e)
    → Accounted slots' e
unfolding collect
collect-Accounted n [] slots slots' e h (inl m) = elim m [ ]
collect-Accounted n [] slots slots' e h (inr a) =
    let same : slots ≡ slots' = cc in subst (λ l. Accounted l e) same a
collect-Accounted n (f ∷ events) slots slots' e h m = elim (Bool-cases (leb n f.step)) [
  | inl late ↦ cc (rw (late, collect) at h)
  | inr early ↦
      collect-Accounted n events (update f slots) slots' e (rw (early, collect) at h) (elim m [
        | inl (inl same) ↦
            inr (subst (Accounted (update f slots)) (sym same) (update-Accounted f slots))
        | inl (inr later) ↦ inl later
        | inr a ↦ inr (Accounted-update e f slots a)
      ])
]
