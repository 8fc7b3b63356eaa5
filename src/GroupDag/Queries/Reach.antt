-- ===== src/GroupDag/Queries/Reach.antt =====
-- core/group_dag.cpp: `can_reach` answers whether there is a walk.
use pto_fusebox.Base.{
  ℕ, ◌≤◌, ◌<◌, ◌≡◌, refl, sym, ◌∙◌, subst, ◌≢◌, ◌↔◌, inl, inr, Bool, true, false, not, ◌&&◌, ◌||◌,
  some, List, [], ◌∷◌, arith, ltb, leb, ◌==◌, Bool-cases, Option-cases, eq_or_ne, above_leb,
  true_or_false, ==_refl, ==-eq-false, elem, Table,
}
use pto_fusebox.Dag.Graph.{Walk, here, step}
use pto_fusebox.Partition.{Partition}
use pto_fusebox.GroupDag.{GroupDag}
use pto_fusebox.GroupDag.Edges.{IsMirrored}
use pto_fusebox.GroupDag.Order.Valid.{HasOrder}
use pto_fusebox.GroupDag.Explore.{Event, search}
use pto_fusebox.GroupDag.Explore.Marks.{visits, finds}
use pto_fusebox.GroupDag.Explore.Correct.{Reached, start, onward, Ends, search_lem}
use pto_fusebox.GroupDag.Queries.{not_after, reach_events, can_reach}

pub append_step :
    {succs : Table (List ℕ)} {u v w : ℕ} → Walk succs u v → elem (succs v) w ≡ true → Walk succs u w
append_step here e = step e here
append_step (step f w) e = step f (append_step w e)

finds-reach_events :
    (g : GroupDag) (from to : ℕ) (gs : List ℕ) → finds (reach_events g from to gs) ≡ elem gs to
unfolding reach_events
finds-reach_events g from to [] = refl
finds-reach_events g from to (gj ∷ gs) = elim (eq_or_ne gj to) [
  | inl e ↦ ground arith
  | inr ne ↦ elim (Bool-cases (ltb gj g.size && not (not_after g gj from))) [
    | inl f ↦ rw (==-eq-false _ _ ne, f) (ground (arith, finds-reach_events g from to gs))
    | inr f ↦ rw (==-eq-false _ _ ne, f) (ground (arith, finds-reach_events g from to gs))
  ]
]

-- What the loop visits: the successors in range, save the goal and those that come before `from`.
elem-reach_events :
    (g : GroupDag) (from to : ℕ) (gs : List ℕ) (x : ℕ)
    → elem (visits (reach_events g from to gs)) x
      ≡ (elem gs x && not (x == to) && ltb x g.size && not (not_after g x from))
unfolding reach_events
elem-reach_events g from to [] x = refl
elem-reach_events g from to (gj ∷ gs) x = elim (eq_or_ne gj to) [
  | inl e ↦ rw (reach_events, e) (ground (arith, elem-reach_events g from to gs x))
  | inr ne ↦ elim (Bool-cases (ltb gj g.size && not (not_after g gj from))) [
    | inl f ↦ elim (eq_or_ne x gj) [
      | inl same ↦ rw (same, ==-eq-false _ _ ne, f) (ground (arith, f, ==_refl gj))
      | inr other ↦ rw (==-eq-false _ _ ne, f) (ground (arith, elem-reach_events g from to gs x))
    ]
    | inr f ↦ elim (eq_or_ne x gj) [
      | inl same ↦
          rw (same, ==-eq-false _ _ ne, f) (ground (arith, elem-reach_events g from to gs gj, f))
      | inr other ↦ rw (==-eq-false _ _ ne, f) (ground (arith, elem-reach_events g from to gs x))
    ]
  ]
]

module _ (part : Partition) (g : GroupDag) (m : IsMirrored g) (o : HasOrder part g) where
  -- Along a walk to a group that has a position the positions do not fall.
  pub Walk-pos :
      (u v i : ℕ)
      → Walk g.succs u v
      → g.topo_pos v ≡ some i
      → (j : ℕ) × (j ≤ i) × (g.topo_pos u ≡ some j)
  Walk-pos u v i here e = (i, omega arith, e)
  Walk-pos u v i (step {v = w} edge rest) e =
      let (k, le, p) = Walk-pos w v i rest e in
      let (j, lt, q) = o.earlier u w k edge p in (j, omega arith, q)

  -- Behind an edge they rise.
  not_after-edge :
      (u v w : ℕ) → Walk g.succs u v → elem (g.succs v) w ≡ true → not_after g w u ≡ false
  not_after-edge u v w walk edge = elim (Option-cases (g.topo_pos w)) [
    | inl e ↦ rw e refl
    | inr (i, e) ↦
        let (k, lt, p) = o.earlier v w i edge e in
        let (j, le, q) = Walk-pos u v k walk p in rw (e, q) (above_leb i j (omega arith))
  ]

  pub not_after-Walk : (u w : ℕ) → Walk g.succs u w → u ≢ w → not_after g w u ≡ false
  not_after-Walk u w here ne = absurd (ne refl)
  not_after-Walk u w (step {v = v} edge rest) ne = elim (Option-cases (g.topo_pos w)) [
    | inl e ↦ rw e refl
    | inr (i, e) ↦
        let (k, le, p) = Walk-pos v w i rest e in
        let (j, lt, q) = o.earlier u v k edge p in rw (e, q) (above_leb i j (omega arith))
  ]

  same_group :
      (from to : ℕ)
      → (leb g.size from || leb g.size to) ≡ false
      → from ≡ to
      → can_reach g from to ≡ some true
  unfolding can_reach
  same_group from to e same = rw (e, same, ==_refl to) refl

  module _ (from to : ℕ) (apart : from ≢ to) (from_inside : from < g.size) where
    abbrev expand : ℕ → List Event
    expand cur = reach_events g from to (g.succs cur)

    abbrev seeds : List Event
    seeds = Event.visit from ∷ []

    Reached-Walk : (v : ℕ) → Reached (λ x. false) seeds expand v → Walk g.succs from v
    Reached-Walk v (start i c) = subst (λ z. Walk g.succs from z) (ground arith) here
    Reached-Walk v (onward {u} r i c) =
        append_step (Reached-Walk u r) (ground (arith, elem-reach_events g from to (g.succs u) v))

    Walk-Ends :
        (u : ℕ)
        → Walk g.succs u to
        → Reached (λ x. false) seeds expand u
        → u ≢ to
        → Ends (λ x. false) seeds expand
    Walk-Ends u here r ne = absurd (ne refl)
    Walk-Ends u (step {v = v} edge rest) r ne = elim (eq_or_ne v to) [
      | inl e ↦ (
        u,
        r,
        finds-reach_events g from to (g.succs u) ∙ subst (λ z. elem (g.succs u) z ≡ true) e edge,
      )
      | inr other ↦
          let later = not_after-edge from u v (Reached-Walk u r) edge in
          let inside = m.inside u v edge in
          let seen : elem (visits (expand u)) v ≡ true =
            elem-reach_events g from to (g.succs u) v ∙ ground (arith, later) in
          Walk-Ends v rest (onward r seen refl) other
    ]

    searched_lem :
        (b : Bool) × (search g.size (λ x. false) seeds expand ≡ some b)
        × ((b ≡ true) ↔ Walk g.succs from to)
    searched_lem =
        let (b, runs, (sound, complete)) =
          search_lem g.size (λ x. false) seeds expand
            (λ u v r i. ground (arith, elem-reach_events g from to (g.succs u) v)) refl
            (λ v i. ground arith) in
        (
          b,
          runs,
          (
            λ h.
                let (v, r, f) = sound h in
                append_step (Reached-Walk v r) (sym (finds-reach_events g from to (g.succs v)) ∙ f),
            λ w. complete (Walk-Ends from w (start (ground (arith, ==_refl from)) refl) apart),
          ),
        )

  -- On mirrored edges with a valid order, `can_reach` ends, and it answers true exactly if both groups
  -- exist and a walk, which may be empty, leads from the first to the second.
  pub can_reach_iff :
      (from to : ℕ)
      → (b : Bool) × (can_reach g from to ≡ some b)
        × ((b ≡ true) ↔ ((from < g.size) × (to < g.size) × Walk g.succs from to))
  unfolding can_reach
  can_reach_iff from to = elim (Bool-cases (leb g.size from || leb g.size to)) [
    | inl e ↦ (false, rw e refl, (λ h. cc, λ (p, q, w). absurd (ground (arith, e))))
    | inr e ↦ elim (eq_or_ne from to) [
      | inl same ↦
          let inside : (from < g.size) × (to < g.size) = ground (arith, e) in
          (
            true,
            same_group from to e same,
            (λ _. (inside.0, inside.1, subst (λ z. Walk g.succs from z) same here), λ _. refl),
          )
      | inr apart ↦ elim (Bool-cases (not_after g to from)) [
        | inl f ↦ (
          false,
          rw (e, ==-eq-false _ _ apart, f) refl,
          (λ h. cc, λ (p, q, w). absurd (true_or_false f (not_after-Walk from to w apart))),
        )
        | inr f ↦
            let inside : (from < g.size) × (to < g.size) = ground (arith, e) in
            let (b, runs, (sound, complete)) = searched_lem from to apart inside.0 in
            (
              b,
              rw (e, ==-eq-false _ _ apart, f) runs,
              (λ h. (inside.0, inside.1, sound h), λ (p, q, w). complete w),
            )
      ]
    ]
  ]
