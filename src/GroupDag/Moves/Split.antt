-- ===== src/GroupDag/Moves/Split.antt =====
-- core/group_dag.cpp: what `eval_split` answers.
use pto_fusebox.Base.{
  ℕ, ◌≡◌, refl, sym, ◌∙◌, subst, ◌≢◌, ◌↔◌, inl, inr, Bool, true, false, not, ◌&&◌, some, List, [],
  ◌∷◌, arith, leb, ◌==◌, Bool-cases, eq_or_ne, true_or_false, ==_refl, ==-eq-false, elem, Table,
}
use pto_fusebox.FlatSet.{FlatSet}
use pto_fusebox.Dag.Graph.{Walk, here, step}
use pto_fusebox.Partition.{Partition, group_at}
use pto_fusebox.GroupDag.{GroupDag}
use pto_fusebox.GroupDag.Edges.{IsMirrored}
use pto_fusebox.GroupDag.Explore.{Event}
use pto_fusebox.GroupDag.Explore.Marks.{visits, finds}
use pto_fusebox.GroupDag.Explore.Correct.{Reached, start, onward, Ends, search_lem}
use pto_fusebox.GroupDag.Queries.Reach.{append_step}
use pto_fusebox.GroupDag.Moves.{visit_alive, split_events, eval_split}

module _ (part : Partition) where
  pub finds-visit_alive : (gs : List ℕ) → finds (visit_alive part gs) ≡ false
  unfolding visit_alive
  finds-visit_alive [] = refl
  finds-visit_alive (gc ∷ gs) = elim (Bool-cases (group_at part gc).alive) [
    | inl e ↦ rw e (finds-visit_alive gs)
    | inr e ↦ rw e (finds-visit_alive gs)
  ]

  pub elem-visit_alive :
      (gs : List ℕ) (x : ℕ)
      → elem (visits (visit_alive part gs)) x ≡ (elem gs x && (group_at part x).alive)
  unfolding visit_alive
  elem-visit_alive [] x = refl
  elem-visit_alive (gc ∷ gs) x = elim (eq_or_ne x gc) [
    | inl same ↦ elim (Bool-cases (group_at part gc).alive) [
      | inl e ↦ rw (same, e) (ground (arith, ==_refl gc))
      | inr e ↦ rw (same, e) (ground (arith, elem-visit_alive gs gc, e))
    ]
    | inr ne ↦ elim (Bool-cases (group_at part gc).alive) [
      | inl e ↦ rw e (ground (arith, elem-visit_alive gs x, ne))
      | inr e ↦ rw e (ground (arith, elem-visit_alive gs x, ne))
    ]
  ]

  finds-split_events : (ga : ℕ) (gs : List ℕ) → finds (split_events part ga gs) ≡ elem gs ga
  unfolding split_events
  finds-split_events ga [] = refl
  finds-split_events ga (gj ∷ gs) = elim (eq_or_ne gj ga) [
    | inl e ↦ ground arith
    | inr ne ↦ elim (Bool-cases (group_at part gj).alive) [
      | inl e ↦ rw (==-eq-false _ _ ne, e) (ground (arith, finds-split_events ga gs))
      | inr e ↦ rw (==-eq-false _ _ ne, e) (ground (arith, finds-split_events ga gs))
    ]
  ]

  elem-split_events :
      (ga : ℕ) (gs : List ℕ) (x : ℕ)
      → elem (visits (split_events part ga gs)) x
        ≡ (elem gs x && not (x == ga) && (group_at part x).alive)
  unfolding split_events
  elem-split_events ga [] x = refl
  elem-split_events ga (gj ∷ gs) x = elim (eq_or_ne gj ga) [
    | inl e ↦ rw e (ground (arith, elem-split_events ga gs x))
    | inr ne ↦ elim (eq_or_ne x gj) [
      | inl same ↦ elim (Bool-cases (group_at part gj).alive) [
        | inl e ↦ rw (same, ==-eq-false _ _ ne, e) (ground (arith, ==_refl gj))
        | inr e ↦ rw (same, ==-eq-false _ _ ne, e) (ground (arith, elem-split_events ga gs gj, e))
      ]
      | inr other ↦ elim (Bool-cases (group_at part gj).alive) [
        | inl e ↦ rw (==-eq-false _ _ ne, e) (ground (arith, elem-split_events ga gs x, other))
        | inr e ↦ rw (==-eq-false _ _ ne, e) (ground (arith, elem-split_events ga gs x, other))
      ]
    ]
  ]

module _ (part : Partition) (g : GroupDag) (m : IsMirrored g)
    (alive : (u v : ℕ) → elem (g.succs u) v ≡ true → (group_at part v).alive ≡ true) (ga : ℕ) where
  abbrev closed : Table Bool
  closed x = x == ga

  abbrev seeds : List Event
  seeds = visit_alive part (g.succs ga)

  abbrev expand : ℕ → List Event
  expand cur = split_events part ga (g.succs cur)

  -- The group lies on a cycle.
  abbrev pub OnCycle : Type 0
  OnCycle = (w : ℕ) × (elem (g.succs ga) w ≡ true) × Walk g.succs w ga

  Reached-Walk :
      (v : ℕ)
      → Reached closed seeds expand v
      → (w : ℕ) × (elem (g.succs ga) w ≡ true) × Walk g.succs w v
  Reached-Walk v (start i c) = (v, ground (arith, elem-visit_alive part (g.succs ga) v), here)
  Reached-Walk v (onward {u} r i c) =
      let (w, edge, walk) = Reached-Walk u r in
      (w, edge, append_step walk (ground (arith, elem-split_events part ga (g.succs u) v)))

  Walk-Ends :
      (u : ℕ)
      → Walk g.succs u ga
      → Reached closed seeds expand u
      → u ≢ ga
      → Ends closed seeds expand
  Walk-Ends u here r ne = absurd (ne refl)
  Walk-Ends u (step {v = v} edge rest) r ne = elim (eq_or_ne v ga) [
    | inl e ↦ (
      u,
      r,
      finds-split_events part ga (g.succs u) ∙ subst (λ z. elem (g.succs u) z ≡ true) e edge,
    )
    | inr other ↦
        Walk-Ends v rest
          (onward r
            (elem-split_events part ga (g.succs u) v ∙ ground (arith, alive u v edge, edge, other))
            (==-eq-false v ga other))
          other
  ]

  -- On mirrored edges between groups that are alive, and for a group without an edge to itself,
  -- `eval_split` ends, and it answers true exactly if the group already lies on a cycle, whatever the
  -- two sides are.
  pub eval_split_iff :
      (side_a side_b : FlatSet)
      → elem (g.succs ga) ga ≡ false
      → (b : Bool) × (eval_split part g side_a side_b ga ≡ some b) × ((b ≡ true) ↔ OnCycle)
  unfolding eval_split
  eval_split_iff side_a side_b loopless = elim (Bool-cases (leb g.size ga)) [
    | inl e ↦ (
      false,
      rw e refl,
      (λ h. cc, λ (w, edge, _). absurd (ground (arith, e, m.inside ga w edge))),
    )
    | inr e ↦
        let (b, runs, (sound, complete)) =
          search_lem g.size closed seeds expand
            (λ u v r i. (m.inside u v (ground (arith, elem-split_events part ga (g.succs u) v))).1)
            (finds-visit_alive part (g.succs ga))
            (λ v i. (m.inside ga v (ground (arith, elem-visit_alive part (g.succs ga) v))).1) in
        (
          b,
          rw e runs,
          (
            λ h.
                let (v, r, f) = sound h in
                let (w, edge, walk) = Reached-Walk v r in
                (w, edge, append_step walk (sym (finds-split_events part ga (g.succs v)) ∙ f)),
            λ (w, edge, walk).
                let other : w ≢ ga = λ same.
                  true_or_false (subst (λ z. elem (g.succs ga) z ≡ true) same edge) loopless in
                complete (
                  Walk-Ends w walk
                    (start
                      (elem-visit_alive part (g.succs ga) w ∙ ground (arith, alive ga w edge, edge))
                      (==-eq-false w ga other))
                    other),
          ),
        )
  ]
