-- ===== src/GroupDag/Explore/Correct.antt =====
-- The searches of core/group_dag.cpp end, and answer whether an event that ends them can be reached.
use pto_fusebox.Base.{
  ℕ, zero, suc, ◌+◌, ◌≤◌, ◌<◌, ◌≡◌, refl, ◌↔◌, ◌⊎◌, inl, inr, Bool, true, false, not, ◌&&◌, ◌||◌,
  some, List, [], ◌∷◌, arith, Bool-cases, eq_or_ne, true_or_false, ==_refl, length, elem, Table,
}
use pto_fusebox.GroupDag.Explore.{Event, Search, explore, search}
use pto_fusebox.GroupDag.Explore.Marks.{
  visits, finds, marked, scan-found, scan-marked, visited-marked, queue-marked, unvisited,
  unvisited-marked,
}

-- The groups that a search gets to: from a seed or from a group that it got to, and not marked at the
-- start.
pub data Reached (closed : Table Bool) (seeds : List Event) (expand : ℕ → List Event)
    : ℕ → Type 0 where
  start : {v : ℕ} → elem (visits seeds) v ≡ true → closed v ≡ false → Reached closed seeds expand v
  onward :
      {u v : ℕ}
      → Reached closed seeds expand u
      → elem (visits (expand u)) v ≡ true
      → closed v ≡ false
      → Reached closed seeds expand v

-- One of them ends the search.
abbrev pub Ends : Table Bool → List Event → (ℕ → List Event) → Type 0
Ends closed seeds expand = (v : ℕ) × Reached closed seeds expand v × (finds (expand v) ≡ true)

unvisited-le : (n : ℕ) (visited : Table Bool) → unvisited n visited ≤ n
unvisited-le zero visited = omega arith
unvisited-le (suc n) visited = ground (arith, unvisited-le n visited)

module _ (n : ℕ) (closed : Table Bool) (seeds : List Event) (expand : ℕ → List Event)
    (inside : (u v : ℕ)
      → Reached closed seeds expand u
      → elem (visits (expand u)) v ≡ true
      → v < n) where
  abbrev IsReached : ℕ → Type 0
  IsReached = Reached closed seeds expand

  record Inv (visited : Table Bool) (queue : List ℕ) : Type 0 where
    origin : (x : ℕ) → visited x ≡ true → (closed x ≡ true) ⊎ IsReached x
    shut : (x : ℕ) → closed x ≡ true → visited x ≡ true
    queued : (x : ℕ) → elem queue x ≡ true → IsReached x × (visited x ≡ true)
    seeded : (x : ℕ) → elem (visits seeds) x ≡ true → visited x ≡ true
    done :
        (x : ℕ)
        → visited x ≡ true
        → closed x ≡ false
        → elem queue x ≡ false
        → (finds (expand x) ≡ false)
          × ((y : ℕ) → elem (visits (expand x)) y ≡ true → visited y ≡ true)

  next-Inv :
      (cur : ℕ) (queue : List ℕ) (s : Search)
      → Inv s.visited (cur ∷ queue)
      → finds (expand cur) ≡ false
      → let s' = marked (expand cur) (record s { queue = queue }) in Inv s'.visited s'.queue
  next-Inv cur queue s v e =
      let bare : Search = record s { queue = queue } in
      let here = v.queued cur (ground (arith, ==_refl cur)) in
      let vis : (x : ℕ)
          → (marked (expand cur) bare).visited x ≡ (s.visited x || elem (visits (expand cur)) x) =
        λ x. visited-marked (expand cur) bare x e in
      let que : (x : ℕ)
          → elem (marked (expand cur) bare).queue x
            ≡ (elem queue x || elem (visits (expand cur)) x && not (s.visited x)) =
        λ x. queue-marked (expand cur) bare x e in
      record {
        origin = λ x h. elim (Bool-cases (s.visited x)) [
          | inl old ↦ v.origin x old
          | inr new ↦ elim (Bool-cases (closed x)) [
            | inl c ↦ inl c
            | inr c ↦ inr (onward here.0 (ground (arith, vis x)) c)
          ]
        ];
        shut = λ x c. ground (arith, vis x, v.shut x c);
        queued = λ x h. elim (Bool-cases (elem queue x)) [
          | inl old ↦
              let (r, seen) = v.queued x (ground (arith, old)) in (r, ground (arith, vis x, seen))
          | inr new ↦
              let fresh : (elem (visits (expand cur)) x ≡ true) × (s.visited x ≡ false) =
                ground (arith, que x, h, new) in
              let open_x : closed x ≡ false = ground (arith, v.shut x, fresh.1) in
              (onward here.0 fresh.0 open_x, ground (arith, vis x, fresh.0))
        ];
        seeded = λ x h. ground (arith, vis x, v.seeded x h);
        done = λ x h c out. elim (eq_or_ne x cur) [
          | inl same ↦ rw same (e, λ y i. ground (arith, vis y, i))
          | inr ne ↦
              let old : s.visited x ≡ true = ground (arith, vis x, h, que x, out) in
              let (quiet, all) = v.done x old c (ground (arith, que x, out)) in
              (quiet, λ y i. ground (arith, vis y, all y i))
        ];
      }

  pub not_closed : (x : ℕ) → IsReached x → closed x ≡ false
  not_closed x (start i c) = c
  not_closed x (onward r i c) = c

  -- When the queue is empty, all that can be reached is visited.
  visited_of_reached :
      (visited : Table Bool) → Inv visited [] → (x : ℕ) → IsReached x → visited x ≡ true
  visited_of_reached visited v x (start i c) = v.seeded x i
  visited_of_reached visited v x (onward {u} r i c) =
      (v.done u (visited_of_reached visited v u r) (not_closed u r) refl).1 x i

  explore_returns :
      (fuel : ℕ) (queue : List ℕ) (s : Search)
      → Inv s.visited queue
      → unvisited n s.visited + length queue ≤ fuel
      → (b : Bool) × (explore expand fuel queue s ≡ some b)
        × ((b ≡ true) ↔ Ends closed seeds expand)
  unfolding explore
  explore_returns fuel [] s v h = (
    false,
    refl,
    (
      λ e. cc,
      λ (x, r, f).
          absurd (
            true_or_false f
              (v.done x (visited_of_reached s.visited v x r) (not_closed x r) refl).0),
    ),
  )
  explore_returns zero (cur ∷ queue) s v h = absurd (omega arith)
  explore_returns (suc fuel) (cur ∷ queue) s v h =
      let (r, _) = v.queued cur (ground (arith, ==_refl cur)) in
      let bare : Search = record s { queue = queue } in
      elim (Bool-cases (finds (expand cur))) [
        | inl e ↦ (true, rw (scan-found (expand cur) bare e) refl, (λ _. (cur, r, e), λ _. refl))
        | inr e ↦
            let count = unvisited-marked n (expand cur) bare (λ y i. inside cur y r i) in
            let (b, runs, iff) =
              explore_returns fuel (marked (expand cur) bare).queue (marked (expand cur) bare)
                (next-Inv cur queue s v e) (omega arith) in
            (b, rw (scan-marked (expand cur) bare e) runs, iff)
      ]

  start-Inv :
      finds seeds ≡ false
      → let s = marked seeds (record { visited = closed; queue = [] }) in Inv s.visited s.queue
  start-Inv e =
      let bare : Search = record { visited = closed; queue = [] } in
      let vis : (x : ℕ) → (marked seeds bare).visited x ≡ (closed x || elem (visits seeds) x) =
        λ x. visited-marked seeds bare x e in
      let que : (x : ℕ)
          → elem (marked seeds bare).queue x ≡ (elem (visits seeds) x && not (closed x)) =
        λ x. queue-marked seeds bare x e in
      record {
        origin = λ x h. elim (Bool-cases (closed x)) [
          | inl c ↦ inl c
          | inr c ↦ inr (start (ground (arith, vis x)) c)
        ];
        shut = λ x c. ground (arith, vis x);
        queued = λ x h.
            (start (ground (arith, que x)) (ground (arith, que x)), ground (arith, vis x, que x));
        seeded = λ x h. ground (arith, vis x);
        done = λ x h c out. absurd (
            true_or_false {b = elem (marked seeds bare).queue x} (ground (arith, vis x, que x))
              out);
      }

  -- If the seeds end no search and name groups below `n`, the search answers, and it answers true
  -- exactly if it gets to a group that ends it.
  pub search_lem :
      finds seeds ≡ false
      → ((v : ℕ) → elem (visits seeds) v ≡ true → v < n)
      → (b : Bool) × (search n closed seeds expand ≡ some b)
        × ((b ≡ true) ↔ Ends closed seeds expand)
  unfolding search
  search_lem e below =
      let bare : Search = record { visited = closed; queue = [] } in
      let count = unvisited-marked n seeds bare below in
      let (b, runs, iff) =
        explore_returns n (marked seeds bare).queue (marked seeds bare) (start-Inv e)
          (omega (arith, unvisited-le n closed)) in
      (b, rw (scan-marked seeds bare e) runs, iff)
