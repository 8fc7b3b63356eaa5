-- ===== src/Pebbling/Run.antt =====
-- core/pebbling_order.cpp, DfsPostOrderStrategy: the loops, and the order that they return.
use pto_fusebox.Base.{
  ℕ, zero, suc, ◌+◌, ◌≤◌, ◌≡◌, refl, ap, ◌∙◌, subst, inl, inr, true, false, ◌||◌, some, List, [],
  ◌∷◌, arith, Bool-cases, Option-cases, eq_or_ne, length, elem,
}
use pto_fusebox.Dag.Graph.{IsAcyclic}
use pto_fusebox.Pebbling.{PebblingOrderNode, find_node, is_node, arrange, Entry, Search, run_stack}
use pto_fusebox.Pebbling.Stack.{length-arrange, on_stack, on_stack-push, length-push}
use pto_fusebox.Pebbling.Needs.{node_preds, Needed-is_node, weight, weight-expand}
use pto_fusebox.Pebbling.Order.{
  Inv, entry, skip-Inv, finished, finish-Inv, expanded_stack, expand-Inv,
}

find_node-some :
    (nodes : List PebblingOrderNode) (x : ℕ)
    → is_node nodes x ≡ true
    → (node : PebblingOrderNode) × (find_node nodes x ≡ some node)
find_node-some nodes x h = elim (Option-cases (find_node nodes x)) [
  | inl e ↦ cc (rw (e, is_node) at h)
  | inr found ↦ found
]

module _ (nodes : List PebblingOrderNode) (roots : List ℕ) (a : IsAcyclic (node_preds nodes)) where
  -- The run ends with an empty stack, and has visited all that was on the stack.
  abbrev pub Returns : ℕ → List Entry → Search → Type 0
  Returns fuel stack s =
      (s' : Search) × (run_stack nodes fuel stack s ≡ some s')
      × Inv nodes roots a s' []
      × ((x : ℕ) → (elem s.visited x || on_stack stack x) ≡ true → elem s'.visited x ≡ true)

  run_finish :
      (fuel : ℕ) (e : Entry) (stack : List Entry) (s : Search)
      → e.expanded ≡ true
      → run_stack nodes (suc fuel) (e ∷ stack) s
        ≡ run_stack nodes fuel stack (finished nodes roots a s e.node_id)
  unfolding run_stack
  run_finish fuel e stack s h = rw (h, run_stack)

  run_skip :
      (fuel : ℕ) (e : Entry) (stack : List Entry) (s : Search)
      → e.expanded ≡ false
      → elem s.visited e.node_id ≡ true
      → run_stack nodes (suc fuel) (e ∷ stack) s ≡ run_stack nodes fuel stack s
  unfolding run_stack
  run_skip fuel e stack s h m = rw (h, m, run_stack)

  run_expand :
      (fuel : ℕ) (e : Entry) (stack : List Entry) (s : Search) (node : PebblingOrderNode)
      → e.expanded ≡ false
      → elem s.visited e.node_id ≡ false
      → find_node nodes e.node_id ≡ some node
      → run_stack nodes (suc fuel) (e ∷ stack) s
        ≡ run_stack nodes fuel
            (expanded_stack nodes roots a s e.node_id node stack)
            (record s { visited = e.node_id ∷ s.visited })
  unfolding run_stack
  run_expand fuel e stack s node h m found = rw (h, m, found, run_stack)

  run_empty : (fuel : ℕ) (s : Search) → run_stack nodes fuel [] s ≡ some s
  unfolding run_stack
  run_empty fuel s = refl

  -- From the run after one round to the run with it.
  Returns-finish :
      (fuel : ℕ) (e : Entry) (stack : List Entry) (s : Search)
      → e.expanded ≡ true
      → elem s.visited e.node_id ≡ true
      → Returns fuel stack (finished nodes roots a s e.node_id)
      → Returns (suc fuel) (e ∷ stack) s
  Returns-finish fuel e stack s h m (s', runs, v', all) = (
    s',
    run_finish fuel e stack s h ∙ runs,
    v',
    λ x p. elim (eq_or_ne x e.node_id) [
      | inl same ↦ all x (ground (arith, ap (elem s.visited) same))
      | inr other ↦ all x (ground arith)
    ],
  )

  Returns-skip :
      (fuel : ℕ) (e : Entry) (stack : List Entry) (s : Search)
      → e.expanded ≡ false
      → elem s.visited e.node_id ≡ true
      → Returns fuel stack s
      → Returns (suc fuel) (e ∷ stack) s
  Returns-skip fuel e stack s h m (s', runs, v', all) = (
    s',
    run_skip fuel e stack s h m ∙ runs,
    v',
    λ x p. elim (eq_or_ne x e.node_id) [
      | inl same ↦ all x (ground (arith, ap (elem s.visited) same))
      | inr other ↦ all x (ground arith)
    ],
  )

  Returns-expand :
      (fuel : ℕ) (e : Entry) (stack : List Entry) (s : Search) (node : PebblingOrderNode)
      → e.expanded ≡ false
      → elem s.visited e.node_id ≡ false
      → find_node nodes e.node_id ≡ some node
      → Returns fuel
          (expanded_stack nodes roots a s e.node_id node stack)
          (record s { visited = e.node_id ∷ s.visited })
      → Returns (suc fuel) (e ∷ stack) s
  Returns-expand fuel e stack s node h m found (s', runs, v', all) =
      let visited = e.node_id ∷ s.visited in
      let below = entry nodes roots a e.node_id true ∷ stack in
      (
        s',
        run_expand fuel e stack s node h m found ∙ runs,
        v',
        λ x p.
            all x (
              ground
                (arith, on_stack-push nodes visited (arrange nodes node.predecessors) below x)),
      )

  expanded-length :
      (s : Search) (x : ℕ) (node : PebblingOrderNode) (stack : List Entry)
      → find_node nodes x ≡ some node
      → elem s.visited x ≡ false
      → weight (x ∷ s.visited) nodes + length (expanded_stack nodes roots a s x node stack)
        ≤ weight s.visited nodes + length stack
  expanded-length s x node stack found m =
      let ps = arrange nodes node.predecessors in
      omega (
        arith,
        weight-expand s.visited x nodes node found m,
        length-arrange nodes node.predecessors,
        length-push nodes (x ∷ s.visited) ps (entry nodes roots a x true ∷ stack),
      )

  pub run_stack-Returns :
      (fuel : ℕ) (stack : List Entry) (s : Search)
      → Inv nodes roots a s stack
      → weight s.visited nodes + length stack ≤ fuel
      → Returns fuel stack s
  run_stack-Returns fuel [] s v w = (s, run_empty fuel s, v, λ x h. ground arith)
  run_stack-Returns zero (e ∷ stack) s v w = absurd (omega arith)
  run_stack-Returns (suc fuel) (e ∷ stack) s v w = elim (Bool-cases e.expanded) [
    | inl h ↦
        let top : Inv nodes roots a s (entry nodes roots a e.node_id true ∷ stack) =
          subst (λ b. Inv nodes roots a s (entry nodes roots a e.node_id b ∷ stack)) h v in
        Returns-finish fuel e stack s h (ground (arith, top.seen e.node_id)) (
          run_stack-Returns fuel stack (finished nodes roots a s e.node_id)
            (finish-Inv nodes roots a s e.node_id stack top) (omega (arith, w)))
    | inr h ↦
        let top : Inv nodes roots a s (entry nodes roots a e.node_id false ∷ stack) =
          subst (λ b. Inv nodes roots a s (entry nodes roots a e.node_id b ∷ stack)) h v in
        elim (Bool-cases (elem s.visited e.node_id)) [
          | inl m ↦ Returns-skip fuel e stack s h m (
              run_stack-Returns fuel stack s (skip-Inv nodes roots a s e.node_id stack top m)
                (omega (arith, w)))
          | inr m ↦
              let (node, found) =
                find_node-some nodes e.node_id
                  (Needed-is_node (top.needed e.node_id (ground arith))) in
              Returns-expand fuel e stack s node h m found (
                run_stack-Returns fuel (expanded_stack nodes roots a s e.node_id node stack)
                  (record s { visited = e.node_id ∷ s.visited })
                  (expand-Inv nodes roots a s e.node_id stack node top m found)
                  (omega (arith, w, expanded-length s e.node_id node stack found m)))
        ]
  ]
