-- ===== src/Pebbling/Order.antt =====
-- core/pebbling_order.cpp, DfsPostOrderStrategy: one run of the stack.
use pto_fusebox.Base.{
  ℕ, ◌≡◌, refl, sym, ap, ◌∙◌, inl, inr, Bool, true, false, ◌||◌, some, List, [], ◌∷◌, ◌++◌, arith,
  Bool-cases, eq_or_ne, elem, elem-append,
}
use pto_fusebox.Dag.Graph.{IsAcyclic, Follows}
use pto_fusebox.Dag.Topo.Kahn.{Follows-append}
use pto_fusebox.Pebbling.{PebblingOrderNode, find_node, arrange, Entry, push_unvisited, Search}
use pto_fusebox.Pebbling.Stack.{
  on_stack, open_on, open_on-push, on_stack-push, Ordered, Covered, Covered-weaken, Ordered-push,
  Covered-push,
}
use pto_fusebox.Pebbling.Needs.{node_preds, Needed, pred, elem-node_preds}

module _ (nodes : List PebblingOrderNode) (roots : List ℕ) (a : IsAcyclic (node_preds nodes)) where
  pub record Inv (s : Search) (stack : List Entry) : Type 0 where
    pub seen : (x : ℕ) → elem s.visited x ≡ (elem s.order x || open_on stack x)
    pub pending : (x : ℕ) → open_on stack x ≡ true → elem s.order x ≡ false
    pub ordered : Ordered a.rank stack
    pub covered : Covered (node_preds nodes) s.visited [] stack
    pub follows : Follows (node_preds nodes) [] s.order
    pub closed :
        (x p : ℕ)
        → elem s.order x ≡ true
        → elem (node_preds nodes x) p ≡ true
        → elem s.order p ≡ true
    pub needed : (x : ℕ) → (elem s.visited x || on_stack stack x) ≡ true → Needed nodes roots x

  abbrev pub entry : ℕ → Bool → Entry
  entry x b = record { node_id = x; expanded = b }

  -- A visited node on the top is dropped.
  pub skip-Inv :
      (s : Search) (x : ℕ) (stack : List Entry)
      → Inv s (entry x false ∷ stack)
      → elem s.visited x ≡ true
      → Inv s stack
  skip-Inv s x stack v m = record {
    seen = λ y. ground (arith, v.seen y);
    pending = λ y h. v.pending y (ground arith);
    ordered = v.ordered.1;
    covered =
        Covered-weaken (node_preds nodes) s.visited (x ∷ []) s.visited [] stack
          (λ p h. elim (eq_or_ne p x) [
            | inl e ↦ ground (arith, ap (elem s.visited) e)
            | inr e ↦ ground arith
          ])
          v.covered.1;
    follows = v.follows;
    closed = v.closed;
    needed = λ y h. v.needed y (ground arith);
  }

  abbrev pub finished : Search → ℕ → Search
  finished s x = record s { order = s.order ++ x ∷ [] }

  -- An expanded node on the top has all its predecessors in the order.
  preds_finished :
      (s : Search) (x : ℕ) (stack : List Entry)
      → Inv s (entry x true ∷ stack)
      → (p : ℕ) → elem (node_preds nodes x) p ≡ true
      → elem s.order p ≡ true
  preds_finished s x stack v p m =
      ground (arith, v.covered.0 refl p m, v.seen p, a.rises p x m, v.ordered.0 p, ap a.rank)

  pub finish-Inv :
      (s : Search) (x : ℕ) (stack : List Entry)
      → Inv s (entry x true ∷ stack)
      → Inv (finished s x) stack
  finish-Inv s x stack v =
      let before = preds_finished s x stack v in
      let new : elem s.order x ≡ false = v.pending x (ground arith) in
      record {
        seen = λ y. ground (arith, v.seen y, elem-append s.order (x ∷ []) y);
        pending = λ y h.
            ground (arith, v.pending y, elem-append s.order (x ∷ []) y, v.ordered.0 y h, ap a.rank);
        ordered = v.ordered.1;
        covered =
            Covered-weaken (node_preds nodes) s.visited (x ∷ []) s.visited [] stack
              (λ p h. elim (eq_or_ne p x) [
                | inl e ↦ ground (arith, ap (elem s.visited) e, v.seen x)
                | inr e ↦ ground arith
              ])
              v.covered.1;
        follows = Follows-append (node_preds nodes) [] s.order x v.follows new before;
        closed = λ y p m h. elim (eq_or_ne y x) [
          | inl e ↦ ground (
            arith,
            elem-append s.order (x ∷ []) p,
            before p (ap (λ z. elem (node_preds nodes z) p) (sym e) ∙ h),
          )
          | inr e ↦
              ground (
                arith,
                elem-append s.order (x ∷ []) p,
                elem-append s.order (x ∷ []) y,
                v.closed y p,
              )
        ];
        needed = λ y h. v.needed y (ground (arith, v.seen y));
      }

  abbrev pub expanded_stack : Search → ℕ → PebblingOrderNode → List Entry → List Entry
  expanded_stack s x node stack =
      push_unvisited nodes (x ∷ s.visited) (arrange nodes node.predecessors) (entry x true ∷ stack)

  pub expand-Inv :
      (s : Search) (x : ℕ) (stack : List Entry) (node : PebblingOrderNode)
      → Inv s (entry x false ∷ stack)
      → elem s.visited x ≡ false
      → find_node nodes x ≡ some node
      → Inv (record s { visited = x ∷ s.visited }) (expanded_stack s x node stack)
  expand-Inv s x stack node v new e =
      let visited = x ∷ s.visited in
      let ps = arrange nodes node.predecessors in
      let opened = λ (y : ℕ). open_on-push nodes visited ps (entry x true ∷ stack) y in
      record {
        seen = λ y. ground (arith, v.seen y, opened y);
        pending = λ y h. elim (eq_or_ne y x) [
          | inl same ↦ ground (arith, ap (elem s.order) same, v.seen x)
          | inr other ↦ v.pending y (ground (arith, opened y))
        ];
        ordered =
            Ordered-push nodes visited a.rank ps (entry x true ∷ stack)
              (λ p y m n h.
                let below = a.rises p x (ground (arith, elem-node_preds nodes x p node e)) in
                elim (eq_or_ne y x) [
                  | inl same ↦ ground (arith, ap a.rank same)
                  | inr other ↦ ground (arith, v.ordered.0 y)
                ])
              v.ordered;
        covered =
            Covered-push nodes visited (node_preds nodes) ps (entry x true ∷ stack) []
              (node_preds nodes x) (λ q m. ground (arith, elem-node_preds nodes x q node e))
              (
                λ h p m. ground arith,
                Covered-weaken (node_preds nodes) s.visited (x ∷ []) visited
                    (x ∷ node_preds nodes x) stack (λ p h. ground arith) v.covered.1,
              );
        follows = v.follows;
        closed = v.closed;
        needed = λ y h.
            let self : Needed nodes roots x = v.needed x (ground arith) in
            elim (Bool-cases (elem s.visited y || on_stack (entry x false ∷ stack) y)) [
              | inl old ↦ v.needed y old
              | inr fresh ↦ pred self (
                  ground (
                    arith,
                    elem-node_preds nodes x y node e,
                    on_stack-push nodes visited ps (entry x true ∷ stack) y,
                  ))
            ];
      }
