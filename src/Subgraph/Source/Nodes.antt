-- ===== src/Subgraph/Source/Nodes.antt =====
-- core/pebbling_order.cpp, BuildSourceOpPebblingGraph: its nodes and their predecessors.
use pto_fusebox.Base.{
  ℕ, suc, ◌≡◌, refl, ap, ◌∙◌, inl, inr, true, false, ◌&&◌, ◌||◌, none, some, List, [], ◌∷◌, arith,
  Bool-cases, Option-cases, eq_or_ne, get_elem?, elem, elem-append, any, any_cong,
}
use pto_fusebox.FlatSet.Member.{elem-of_range}
use pto_fusebox.Problem.{OpType, Problem}
use pto_fusebox.Dag.{Dag}
use pto_fusebox.Dag.Build.Producers.{is_just, produces, depends}
use pto_fusebox.Dag.Build.Correct.{Describes}
use pto_fusebox.Pebbling.{PebblingOrderNode, find_node, is_node}
use pto_fusebox.Pebbling.Stack.{elem-arrange}
use pto_fusebox.Pebbling.Needs.{node_preds, elem-node_preds}
use pto_fusebox.Subgraph.Source.{
  LocalityKey, Inputs, read_input, read_inputs, source_node, source_nodes,
}

module _ (d : Dag) (ops : List ℕ) where
  read_input-preds :
      (type : OpType) (k t : ℕ) (r : Inputs) (p : ℕ)
      → elem (read_input d ops type k t r).predecessors p
        ≡ (elem ops p && is_just (d.tensor_producer t) p || elem r.predecessors p)
  unfolding read_input
  read_input-preds type k t r p = elim (Option-cases (d.tensor_producer t)) [
    | inl e ↦ rw (e, read_input) (ground arith)
    | inr (a, e) ↦
        rw (e, read_input)
          (elim (Bool-cases (elem ops a)) [
            | inl m ↦ rw m (elim (eq_or_ne p a) [
              | inl same ↦ ground (arith, ap (elem ops) same, elem-append r.predecessors (a ∷ []) p)
              | inr other ↦ ground (arith, elem-append r.predecessors (a ∷ []) p)
            ])
            | inr m ↦ rw m (elim (eq_or_ne p a) [
              | inl same ↦ ground (arith, ap (elem ops) same)
              | inr other ↦ ground arith
            ])
          ])
  ]

  read_inputs-preds :
      (type : OpType) (k : ℕ) (ts : List ℕ) (r : Inputs) (p : ℕ)
      → elem (read_inputs d ops type k ts r).predecessors p
        ≡ (elem ops p && any (λ t. is_just (d.tensor_producer t) p) ts || elem r.predecessors p)
  unfolding read_inputs
  read_inputs-preds type k [] r p = ground arith
  read_inputs-preds type k (t ∷ ts) r p = ground (
    arith,
    read_inputs-preds type (suc k) ts (read_input d ops type k t r) p,
    read_input-preds type k t r p,
  )

module _ (prob : Problem) (d : Dag) (desc : Describes prob d) (ops : List ℕ) where
  source_nodes-cons :
      (op : ℕ) (rest : List ℕ) (keys : List LocalityKey)
      → (node : PebblingOrderNode) × (keys' : List LocalityKey) × (source_nodes prob d ops
            (op ∷ rest)
            keys
          ≡ node ∷ source_nodes prob d ops rest keys')
        × (node.id ≡ op)
        × ((p : ℕ) → elem node.predecessors p ≡ (elem ops p && depends prob.ops p op))
  unfolding source_nodes
  source_nodes-cons op rest keys = elim (Option-cases (get_elem? prob.ops op)) [
    | inl e ↦ (
      source_node d op [] [],
      keys,
      rw (e, source_nodes),
      refl,
      λ p. rw (e, depends) (ground (arith, elem-of_range [] p)),
    )
    | inr (o, e) ↦
        let r =
          read_inputs d ops o.type 0 o.inputs
            (record { keys = keys; predecessors = []; locality_values = [] }) in
        (
          source_node d op r.predecessors r.locality_values,
          r.keys,
          rw (e, source_nodes),
          refl,
          λ p.
              rw (e, depends)
                (ground (
                  arith,
                  elem-of_range r.predecessors p,
                  read_inputs-preds d ops o.type 0 o.inputs
                      (record { keys = keys; predecessors = []; locality_values = [] }) p,
                  any_cong (λ t. is_just (d.tensor_producer t) p) (λ t. produces prob.ops p t)
                      o.inputs (λ t m. desc.producers t p),
                )),
        )
  ]

  -- The node of an operation of the list; there is no other node.
  source_nodes-found :
      (rest : List ℕ) (keys : List LocalityKey) (x : ℕ)
      → elem rest x ≡ true
      → (node : PebblingOrderNode) × (find_node (source_nodes prob d ops rest keys) x ≡ some node)
        × ((p : ℕ) → elem node.predecessors p ≡ (elem ops p && depends prob.ops p x))
  unfolding find_node
  source_nodes-found [] keys x m = cc
  source_nodes-found (op ∷ rest) keys x m =
      let (node, keys', e, id, preds) = source_nodes-cons op rest keys in
      elim (eq_or_ne op x) [
        | inl same ↦ (
          node,
          rw e (ground (arith, id)),
          λ p. preds p ∙ ap (λ y. elem ops p && depends prob.ops p y) same,
        )
        | inr other ↦
            let (found, at, preds') = source_nodes-found rest keys' x (ground arith) in
            (found, rw e (ground (arith, id, at)), preds')
      ]

  source_nodes-missing :
      (rest : List ℕ) (keys : List LocalityKey) (x : ℕ)
      → elem rest x ≡ false
      → find_node (source_nodes prob d ops rest keys) x ≡ none
  unfolding find_node source_nodes
  source_nodes-missing [] keys x m = refl
  source_nodes-missing (op ∷ rest) keys x m =
      let (node, keys', e, id, preds) = source_nodes-cons op rest keys in
      rw e (ground (arith, id, source_nodes-missing rest keys' x))

  pub is_node-source :
      (keys : List LocalityKey) (x : ℕ) → is_node (source_nodes prob d ops ops keys) x ≡ elem ops x
  is_node-source keys x = elim (Bool-cases (elem ops x)) [
    | inl m ↦ let (node, e, preds) = source_nodes-found ops keys x m in rw (e, m, is_node)
    | inr m ↦ rw (source_nodes-missing ops keys x m, m, is_node)
  ]

  pub node_preds-source :
      (keys : List LocalityKey) (x p : ℕ)
      → elem (node_preds (source_nodes prob d ops ops keys) x) p
        ≡ (elem ops x && elem ops p && depends prob.ops p x)
  node_preds-source keys x p =
      let nodes = source_nodes prob d ops ops keys in
      elim (Bool-cases (elem ops x)) [
        | inl m ↦
            let (node, e, preds) = source_nodes-found ops keys x m in
            ground (
              arith,
              elem-node_preds nodes x p node e,
              elem-arrange nodes node.predecessors p,
              preds p,
              is_node-source keys p,
            )
        | inr m ↦ rw (source_nodes-missing ops keys x m, m, node_preds)
      ]
