-- ===== src/Dag/Build/Edges.antt =====
-- core/dag.cpp, DAG::build: the consumers, predecessors and successors that the loop over the
-- inputs records.
use native.Mathlib.Nat.{zero-add}
use pto_fusebox.Base.{
  ℕ, zero, suc, ◌+◌, ◌≤◌, ◌≡◌, List, [], ◌∷◌, Option, none, some, Bool, true, false, ◌&&◌, ◌||◌,
  Table, ◌==◌, get_elem?, arith, elem, elem-append, any, refl, ap, eq_or_ne, inl, inr, Option-cases,
  sym, ◌∙◌,
}
use pto_fusebox.Problem.{Op}
use pto_fusebox.Dag.Build.{push_back, Links, link_input, link_inputs, link_ops, no_links}
use pto_fusebox.Dag.Build.Producers.{is_just, consumes}

-- `l'` holds what `l` holds, the edges of `edge` in both directions, and the readers of `reader`.
record Extends (l l' : Links) (edge reader : ℕ → ℕ → Bool) : Type 0 where
  preds : (u v : ℕ) → elem (l'.op_preds v) u ≡ (elem (l.op_preds v) u || edge u v)
  succs : (u v : ℕ) → elem (l'.op_succs u) v ≡ (elem (l.op_succs u) v || edge u v)
  consumers :
      (v t : ℕ) → elem (l'.tensor_consumers t) v ≡ (elem (l.tensor_consumers t) v || reader v t)

Extends-trans :
    {l l' l'' : Links} (e r e' r' e'' r'' : ℕ → ℕ → Bool)
    → Extends l l' e r
    → Extends l' l'' e' r'
    → ((u v : ℕ) → e'' u v ≡ (e u v || e' u v))
    → ((u v : ℕ) → r'' u v ≡ (r u v || r' u v))
    → Extends l l'' e'' r''
Extends-trans e r e' r' e'' r'' x y p q = record {
  preds = λ u v. ground (arith, x.preds u v, y.preds u v, p u v);
  succs = λ u v. ground (arith, x.succs u v, y.succs u v, p u v);
  consumers = λ v t. ground (arith, x.consumers v t, y.consumers v t, q v t);
}

elem-push_back :
    (v : Table (List ℕ)) (i a j x : ℕ)
    → elem (push_back v i a j) x ≡ (elem (v j) x || i == j && x == a)
elem-push_back v i a j x = elim (eq_or_ne i j) [
  | inl e ↦ rw e (ground (arith, elem-append (v j) (a ∷ []) x))
  | inr e ↦ ground arith
]

module _ (producer : Table (Option ℕ)) where
  -- The edges and the readers that the inputs `ts` of operation `i` add.
  abbrev edge_of : ℕ → List ℕ → ℕ → ℕ → Bool
  edge_of i ts u v = v == i && any (λ t. is_just (producer t) u) ts

  abbrev reader_of : ℕ → List ℕ → ℕ → ℕ → Bool
  reader_of i ts v t = v == i && elem ts t

  link_input-Extends :
      (i t : ℕ) (l : Links)
      → Extends l (link_input producer i t l) (edge_of i (t ∷ [])) (reader_of i (t ∷ []))
  unfolding link_input
  link_input-Extends i t l = elim (Option-cases (producer t)) [
    | inl e ↦ record {
      preds = λ u v. rw (e, link_input) (ground arith);
      succs = λ u v. rw (e, link_input) (ground arith);
      consumers =
          λ v s. rw (e, link_input) (ground (arith, elem-push_back l.tensor_consumers t i s v));
    }
    | inr (p, e) ↦ record {
      preds = λ u v. rw (e, link_input) (ground (arith, elem-push_back l.op_preds i p v u));
      succs = λ u v. rw (e, link_input) (ground (arith, elem-push_back l.op_succs p i u v));
      consumers =
          λ v s. rw (e, link_input) (ground (arith, elem-push_back l.tensor_consumers t i s v));
    }
  ]

  link_inputs-Extends :
      (i : ℕ) (ts : List ℕ) (l : Links)
      → Extends l (link_inputs producer i ts l) (edge_of i ts) (reader_of i ts)
  unfolding link_inputs
  link_inputs-Extends i [] l = record {
    preds = λ u v. ground arith;
    succs = λ u v. ground arith;
    consumers = λ v t. ground arith;
  }
  link_inputs-Extends i (t ∷ ts) l =
      Extends-trans _ _ _ _ _ _ (link_input-Extends i t l)
        (link_inputs-Extends i ts (link_input producer i t l)) (λ u v. ground arith)
        (λ v s. ground arith)

  -- The edges and the readers of operations that are counted from `i`.
  abbrev edge_from : ℕ → List Op → ℕ → ℕ → Bool
  edge_from i [] u v = false
  edge_from i (op ∷ ops) u v = edge_of i op.inputs u v || edge_from (suc i) ops u v

  abbrev reader_from : ℕ → List Op → ℕ → ℕ → Bool
  reader_from i [] v t = false
  reader_from i (op ∷ ops) v t = reader_of i op.inputs v t || reader_from (suc i) ops v t

  link_ops-Extends :
      (i : ℕ) (ops : List Op) (l : Links)
      → Extends l (link_ops producer i ops l) (edge_from i ops) (reader_from i ops)
  unfolding link_ops
  link_ops-Extends i [] l = record {
    preds = λ u v. ground arith;
    succs = λ u v. ground arith;
    consumers = λ v t. ground arith;
  }
  link_ops-Extends i (op ∷ ops) l =
      Extends-trans _ _ _ _ _ _ (link_inputs-Extends i op.inputs l)
        (link_ops-Extends (suc i) ops (link_inputs producer i op.inputs l)) (λ u v. ground arith)
        (λ v s. ground arith)

  -- Operation `v` reads a tensor that the table says operation `u` produces.
  abbrev pub reads : List Op → ℕ → ℕ → Bool
  reads ops u v = elim (get_elem? ops v) [
    | none ↦ false
    | some op ↦ any (λ t. is_just (producer t) u) op.inputs
  ]

  edge_from-bound : (i : ℕ) (ops : List Op) (u v : ℕ) → edge_from i ops u v ≡ true → i ≤ v
  edge_from-bound i [] u v h = cc
  edge_from-bound i (op ∷ ops) u v h = ground (arith, edge_from-bound (suc i) ops u v)

  edge_from-add : (i : ℕ) (ops : List Op) (u k : ℕ) → edge_from i ops u (i + k) ≡ reads ops u k
  edge_from-add i [] u k = refl
  edge_from-add i (op ∷ ops) u zero = ground (arith, edge_from-bound (suc i) ops u (i + 0))
  edge_from-add i (op ∷ ops) u (suc k) =
      let e : i + suc k ≡ suc i + k = omega arith in
      rw e (ground (arith, edge_from-add (suc i) ops u k))

  reader_from-bound : (i : ℕ) (ops : List Op) (v t : ℕ) → reader_from i ops v t ≡ true → i ≤ v
  reader_from-bound i [] v t h = cc
  reader_from-bound i (op ∷ ops) v t h = ground (arith, reader_from-bound (suc i) ops v t)

  reader_from-add :
      (i : ℕ) (ops : List Op) (k t : ℕ) → reader_from i ops (i + k) t ≡ consumes ops k t
  reader_from-add i [] k t = refl
  reader_from-add i (op ∷ ops) zero t = ground (arith, reader_from-bound (suc i) ops (i + 0) t)
  reader_from-add i (op ∷ ops) (suc k) t =
      let e : i + suc k ≡ suc i + k = omega arith in
      rw e (ground (arith, reader_from-add (suc i) ops k t))

  -- After the loop the two tables of edges mirror each other and hold exactly the pairs of a
  -- producer and a reader, and the table of consumers holds exactly the readers.
  pub link_ops_lem :
      (ops : List Op) (u v t : ℕ)
      → (elem ((link_ops producer 0 ops no_links).op_preds v) u ≡ reads ops u v)
        × (elem ((link_ops producer 0 ops no_links).op_succs u) v ≡ reads ops u v)
        × (elem ((link_ops producer 0 ops no_links).tensor_consumers t) v ≡ consumes ops v t)
  link_ops_lem ops u v t =
      let x = link_ops-Extends 0 ops no_links in
      let e = ap (λ k. edge_from 0 ops u k) (sym (zero-add v)) ∙ edge_from-add 0 ops u v in
      let r = ap (λ k. reader_from 0 ops k t) (sym (zero-add v)) ∙ reader_from-add 0 ops v t in
      (x.preds u v ∙ e, x.succs u v ∙ e, x.consumers v t ∙ r)
