-- ===== src/Partition/Neighbors/Cross.antt =====
-- partition/partition.cpp: the border of a group against the neighbours of its operations.
use pto_fusebox.Base.{
  ℕ, ◌≡◌, ap, ◌≢◌, ◌↔◌, inl, inr, true, false, not, ◌&&◌, ◌||◌, List, [], ◌∷◌, arith, ◌==◌,
  Bool-cases, eq_or_ne, elem, any, any_find, any_intro,
}
use pto_fusebox.FlatSet.{FlatSet, insert}
use pto_fusebox.FlatSet.Order.{IsSorted}
use pto_fusebox.FlatSet.Member.{count-elem, elem-insert}
use pto_fusebox.Partition.{Partition, group_at}
use pto_fusebox.Partition.Boundary.{contains}
use pto_fusebox.Partition.Neighbors.{
  is_border_op, keep_border, border_ops, insert_outside, insert_around, boundary_neighbors,
  insert_other_groups, insert_groups, adjacent_groups,
}

elem-keep_border :
    (part : Partition) (gi : ℕ) (ops : List ℕ) (op : ℕ)
    → elem (keep_border part gi ops) op ≡ (elem ops op && is_border_op part op gi)
unfolding keep_border
elem-keep_border part gi [] op = ground arith
elem-keep_border part gi (x ∷ ops) op = elim (eq_or_ne op x) [
  | inl e ↦ rw e (ground (arith, elem-keep_border part gi ops x))
  | inr e ↦ ground (arith, elem-keep_border part gi ops op)
]

elem-insert_outside :
    (ops : FlatSet) (vs : List ℕ) (result : FlatSet) (v : ℕ)
    → elem (insert_outside ops vs result) v ≡ (elem result v || not (contains ops v) && elem vs v)
unfolding insert_outside
elem-insert_outside ops [] result v = ground arith
elem-insert_outside ops (x ∷ vs) result v = elim (Bool-cases (contains ops x)) [
  | inl e ↦
      rw (e, insert_outside)
        (elim (eq_or_ne v x) [
          | inl same ↦ ground (arith, elem-insert_outside ops vs result v, ap (contains ops) same)
          | inr other ↦ ground (arith, elem-insert_outside ops vs result v)
        ])
  | inr e ↦
      rw (e, insert_outside)
        (elim (eq_or_ne v x) [
          | inl same ↦ ground (
            arith,
            elem-insert_outside ops vs (insert result x).set v,
            elem-insert result x v,
            ap (contains ops) same,
          )
          | inr other ↦
              ground
                (arith, elem-insert_outside ops vs (insert result x).set v, elem-insert result x v)
        ])
]

elem-insert_around :
    (part : Partition) (gi : ℕ) (ops : List ℕ) (result : FlatSet) (v : ℕ)
    → elem (insert_around part gi ops result) v ≡ (
        elem result v
        || not (contains (group_at part gi).ops v)
          && any (λ op. elem (part.dag.op_neighbors op) v) ops)
unfolding insert_around
elem-insert_around part gi [] result v = ground arith
elem-insert_around part gi (op ∷ ops) result v = ground (
  arith,
  elem-insert_around part gi ops
      (insert_outside (group_at part gi).ops (part.dag.op_neighbors op) result) v,
  elem-insert_outside (group_at part gi).ops (part.dag.op_neighbors op) result v,
)

elem-insert_other_groups :
    (gi : ℕ) (gs : List ℕ) (result : FlatSet) (gj : ℕ)
    → elem (insert_other_groups gi gs result) gj ≡ (elem result gj || not (gj == gi) && elem gs gj)
unfolding insert_other_groups
elem-insert_other_groups gi [] result gj = ground arith
elem-insert_other_groups gi (x ∷ gs) result gj = elim (eq_or_ne x gi) [
  | inl e ↦ ground (arith, elem-insert_other_groups gi gs result gj)
  | inr e ↦
      ground
        (arith, elem-insert_other_groups gi gs (insert result x).set gj, elem-insert result x gj)
]

elem-insert_groups :
    (part : Partition) (gi : ℕ) (ops : List ℕ) (result : FlatSet) (gj : ℕ)
    → elem (insert_groups part gi ops result) gj
      ≡ (elem result gj || not (gj == gi) && any (λ op. elem (part.op_to_groups op) gj) ops)
unfolding insert_groups
elem-insert_groups part gi [] result gj = ground arith
elem-insert_groups part gi (op ∷ ops) result gj = ground (
  arith,
  elem-insert_groups part gi ops (insert_other_groups gi (part.op_to_groups op) result) gj,
  elem-insert_other_groups gi (part.op_to_groups op) result gj,
)

-- Operation `op` of the group has the neighbour `v`, which is not in the group.
pub record Crosses (part : Partition) (gi op v : ℕ) : Type 0 where
  pub from_inside : elem (group_at part gi).ops op ≡ true
  pub next_to : elem (part.dag.op_neighbors op) v ≡ true
  pub outside : elem (group_at part gi).ops v ≡ false

module _ (part : Partition) (gi : ℕ) (s : IsSorted (group_at part gi).ops) where
  contains-elem : (op : ℕ) → contains (group_at part gi).ops op ≡ elem (group_at part gi).ops op
  contains-elem op = ground (arith, count-elem (group_at part gi).ops op s)

  border_iff : (op : ℕ) → (elem (border_ops part gi) op ≡ true) ↔ ((v : ℕ) × Crosses part gi op v)
  unfolding border_ops is_border_op
  border_iff op =
      let e = elem-keep_border part gi (group_at part gi).ops op in
      let test = λ (v : ℕ). not (contains (group_at part gi).ops v) in
      (
        λ h.
            let (v, m, out) = any_find test (part.dag.op_neighbors op) (ground (arith, e)) in
            (
              v,
              record {
                from_inside = ground (arith, e);
                next_to = m;
                outside = ground (arith, contains-elem v);
              },
            ),
        λ p.
            let (v, c) = p in
            let near =
              any_intro test (part.dag.op_neighbors op) v c.next_to
                (ground (arith, contains-elem v, c.outside)) in
            ground (arith, e, c.from_inside),
      )

  around_iff :
      (v : ℕ) → (elem (boundary_neighbors part gi) v ≡ true) ↔ ((op : ℕ) × Crosses part gi op v)
  unfolding boundary_neighbors
  around_iff v =
      let e = elem-insert_around part gi (group_at part gi).ops [] v in
      let test = λ (op : ℕ). elem (part.dag.op_neighbors op) v in
      (
        λ h.
            let (op, m, near) = any_find test (group_at part gi).ops (ground (arith, e)) in
            (
              op,
              record {
                from_inside = m;
                next_to = near;
                outside = ground (arith, e, contains-elem v);
              },
            ),
        λ p.
            let (op, c) = p in
            let near = any_intro test (group_at part gi).ops op c.from_inside c.next_to in
            ground (arith, e, contains-elem v, c.outside),
      )

  adjacent_iff :
      (gj : ℕ)
      → (elem (adjacent_groups part gi) gj ≡ true)
        ↔ ((gj ≢ gi) × (op v : ℕ) × Crosses part gi op v × (elem (part.op_to_groups v) gj ≡ true))
  unfolding adjacent_groups
  adjacent_iff gj =
      let e = elem-insert_groups part gi (boundary_neighbors part gi) [] gj in
      let test = λ (v : ℕ). elem (part.op_to_groups v) gj in
      (
        λ h.
            let (v, m, at) = any_find test (boundary_neighbors part gi) (ground (arith, e)) in
            let (op, c) = (around_iff v).0 m in (ground (arith, e), op, v, c, at),
        λ p.
            let (ne, op, v, c, at) = p in
            let near =
              any_intro test (boundary_neighbors part gi) v ((around_iff v).1 (op, c)) at in
            ground (arith, e, ne),
      )

-- For a group whose set is sorted, `border_ops` are its operations with a neighbour outside,
-- `boundary_neighbors` are those neighbours, and `adjacent_groups` are the other groups of the index
-- that contain one of them.
pub border_lem :
    (part : Partition) (gi : ℕ)
    → IsSorted (group_at part gi).ops
    → ((op : ℕ) → (elem (border_ops part gi) op ≡ true) ↔ ((v : ℕ) × Crosses part gi op v))
      × ((v : ℕ) → (elem (boundary_neighbors part gi) v ≡ true) ↔ ((op : ℕ) × Crosses part gi op v))
      × ((gj : ℕ)
          → (elem (adjacent_groups part gi) gj ≡ true) ↔ (
              (gj ≢ gi)
              × (op v : ℕ) × Crosses part gi op v
              × (elem (part.op_to_groups v) gj ≡ true)))
border_lem part gi s = (border_iff part gi s, around_iff part gi s, adjacent_iff part gi s)
