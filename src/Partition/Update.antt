-- ===== src/Partition/Update.antt =====
-- partition/partition.h and partition/partition.cpp: the incremental changes of the index.
use pto_fusebox.Base.{
  ℕ, zero, suc, ◌<◌, ◌≡◌, refl, ap, ◌∙◌, inl, inr, true, false, not, ◌&&◌, ◌||◌, List, [], ◌∷◌,
  arith, ltb, ◌==◌, Bool-cases, eq_or_ne, length, get_or, elem, elem-append,
}
use pto_fusebox.FlatSet.{FlatSet}
use pto_fusebox.FlatSet.Member.{elem-insert}
use pto_fusebox.Problem.{num_ops}
use pto_fusebox.Dag.Build.{push_back}
use pto_fusebox.Partition.{
  Group, Partition, group_at, groups_of, remove_all, index_remove, index_add, insert_op, merge_each,
  resize, merge_ops_into,
}
use pto_fusebox.Partition.Index.{is_in}

elem-remove_all :
    (a : ℕ) (xs : List ℕ) (x : ℕ) → elem (remove_all a xs) x ≡ (not (x == a) && elem xs x)
unfolding remove_all
elem-remove_all a [] x = ground arith
elem-remove_all a (y ∷ xs) x = elim (eq_or_ne x y) [
  | inl e ↦ rw e (ground (arith, elem-remove_all a xs y))
  | inr e ↦ ground (arith, elem-remove_all a xs x)
]

-- `index_add` puts the group among the groups of the operation, `index_remove` takes it out, and
-- both leave the other pairs of an operation and a group as they were.
pub index_update_lem :
    (part : Partition) (op gi o gj : ℕ)
    → (elem (groups_of (index_add part op gi) o) gj
        ≡ (o == op && gj == gi || elem (groups_of part o) gj))
      × (elem (groups_of (index_remove part op gi) o) gj
          ≡ (not (o == op && gj == gi) && elem (groups_of part o) gj))
unfolding groups_of index_add index_remove
index_update_lem part op gi o gj = (
  elim (eq_or_ne op o) [
    | inl e ↦ rw (← e) (
        ground
          (arith, elem-append (part.op_to_groups op) (gi ∷ []) gj, elem-append [] (gi ∷ []) gj))
    | inr e ↦ ground arith
  ],
  elim (eq_or_ne op o) [
    | inl e ↦ rw (← e) (ground (arith, elem-remove_all gi (part.op_to_groups op) gj))
    | inr e ↦ ground arith
  ],
)

get_or-insert_op :
    (gi op : ℕ) (groups : List Group) (gj : ℕ) (g : Group)
    → ((get_or (insert_op gi op groups) gj g).alive ≡ (get_or groups gj g).alive)
      × (length (insert_op gi op groups) ≡ length groups)
unfolding insert_op
get_or-insert_op gi op [] gj g = (refl, refl)
get_or-insert_op zero op (x ∷ groups) zero g = (refl, refl)
get_or-insert_op zero op (x ∷ groups) (suc gj) g = (refl, refl)
get_or-insert_op (suc gi) op (x ∷ groups) zero g =
    (refl, omega (arith, (get_or-insert_op gi op groups 0 g).1))
get_or-insert_op (suc gi) op (x ∷ groups) (suc gj) g =
    ((get_or-insert_op gi op groups gj g).0, omega (arith, (get_or-insert_op gi op groups gj g).1))

elem-insert_op :
    (gi op : ℕ) (groups : List Group) (gj o : ℕ) (g : Group)
    → gi < length groups
    → elem (get_or (insert_op gi op groups) gj g).ops o
      ≡ (o == op && gj == gi || elem (get_or groups gj g).ops o)
unfolding insert_op
elem-insert_op gi op [] gj o g h = absurd (omega arith)
elem-insert_op zero op (x ∷ groups) zero o g h = ground (arith, elem-insert x.ops op o)
elem-insert_op zero op (x ∷ groups) (suc gj) o g h = ground arith
elem-insert_op (suc gi) op (x ∷ groups) zero o g h = ground arith
elem-insert_op (suc gi) op (x ∷ groups) (suc gj) o g h =
    ground (arith, elem-insert_op gi op groups gj o g)

-- The index agrees with the groups.
abbrev pub IsIndexed : Partition → Type 0
IsIndexed part = (op gj : ℕ) → elem (groups_of part op) gj ≡ is_in part op gj

abbrev after_insert : Partition → ℕ → ℕ → Partition
after_insert part gi op = record part {
  groups = insert_op gi op part.groups;
  op_to_groups = push_back part.op_to_groups op gi;
}

is_in-insert :
    (part : Partition) (gi op : ℕ)
    → gi < length part.groups
    → (group_at part gi).alive ≡ true
    → (o gj : ℕ) → is_in (after_insert part gi op) o gj ≡ (is_in part o gj || o == op && gj == gi)
is_in-insert part gi op h a o gj =
    let dead : Group = record { ops = []; alive = false } in
    let life = (get_or-insert_op gi op part.groups gj dead).0 in
    elim (eq_or_ne gj gi) [
      | inl e ↦ ground (
        arith,
        life,
        elem-insert_op gi op part.groups gj o dead,
        ap (λ k. (group_at part k).alive) e,
      )
      | inr e ↦ ground (arith, life, elem-insert_op gi op part.groups gj o dead)
    ]

groups_of-insert :
    (part : Partition) (gi op : ℕ)
    → op < part.indexed
    → (o gj : ℕ)
    → elem (groups_of (after_insert part gi op) o) gj
      ≡ (elem (groups_of part o) gj || o == op && gj == gi)
unfolding groups_of
groups_of-insert part gi op h o gj = elim (eq_or_ne op o) [
  | inl e ↦ rw (← e) (ground (arith, elem-append (part.op_to_groups op) (gi ∷ []) gj))
  | inr e ↦ ground arith
]

-- What the partition is after the operations have been added to the group.
pub record Merged (part : Partition) (gi : ℕ) (ops : FlatSet) (part' : Partition) : Type 0 where
  pub indexed : IsIndexed part'
  pub contents : (op gj : ℕ) → is_in part' op gj ≡ (is_in part op gj || elem ops op && gj == gi)

merge_each-Merged :
    (part : Partition) (gi : ℕ) (ops : FlatSet)
    → gi < length part.groups
    → (group_at part gi).alive ≡ true
    → ((op : ℕ) → elem ops op ≡ true → op < part.indexed)
    → IsIndexed part
    → Merged part gi ops (merge_each gi ops part)
unfolding merge_each
merge_each-Merged part gi [] h a b x = record { indexed = x; contents = λ op gj. ground arith }
merge_each-Merged part gi (op ∷ ops) h a b x =
    let dead : Group = record { ops = []; alive = false } in
    let next = after_insert part gi op in
    let kept = get_or-insert_op gi op part.groups gi dead in
    let inside : op < part.indexed = b op (ground arith) in
    let m =
      merge_each-Merged next gi ops (omega (arith, h, kept.1)) (kept.0 ∙ a)
        (λ o n. b o (ground arith))
        (λ o gj. ground (
          arith,
          x o gj,
          is_in-insert part gi op h a o gj,
          groups_of-insert part gi op inside o gj,
        )) in
    record {
      indexed = m.indexed;
      contents = λ o gj. ground (arith, m.contents o gj, is_in-insert part gi op h a o gj);
    }

-- When the index agrees with the groups, the group is alive and the operations are the problem's,
-- `merge_ops_into` adds exactly those operations to exactly that group, and the index agrees again.
pub merge_ops_into_lem :
    (part : Partition) (gi : ℕ) (ops : FlatSet)
    → gi < length part.groups
    → (group_at part gi).alive ≡ true
    → ((op : ℕ) → elem ops op ≡ true → op < num_ops part.prob)
    → IsIndexed part
    → Merged part gi ops (merge_ops_into part gi ops)
unfolding merge_ops_into groups_of
merge_ops_into_lem part gi ops h a b x = elim (Bool-cases (ltb part.indexed (num_ops part.prob))) [
  | inl e ↦
      rw (e, merge_ops_into)
        (let m =
            merge_each-Merged
              (record part {
                indexed = num_ops part.prob;
                op_to_groups = resize part.indexed (num_ops part.prob) part.op_to_groups;
              })
              gi ops h a b (λ o gj. ground (arith, x o gj)) in
          record { indexed = m.indexed; contents = m.contents })
  | inr e ↦
      rw (e, merge_ops_into) (merge_each-Merged part gi ops h a (λ o m. ground (arith, b o m)) x)
]
