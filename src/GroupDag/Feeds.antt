-- ===== src/GroupDag/Feeds.antt =====
-- core/group_dag.cpp, GroupDAG::rebuild_edges_for: what feeds a group, in terms of the data flow.
use pto_fusebox.Base.{
  ℕ, ◌≡◌, sym, ap, ◌∙◌, inl, inr, true, false, not, ◌&&◌, some, List, arith, ◌==◌, Option-cases,
  ==→eq, ==_refl, get_elem?, elem, any_find, any_intro,
}
use pto_fusebox.FlatSet.Order.{IsSorted}
use pto_fusebox.FlatSet.Member.{count-elem}
use pto_fusebox.Problem.{Op, output}
use pto_fusebox.Dag.Build.Producers.{is_just, produces, consumes, depends}
use pto_fusebox.Dag.Build.Correct.{Describes}
use pto_fusebox.Partition.{Partition, group_at, groups_of}
use pto_fusebox.Partition.Index.{is_in}
use pto_fusebox.Partition.Update.{IsIndexed}
use pto_fusebox.GroupDag.{has_op}
use pto_fusebox.GroupDag.Links.{feeds, fed_by, produced_in}

-- The index agrees with the groups, their sets are sorted, and the graph is the problem's.
pub record IsReady (part : Partition) : Type 0 where
  pub indexed : IsIndexed part
  pub sorted : (gi : ℕ) → IsSorted (group_at part gi).ops
  pub describes : Describes part.prob part.dag

depends_elim :
    (ops : List Op) (p c : ℕ)
    → depends ops p c ≡ true
    → (op reader : Op) × (t : ℕ) × (get_elem? ops p ≡ some op)
      × (get_elem? ops c ≡ some reader)
      × (elem reader.inputs t ≡ true)
      × (output op ≡ t)
depends_elim ops p c h = elim (Option-cases (get_elem? ops c)) [
  | inl e ↦ cc (rw (e, depends) at h)
  | inr (reader, e) ↦
      let (t, m, q) = any_find (λ t. produces ops p t) reader.inputs (rw (e, depends) at h) in
      elim (Option-cases (get_elem? ops p)) [
        | inl f ↦ cc (rw (f, produces) at q)
        | inr (op, f) ↦ (op, reader, t, f, e, m, ==→eq (output op) t (rw (f, produces) at q))
      ]
]

depends_intro :
    (ops : List Op) (p c t : ℕ)
    → produces ops p t ≡ true
    → consumes ops c t ≡ true
    → depends ops p c ≡ true
depends_intro ops p c t h k = elim (Option-cases (get_elem? ops c)) [
  | inl e ↦ cc (rw (e, consumes) at k)
  | inr (reader, e) ↦
      rw (e, depends) (any_intro (λ t. produces ops p t) reader.inputs t (rw (e, consumes) at k) h)
]

module _ (part : Partition) (r : IsReady part) where
  has_op-elem : (gi op : ℕ) → has_op part gi op ≡ elem (group_at part gi).ops op
  has_op-elem gi op = ground (arith, count-elem (group_at part gi).ops op (r.sorted gi))

  pub feeds_sound :
      (u v p : ℕ)
      → feeds part u v p ≡ true
      → (c : ℕ) × (depends part.prob.ops p c ≡ true)
        × (elem (group_at part u).ops c ≡ false)
        × (is_in part c v ≡ true)
  feeds_sound u v p h = elim (Option-cases (get_elem? part.prob.ops p)) [
    | inl e ↦ cc (rw (e, feeds) at h)
    | inr (op, e) ↦
        let (c, m, q) =
          any_find (λ cop. not (has_op part u cop) && elem (groups_of part cop) v)
            (part.dag.tensor_consumers (output op)) (rw (e, feeds) at h) in
        (
          c,
          depends_intro part.prob.ops p c (output op) (rw (e, produces) (==_refl (output op)))
              (sym (r.describes.consumers (output op) c) ∙ m),
          ground (arith, has_op-elem u c),
          ground (arith, r.indexed c v),
        )
  ]

  pub feeds_complete :
      (u v p c : ℕ)
      → depends part.prob.ops p c ≡ true
      → elem (group_at part u).ops c ≡ false
      → is_in part c v ≡ true
      → feeds part u v p ≡ true
  feeds_complete u v p c d out m =
      let (op, reader, t, e, f, n, same) = depends_elim part.prob.ops p c d in
      let reads : consumes part.prob.ops c (output op) ≡ true =
        rw (f, consumes) (ap (elem reader.inputs) same ∙ n) in
      rw (e, feeds)
        (any_intro (λ cop. not (has_op part u cop) && elem (groups_of part cop) v)
          (part.dag.tensor_consumers (output op)) c (r.describes.consumers (output op) c ∙ reads)
          (ground (arith, has_op-elem u c, r.indexed c v)))

  pub fed_by_sound :
      (u v c : ℕ)
      → fed_by part v u c ≡ true
      → (p : ℕ) × (depends part.prob.ops p c ≡ true)
        × (elem (group_at part v).ops p ≡ false)
        × (is_in part p u ≡ true)
  fed_by_sound u v c h = elim (Option-cases (get_elem? part.prob.ops c)) [
    | inl e ↦ cc (rw (e, fed_by) at h)
    | inr (op, e) ↦
        let (t, m, q) = any_find (produced_in part v u) op.inputs (rw (e, fed_by) at h) in
        elim (Option-cases (part.dag.tensor_producer t)) [
          | inl f ↦ cc (rw (f, produced_in) at q)
          | inr (p, f) ↦
              let both : (not (has_op part v p) && elem (groups_of part p) u) ≡ true =
                rw (f, produced_in) at q in
              (
                p,
                depends_intro part.prob.ops p c t
                    (sym (r.describes.producers t p) ∙ ap (λ o. is_just o p) f ∙ ==_refl p)
                    (rw (e, consumes) m),
                ground (arith, has_op-elem v p),
                ground (arith, r.indexed p u),
              )
        ]
  ]

  pub fed_by_complete :
      (u v p c : ℕ)
      → depends part.prob.ops p c ≡ true
      → elem (group_at part v).ops p ≡ false
      → is_in part p u ≡ true
      → fed_by part v u c ≡ true
  fed_by_complete u v p c d out m =
      let (op, reader, t, e, f, n, same) = depends_elim part.prob.ops p c d in
      let made : produces part.prob.ops p t ≡ true =
        rw (e, produces) (ap (λ x. output op == x) (sym same) ∙ ==_refl (output op)) in
      let found : is_just (part.dag.tensor_producer t) p ≡ true =
        r.describes.producers t p ∙ made in
      rw (f, fed_by)
        (any_intro (produced_in part v u) reader.inputs t n
          (elim (Option-cases (part.dag.tensor_producer t)) [
            | inl g ↦ cc (ap (λ o. is_just o p) g, found)
            | inr (q, g) ↦
                let at_p : q ≡ p = ==→eq q p (sym (ap (λ o. is_just o p) g) ∙ found) in
                rw (g, produced_in) (rw at_p (ground (arith, has_op-elem v p, r.indexed p u)))
          ]))
