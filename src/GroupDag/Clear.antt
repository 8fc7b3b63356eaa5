-- ===== src/GroupDag/Clear.antt =====
-- core/group_dag.cpp, GroupDAG::clear_edges_for.
use pto_fusebox.Base.{
  ℕ, ◌≡◌, sym, ap, ◌∙◌, inl, inr, not, ◌&&◌, List, [], ◌∷◌, arith, ltb, leb, ◌==◌, Bool-cases,
  eq_or_ne, elem, Table, put,
}
use pto_fusebox.FlatSet.{FlatSet, erase}
use pto_fusebox.FlatSet.Order.{IsSorted}
use pto_fusebox.FlatSet.Member.{elem-erase, erase-IsSorted}
use pto_fusebox.GroupDag.{GroupDag, erase_from_all, clear_edges_for}
use pto_fusebox.GroupDag.Edges.{IsMirrored, IsSorted-put, Edges}

erase_from_all-IsSorted :
    (gi size : ℕ) (gs : List ℕ) (table : Table FlatSet)
    → ((u : ℕ) → IsSorted (table u))
    → (u : ℕ) → IsSorted (erase_from_all gi size gs table u)
unfolding erase_from_all
erase_from_all-IsSorted gi size [] table h = h
erase_from_all-IsSorted gi size (x ∷ gs) table h = elim (Bool-cases (ltb x size)) [
  | inl e ↦ rw e (
      erase_from_all-IsSorted gi size gs (put table x (erase (table x) gi).set)
        (IsSorted-put table x _ h (erase-IsSorted (table x) gi (h x))))
  | inr e ↦ rw e (erase_from_all-IsSorted gi size gs table h)
]

elem-erase_from_all :
    (gi size : ℕ) (gs : List ℕ) (table : Table FlatSet)
    → ((u : ℕ) → IsSorted (table u))
    → (u v : ℕ)
    → elem (erase_from_all gi size gs table u) v
      ≡ (not (elem gs u && ltb u size && v == gi) && elem (table u) v)
unfolding erase_from_all
elem-erase_from_all gi size [] table h u v = ground arith
elem-erase_from_all gi size (x ∷ gs) table h u v = elim (Bool-cases (ltb x size)) [
  | inl e ↦
      let table' = put table x (erase (table x) gi).set in
      let ih =
        elem-erase_from_all gi size gs table'
          (IsSorted-put table x _ h (erase-IsSorted (table x) gi (h x))) u v in
      rw e (elim (eq_or_ne x u) [
        | inl same ↦ rw (← same) (
            ground (
              arith,
              ih,
              elem-erase (table x) gi v (h x),
              ap (λ y. elem (table' y) v) same,
              ap (elem gs) same,
            ))
        | inr other ↦ ground (arith, ih)
      ])
  | inr e ↦ rw e (elim (eq_or_ne x u) [
    | inl same ↦ ground (arith, elem-erase_from_all gi size gs table h u v)
    | inr other ↦ ground (arith, elem-erase_from_all gi size gs table h u v)
  ])
]

-- `clear_edges_for` keeps the edges mirrored and removes exactly those at the group.
pub clear_edges_for_lem :
    (gi : ℕ) (g : GroupDag)
    → IsMirrored g
    → Edges (clear_edges_for gi g) (λ u v. not (u == gi) && not (v == gi) && elem (g.succs u) v)
unfolding clear_edges_for
clear_edges_for_lem gi g m = elim (Bool-cases (leb g.size gi)) [
  | inl e ↦
      rw (e, clear_edges_for) (record { mirrored = m; edges = λ u v. ground (arith, m.inside u v) })
  | inr e ↦
      let preds = erase_from_all gi g.size (g.succs gi) g.preds in
      let succs = erase_from_all gi g.size (preds gi) g.succs in
      let p = λ (v u : ℕ). elem-erase_from_all gi g.size (g.succs gi) g.preds m.preds_sorted v u in
      let s = λ (u v : ℕ). elem-erase_from_all gi g.size (preds gi) g.succs m.succs_sorted u v in
      let forwards : (u v : ℕ)
          → elem (put succs gi [] u) v ≡ (not (u == gi) && not (v == gi) && elem (g.succs u) v) =
        λ u v. elim (eq_or_ne v gi) [
          | inl same ↦
              ground (arith, s u v, p gi u, m.mirror u gi, m.inside u v, ap (elem (g.succs u)) same)
          | inr other ↦ ground (arith, s u v)
        ] in
      let backwards : (u v : ℕ)
          → elem (put preds gi [] v) u ≡ (not (u == gi) && not (v == gi) && elem (g.succs u) v) =
        λ u v. elim (eq_or_ne u gi) [
          | inl same ↦
              ground (arith, p v u, m.mirror u v, m.inside u v, ap (λ y. elem (g.succs y) v) same)
          | inr other ↦ ground (arith, p v u, m.mirror u v)
        ] in
      rw (e, clear_edges_for)
        (record {
          mirrored = record {
            mirror = λ u v. backwards u v ∙ sym (forwards u v);
            inside = λ u v h. ground (arith, m.inside u v, forwards u v);
            succs_sorted =
                IsSorted-put succs gi []
                  (erase_from_all-IsSorted gi g.size (preds gi) g.succs m.succs_sorted) tt;
            preds_sorted =
                IsSorted-put preds gi []
                  (erase_from_all-IsSorted gi g.size (g.succs gi) g.preds m.preds_sorted) tt;
          };
          edges = forwards;
        })
]
