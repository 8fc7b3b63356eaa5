-- ===== src/GroupDag/Edges.antt =====
-- core/group_dag.cpp: the edges stay mirrored under every change of them.
use pto_fusebox.Base.{
  ℕ, ◌+◌, ◌≤◌, ◌<◌, max, ◌≡◌, refl, subst, inl, inr, Bool, true, not, ◌&&◌, ◌||◌, arith, ltb, ◌==◌,
  if◌then◌else◌, Bool-cases, eq_or_ne, elem, Table, put,
}
use pto_fusebox.FlatSet.{FlatSet}
use pto_fusebox.FlatSet.Order.{IsSorted}
use pto_fusebox.FlatSet.Member.{elem-insert, insert-IsSorted, elem-erase, erase-IsSorted}
use pto_fusebox.GroupDag.{GroupDag, ensure_size, link, add_edge, remove_edge}

-- Successors and predecessors are mirror images, name groups below the size, and are sorted.
pub record IsMirrored (g : GroupDag) : Type 0 where
  pub mirror : (u v : ℕ) → elem (g.preds v) u ≡ elem (g.succs u) v
  pub inside : (u v : ℕ) → elem (g.succs u) v ≡ true → (u < g.size) × (v < g.size)
  pub succs_sorted : (u : ℕ) → IsSorted (g.succs u)
  pub preds_sorted : (v : ℕ) → IsSorted (g.preds v)

-- The property is one of the edges alone.
pub IsMirrored-same :
    (g g' : GroupDag)
    → g'.size ≡ g.size
    → g'.succs ≡ g.succs
    → g'.preds ≡ g.preds
    → IsMirrored g
    → IsMirrored g'
IsMirrored-same g g' size succs preds m = record {
  mirror = λ u v. rw (succs, preds) (m.mirror u v);
  inside = λ u v. rw (succs, size) (m.inside u v);
  succs_sorted = λ u. rw succs (m.succs_sorted u);
  preds_sorted = λ v. rw preds (m.preds_sorted v);
}

pub IsSorted-put :
    (table : Table FlatSet) (i : ℕ) (s : FlatSet)
    → ((u : ℕ) → IsSorted (table u))
    → IsSorted s
    → (u : ℕ) → IsSorted (put table i s u)
IsSorted-put table i s h k u = elim (eq_or_ne i u) [
  | inl e ↦ subst IsSorted (ground arith) k
  | inr e ↦ subst IsSorted (ground arith) (h u)
]

elem-put :
    (table : Table FlatSet) (i : ℕ) (s : FlatSet) (u v : ℕ)
    → elem (put table i s u) v ≡ (if i == u then elem s v else elem (table u) v)
elem-put table i s u v = ground arith

pub elem-link :
    (from to : ℕ) (g : GroupDag) (u v : ℕ)
    → (elem ((link from to g).succs u) v ≡ (u == from && v == to || elem (g.succs u) v))
      × (elem ((link from to g).preds v) u ≡ (u == from && v == to || elem (g.preds v) u))
unfolding link
elem-link from to g u v = (
  elim (eq_or_ne from u) [
    | inl e ↦ rw (← e) (ground (arith, elem-insert (g.succs from) to v))
    | inr e ↦ ground arith
  ],
  elim (eq_or_ne to v) [
    | inl e ↦ rw (← e) (ground (arith, elem-insert (g.preds to) from u))
    | inr e ↦ ground arith
  ],
)

pub link-IsMirrored :
    (from to : ℕ) (g : GroupDag)
    → from < g.size
    → to < g.size
    → IsMirrored g
    → IsMirrored (link from to g)
unfolding link
link-IsMirrored from to g p q m = record {
  mirror = λ u v. ground (arith, m.mirror u v, elem-link from to g u v);
  inside = λ u v h. ground (arith, m.inside u v, elem-link from to g u v);
  succs_sorted =
      IsSorted-put g.succs from _ m.succs_sorted
        (insert-IsSorted (g.succs from) to (m.succs_sorted from));
  preds_sorted =
      IsSorted-put g.preds to _ m.preds_sorted
        (insert-IsSorted (g.preds to) from (m.preds_sorted to));
}

pub ensure_size-edges :
    (n : ℕ) (g : GroupDag)
    → IsMirrored g
    → IsMirrored (ensure_size n g)
      × (n ≤ (ensure_size n g).size)
      × ((u v : ℕ) → elem ((ensure_size n g).succs u) v ≡ elem (g.succs u) v)
unfolding ensure_size
ensure_size-edges n g m = elim (Bool-cases (ltb g.size n)) [
  | inl e ↦
      rw (e, ensure_size)
        (
          record {
            mirror = λ u v. ground (arith, m.mirror u v, m.inside u v);
            inside = λ u v h. ground (arith, m.inside u v);
            succs_sorted = λ u. elim (Bool-cases (ltb u g.size)) [
              | inl h ↦ rw h (m.succs_sorted u)
              | inr h ↦ rw h tt
            ];
            preds_sorted = λ u. elim (Bool-cases (ltb u g.size)) [
              | inl h ↦ rw h (m.preds_sorted u)
              | inr h ↦ rw h tt
            ];
          },
          omega arith,
          λ u v. ground (arith, m.inside u v),
        )
  | inr e ↦ rw (e, ensure_size) (m, ground arith, λ u v. refl)
]

-- What a change of the edges promises: they stay mirrored, and `after` is what they are.
pub record Edges (g : GroupDag) (after : ℕ → ℕ → Bool) : Type 0 where
  pub mirrored : IsMirrored g
  pub edges : (u v : ℕ) → elem (g.succs u) v ≡ after u v

-- `add_edge` keeps the edges mirrored and adds exactly the edge; the graph grows to both groups.
pub add_edge_lem :
    (from to : ℕ) (g : GroupDag)
    → IsMirrored g
    → Edges (add_edge from to g) (λ u v. u == from && v == to || elem (g.succs u) v)
unfolding add_edge
add_edge_lem from to g m =
    let (m', large, same) = ensure_size-edges (max from to + 1) g m in
    record {
      mirrored =
          link-IsMirrored from to (ensure_size (max from to + 1) g) (omega (arith, large))
            (omega (arith, large)) m';
      edges =
          λ u v. ground (arith, elem-link from to (ensure_size (max from to + 1) g) u v, same u v);
    }

elem-unlink :
    (from to : ℕ) (g : GroupDag)
    → IsMirrored g
    → (u v : ℕ)
    → (elem ((remove_edge from to g).succs u) v
        ≡ (not (u == from && v == to) && elem (g.succs u) v))
      × (elem ((remove_edge from to g).preds v) u
          ≡ (not (u == from && v == to) && elem (g.preds v) u))
unfolding remove_edge
elem-unlink from to g m u v = (
  elim (eq_or_ne from u) [
    | inl e ↦
        rw (← e)
          (ground (arith, elem-erase (g.succs from) to v (m.succs_sorted from), m.inside from v))
    | inr e ↦ ground arith
  ],
  elim (eq_or_ne to v) [
    | inl e ↦ rw (← e) (
        ground
          (arith, elem-erase (g.preds to) from u (m.preds_sorted to), m.inside u to, m.mirror u to))
    | inr e ↦ ground arith
  ],
)

-- `remove_edge` keeps the edges mirrored and removes exactly the edge.
pub remove_edge_lem :
    (from to : ℕ) (g : GroupDag)
    → IsMirrored g
    → Edges (remove_edge from to g) (λ u v. not (u == from && v == to) && elem (g.succs u) v)
unfolding remove_edge
remove_edge_lem from to g m =
    let gone = elem-unlink from to g m in
    record {
      mirrored = record {
        mirror = λ u v. ground (arith, m.mirror u v, gone u v);
        inside = λ u v h. ground (arith, m.inside u v, gone u v);
        succs_sorted = λ u. elim (Bool-cases (ltb from g.size)) [
          | inl e ↦ rw e (
              IsSorted-put g.succs from _ m.succs_sorted
                (erase-IsSorted (g.succs from) to (m.succs_sorted from)) u)
          | inr e ↦ rw e (m.succs_sorted u)
        ];
        preds_sorted = λ v. elim (Bool-cases (ltb to g.size)) [
          | inl e ↦ rw e (
              IsSorted-put g.preds to _ m.preds_sorted
                (erase-IsSorted (g.preds to) from (m.preds_sorted to)) v)
          | inr e ↦ rw e (m.preds_sorted v)
        ];
      };
      edges = λ u v. (gone u v).0;
    }
