-- ===== src/GroupDag/Links.antt =====
-- core/group_dag.cpp, GroupDAG::rebuild_edges_for: what the inner loops add.
use pto_fusebox.Base.{
  ℕ, zero, suc, ◌<◌, ◌≡◌, refl, ap, ◌∙◌, inl, inr, Bool, true, false, not, ◌&&◌, ◌||◌, none, some,
  List, [], ◌∷◌, arith, ◌==◌, Bool-cases, Option-cases, eq_or_ne, length, get_elem?, get_or, elem,
  any,
}
use pto_fusebox.Problem.{output}
use pto_fusebox.Partition.{Group, Partition, group_at, groups_of}
use pto_fusebox.GroupDag.{
  GroupDag, link, is_other, link_out, link_in, has_op, link_consumers, link_producers,
}
use pto_fusebox.GroupDag.Edges.{IsMirrored, elem-link, link-IsMirrored}

-- From a graph to one of the same size with the edges of `f` added.
pub record Adds (g g' : GroupDag) (f : ℕ → ℕ → Bool) : Type 0 where
  pub mirrored : IsMirrored g'
  pub same_size : g'.size ≡ g.size
  pub edges : (u v : ℕ) → elem (g'.succs u) v ≡ (elem (g.succs u) v || f u v)

link-size : (from to : ℕ) (g : GroupDag) → (link from to g).size ≡ g.size
unfolding link
link-size from to g = refl

pub alive-lt :
    (groups : List Group) (gi : ℕ)
    → (get_or groups gi (record { ops = []; alive = false })).alive ≡ true
    → gi < length groups
alive-lt [] gi h = cc
alive-lt (x ∷ groups) zero h = omega arith
alive-lt (x ∷ groups) (suc gi) h = omega (arith, alive-lt groups gi h)

-- The producer of a tensor is outside of the group and in group `u`.
abbrev pub produced_in : Partition → ℕ → ℕ → ℕ → Bool
produced_in part gi u t = elim (part.dag.tensor_producer t) [
  | none ↦ false
  | some p ↦ not (has_op part gi p) && elem (groups_of part p) u
]

-- An operation of the group feeds group `v`, or is fed by group `u`.
abbrev pub feeds : Partition → ℕ → ℕ → ℕ → Bool
feeds part gi v i = elim (get_elem? part.prob.ops i) [
  | none ↦ false
  | some op ↦
      any (λ cop. not (has_op part gi cop) && elem (groups_of part cop) v)
        (part.dag.tensor_consumers (output op))
]

abbrev pub fed_by : Partition → ℕ → ℕ → ℕ → Bool
fed_by part gi u i = elim (get_elem? part.prob.ops i) [
  | none ↦ false
  | some op ↦ any (produced_in part gi u) op.inputs
]

module _ (part : Partition) (gi : ℕ) (alive : (group_at part gi).alive ≡ true) where
  link_out-Adds :
      (gs : List ℕ) (g : GroupDag)
      → g.size ≡ length part.groups
      → IsMirrored g
      → Adds g (link_out part gi gs g) (λ u v. u == gi && is_other part gi v && elem gs v)
  unfolding link_out
  link_out-Adds [] g s m = record { mirrored = m; same_size = refl; edges = λ u v. ground arith }
  link_out-Adds (x ∷ gs) g s m = elim (Bool-cases (is_other part gi x)) [
    | inl e ↦
        let here = alive-lt part.groups gi alive in
        let there = alive-lt part.groups x (ground arith) in
        let a =
          link_out-Adds gs (link gi x g) (link-size gi x g ∙ s)
            (link-IsMirrored gi x g (omega (arith, s)) (omega (arith, s)) m) in
        rw (e, link_out)
          (record {
            mirrored = a.mirrored;
            same_size = a.same_size ∙ link-size gi x g;
            edges = λ u v. elim (eq_or_ne v x) [
              | inl same ↦
                  ground (arith, a.edges u v, elem-link gi x g u v, ap (is_other part gi) same)
              | inr other ↦ ground (arith, a.edges u v, elem-link gi x g u v)
            ];
          })
    | inr e ↦
        let a = link_out-Adds gs g s m in
        rw (e, link_out)
          (record {
            mirrored = a.mirrored;
            same_size = a.same_size;
            edges = λ u v. elim (eq_or_ne v x) [
              | inl same ↦ ground (arith, a.edges u v, ap (is_other part gi) same)
              | inr other ↦ ground (arith, a.edges u v)
            ];
          })
  ]

  link_in-Adds :
      (gs : List ℕ) (g : GroupDag)
      → g.size ≡ length part.groups
      → IsMirrored g
      → Adds g (link_in part gi gs g) (λ u v. v == gi && is_other part gi u && elem gs u)
  unfolding link_in
  link_in-Adds [] g s m = record { mirrored = m; same_size = refl; edges = λ u v. ground arith }
  link_in-Adds (x ∷ gs) g s m = elim (Bool-cases (is_other part gi x)) [
    | inl e ↦
        let here = alive-lt part.groups gi alive in
        let there = alive-lt part.groups x (ground arith) in
        let a =
          link_in-Adds gs (link x gi g) (link-size x gi g ∙ s)
            (link-IsMirrored x gi g (omega (arith, s)) (omega (arith, s)) m) in
        rw (e, link_in)
          (record {
            mirrored = a.mirrored;
            same_size = a.same_size ∙ link-size x gi g;
            edges = λ u v. elim (eq_or_ne u x) [
              | inl same ↦
                  ground (arith, a.edges u v, elem-link x gi g u v, ap (is_other part gi) same)
              | inr other ↦ ground (arith, a.edges u v, elem-link x gi g u v)
            ];
          })
    | inr e ↦
        let a = link_in-Adds gs g s m in
        rw (e, link_in)
          (record {
            mirrored = a.mirrored;
            same_size = a.same_size;
            edges = λ u v. elim (eq_or_ne u x) [
              | inl same ↦ ground (arith, a.edges u v, ap (is_other part gi) same)
              | inr other ↦ ground (arith, a.edges u v)
            ];
          })
  ]

  pub link_consumers-Adds :
      (cops : List ℕ) (g : GroupDag)
      → g.size ≡ length part.groups
      → IsMirrored g
      → Adds g (link_consumers part gi cops g) (λ u v.
        u == gi
        && is_other part gi v
        && any (λ cop. not (has_op part gi cop) && elem (groups_of part cop) v) cops)
  unfolding link_consumers
  link_consumers-Adds [] g s m = record {
    mirrored = m;
    same_size = refl;
    edges = λ u v. ground arith;
  }
  link_consumers-Adds (c ∷ cops) g s m = elim (Bool-cases (has_op part gi c)) [
    | inl e ↦
        let a = link_consumers-Adds cops g s m in
        rw (e, link_consumers)
          (record {
            mirrored = a.mirrored;
            same_size = a.same_size;
            edges = λ u v. ground (arith, a.edges u v);
          })
    | inr e ↦
        let b = link_out-Adds (groups_of part c) g s m in
        let a =
          link_consumers-Adds cops (link_out part gi (groups_of part c) g) (b.same_size ∙ s)
            b.mirrored in
        rw (e, link_consumers)
          (record {
            mirrored = a.mirrored;
            same_size = a.same_size ∙ b.same_size;
            edges = λ u v. ground (arith, a.edges u v, b.edges u v);
          })
  ]

  pub link_producers-Adds :
      (ts : List ℕ) (g : GroupDag)
      → g.size ≡ length part.groups
      → IsMirrored g
      → Adds g
          (link_producers part gi ts g)
          (λ u v. v == gi && is_other part gi u && any (produced_in part gi u) ts)
  unfolding link_producers
  link_producers-Adds [] g s m = record {
    mirrored = m;
    same_size = refl;
    edges = λ u v. ground arith;
  }
  link_producers-Adds (t ∷ ts) g s m = elim (Option-cases (part.dag.tensor_producer t)) [
    | inl none_found ↦
        let a = link_producers-Adds ts g s m in
        rw (none_found, link_producers, produced_in)
          (record {
            mirrored = a.mirrored;
            same_size = a.same_size;
            edges = λ u v. ground (arith, a.edges u v);
          })
    | inr (p, found) ↦ elim (Bool-cases (has_op part gi p)) [
      | inl e ↦
          let a = link_producers-Adds ts g s m in
          rw (found, e, link_producers, produced_in)
            (record {
              mirrored = a.mirrored;
              same_size = a.same_size;
              edges = λ u v. ground (arith, a.edges u v);
            })
      | inr e ↦
          let b = link_in-Adds (groups_of part p) g s m in
          let a =
            link_producers-Adds ts (link_in part gi (groups_of part p) g) (b.same_size ∙ s)
              b.mirrored in
          rw (found, e, link_producers, produced_in)
            (record {
              mirrored = a.mirrored;
              same_size = a.same_size ∙ b.same_size;
              edges = λ u v. ground (arith, a.edges u v, b.edges u v);
            })
    ]
  ]
