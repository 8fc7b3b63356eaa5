-- ===== src/Partition/Recomputed.antt =====
-- partition/partition.cpp, Partition::has_recomputed_ops.
use pto_fusebox.Base.{
  ℕ, ◌+◌, ◌≤◌, ◌≡◌, refl, ap, ◌↔◌, inl, inr, Bool, true, false, ◌&&◌, ◌||◌, Option, none, some,
  List, [], ◌∷◌, arith, if◌then◌else◌, Bool-cases, Option-cases, eq_or_ne, All, elem, Table, put,
}
use pto_fusebox.FlatSet.Order.{IsSorted}
use pto_fusebox.FlatSet.Member.{elem-below}
use pto_fusebox.Partition.{Group, Partition}

-- The loop over the operations of a group; `none` is the early return.
pub see_ops : List ℕ → Table Bool → Option (Table Bool)
see_ops [] seen = some seen
see_ops (op ∷ ops) seen =
    let rest = see_ops ops (put seen op true) in if seen op then none else rest

pub see_groups : List Group → Table Bool → Bool
unfolding see_ops
see_groups [] seen = false
see_groups (g ∷ groups) seen =
    let skip = see_groups groups seen in
    let next : Table Bool → Bool = λ seen'. see_groups groups seen' in
    if g.alive then elim (see_ops g.ops seen) [ none ↦ true | some seen' ↦ next seen' ] else skip

unfoldable pub has_recomputed_ops : Partition → Bool
unfolding see_groups
has_recomputed_ops part = see_groups part.groups (λ op. false)

-- How many of the groups alive contain the operation.
abbrev pub copies : ℕ → List Group → ℕ
copies op [] = 0
copies op (g ∷ groups) = (if g.alive && elem g.ops op then 1 else 0) + copies op groups

see_ops-some :
    (ops : List ℕ) (seen seen' : Table Bool)
    → see_ops ops seen ≡ some seen'
    → IsSorted ops
    → (op : ℕ) → (seen' op ≡ (seen op || elem ops op)) × ((seen op && elem ops op) ≡ false)
unfolding see_ops
see_ops-some [] seen seen' h s op =
    let same : seen ≡ seen' = cc in (ground (arith, ap (λ t. t op) same), ground arith)
see_ops-some (x ∷ ops) seen seen' h s op = elim (Bool-cases (seen x)) [
  | inl e ↦ cc (rw (e, see_ops) at h)
  | inr e ↦
      let ih = see_ops-some ops (put seen x true) seen' (rw (e, see_ops) at h) s.1 op in
      elim (eq_or_ne x op) [
        | inl same ↦
            (ground (arith, ih.0), ground (arith, ih.1, e, ap seen same, elem-below x ops op s.0))
        | inr other ↦ (ground (arith, ih.0), ground (arith, ih.1))
      ]
]

see_ops-none :
    (ops : List ℕ) (seen : Table Bool)
    → see_ops ops seen ≡ none
    → IsSorted ops
    → (op : ℕ) × (elem ops op ≡ true) × (seen op ≡ true)
unfolding see_ops
see_ops-none [] seen h s = cc
see_ops-none (x ∷ ops) seen h s = elim (Bool-cases (seen x)) [
  | inl e ↦ (x, ground arith, e)
  | inr e ↦
      let (op, m, k) = see_ops-none ops (put seen x true) (rw (e, see_ops) at h) s.1 in
      (op, ground arith, ground (arith, elem-below x ops op s.0))
]

see_groups_iff :
    (groups : List Group) (seen : Table Bool)
    → All (λ (g : Group). IsSorted g.ops) groups
    → (see_groups groups seen ≡ false)
      ↔ ((op : ℕ) → (if seen op then 1 else 0) + copies op groups ≤ 1)
unfolding see_groups
see_groups_iff [] seen s = (λ h op. ground arith, λ h. refl)
see_groups_iff (g ∷ groups) seen s = elim (Bool-cases g.alive) [
  | inr dead ↦
      let ih = see_groups_iff groups seen s.1 in
      rw (dead, see_groups)
        (λ h op. ground (arith, ih.0 h op), λ h. ih.1 (λ op. ground (arith, h op)))
  | inl live ↦ elim (Option-cases (see_ops g.ops seen)) [
    | inl found ↦
        let (op, m, k) = see_ops-none g.ops seen found s.0 in
        rw (live, found, see_groups) (λ h. cc, λ h. absurd (ground (arith, h op, m, k)))
    | inr (seen', done) ↦
        let ih = see_groups_iff groups seen' s.1 in
        let step = see_ops-some g.ops seen seen' done s.0 in
        rw (live, done, see_groups)
          (
            λ h op. ground (arith, ih.0 h op, step op),
            λ h. ih.1 (λ op. ground (arith, h op, step op)),
          )
  ]
]

-- When the sets of the groups are sorted, `has_recomputed_ops` is false exactly when every operation
-- is in at most one of the groups alive.
pub has_recomputed_ops_iff :
    (part : Partition)
    → All (λ (g : Group). IsSorted g.ops) part.groups
    → (has_recomputed_ops part ≡ false) ↔ ((op : ℕ) → copies op part.groups ≤ 1)
unfolding has_recomputed_ops
has_recomputed_ops_iff part s =
    let both = see_groups_iff part.groups (λ op. false) s in
    (λ h op. omega (arith, both.0 h op), λ h. both.1 (λ op. omega (arith, h op)))
