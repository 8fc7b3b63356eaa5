-- ===== src/Partition/Index.antt =====
-- partition/partition.cpp: the index against the groups.
use pto_fusebox.Base.{
  ℕ, zero, suc, ◌+◌, ◌<◌, ◌≡◌, refl, ap, inl, inr, Bool, true, false, ◌&&◌, ◌||◌, List, [], ◌∷◌,
  arith, ◌==◌, Bool-cases, eq_or_ne, get_or, elem, elem-append, Table,
}
use native.Mathlib.Nat.{zero-add}
use pto_fusebox.FlatSet.{FlatSet}
use pto_fusebox.Problem.{num_ops}
use pto_fusebox.Dag.Build.{push_back}
use pto_fusebox.Partition.{
  Group, Partition, group_at, groups_of, index_ops, index_groups, rebuild_index,
}

-- Operation `op` is in group `gi`, which is alive.
abbrev pub is_in : Partition → ℕ → ℕ → Bool
is_in part op gi = (group_at part gi).alive && elem (group_at part gi).ops op

-- The groups contain operations of the problem only.
pub record HasOps (part : Partition) : Type 0 where
  pub bounded : (gi op : ℕ) → elem (group_at part gi).ops op ≡ true → op < num_ops part.prob

elem-index_ops :
    (gi : ℕ) (ops : FlatSet) (index : Table (List ℕ)) (op gj : ℕ)
    → elem (index_ops gi ops index op) gj ≡ (elem (index op) gj || gj == gi && elem ops op)
unfolding index_ops
elem-index_ops gi [] index op gj = ground arith
elem-index_ops gi (x ∷ ops) index op gj = elim (eq_or_ne x op) [
  | inl e ↦ ground (
    arith,
    elem-index_ops gi ops (push_back index x gi) op gj,
    elem-append (index x) (gi ∷ []) gj,
    ap (λ y. elem (index y) gj) e,
  )
  | inr e ↦ ground (arith, elem-index_ops gi ops (push_back index x gi) op gj)
]

-- The groups of a list that is counted from `gi`.
abbrev in_groups : ℕ → List Group → ℕ → ℕ → Bool
in_groups gi [] op gj = false
in_groups gi (g ∷ groups) op gj =
    gj == gi && (g.alive && elem g.ops op) || in_groups (suc gi) groups op gj

elem-index_groups :
    (gi : ℕ) (groups : List Group) (index : Table (List ℕ)) (op gj : ℕ)
    → elem (index_groups gi groups index op) gj ≡ (elem (index op) gj || in_groups gi groups op gj)
unfolding index_groups
elem-index_groups gi [] index op gj = ground arith
elem-index_groups gi (g ∷ groups) index op gj = elim (Bool-cases g.alive) [
  | inl e ↦
      rw (e, index_groups)
        (ground (
          arith,
          elem-index_groups (suc gi) groups (index_ops gi g.ops index) op gj,
          elem-index_ops gi g.ops index op gj,
        ))
  | inr e ↦ rw (e, index_groups) (ground (arith, elem-index_groups (suc gi) groups index op gj))
]

in_groups-below :
    (gi : ℕ) (groups : List Group) (op gj : ℕ) → gj < gi → in_groups gi groups op gj ≡ false
in_groups-below gi [] op gj h = refl
in_groups-below gi (g ∷ groups) op gj h = ground (arith, in_groups-below (suc gi) groups op gj)

in_groups-at :
    (gi : ℕ) (groups : List Group) (op k : ℕ)
    → in_groups gi groups op (gi + k) ≡ (
        (get_or groups k (record { ops = []; alive = false })).alive
        && elem (get_or groups k (record { ops = []; alive = false })).ops op)
in_groups-at gi [] op k = refl
in_groups-at gi (g ∷ groups) op zero = ground (arith, in_groups-below (suc gi) groups op (gi + 0))
in_groups-at gi (g ∷ groups) op (suc k) =
    let e : gi + suc k ≡ suc gi + k = omega arith in
    rw e (ground (arith, in_groups-at (suc gi) groups op k))

-- After `rebuild_index`, the groups of an operation are exactly the groups alive that contain it.
pub rebuild_index_lem :
    (part : Partition)
    → HasOps part
    → (op gj : ℕ) → elem (groups_of (rebuild_index part) op) gj ≡ is_in part op gj
unfolding groups_of rebuild_index
rebuild_index_lem part h op gj = ground (
  arith,
  elem-index_groups 0 part.groups (λ op. []) op gj,
  in_groups-at 0 part.groups op gj,
  ap (λ k. in_groups 0 part.groups op k) (zero-add gj),
  h.bounded gj op,
)
