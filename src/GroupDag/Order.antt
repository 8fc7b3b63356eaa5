-- ===== src/GroupDag/Order.antt =====
-- core/group_dag.cpp: the order of the groups that `compute_topo_order` computes.
pub mod Positions
pub mod Round
pub mod Result
pub mod Valid
use pto_fusebox.Base.{
  ℕ, zero, suc, ◌+◌, ◌-◌, ◌*◌, ◌/◌, ◌%◌, ◌≤◌, ◌<◌, min, max, ◌≡◌, refl, sym, ap, ◌∙◌, subst,
  fun_ext, ◌≢◌, ◌↔◌, ◌⊎◌, inl, inr, Bool, true, false, not, ◌&&◌, ◌||◌, Option, none, some, List,
  [], ◌∷◌, ◌++◌, map, arith, ltb, leb, ◌==◌, if◌then◌else◌, Bool-cases, Option-cases, eq_or_ne,
  lt_or_ge, ◌^◌, ◌>>=◌, >>=-some, ltb→lt, lt→ltb, leb→le, le→leb, above_leb, ltb_of_zero,
  true_or_false, ==→eq, ==_refl, ==-eq-false, length, get_elem?, get_or, length-append, List-cases,
  All, elem, elem-append, In, All-In, range_by, In-range_by, IsAscending, range_by-IsAscending, any,
  any_find, any_intro, any_cong, Table, put,
}
use native.Mathlib.Nat.{le_refl}
use pto_fusebox.FlatSet.{FlatSet}
use pto_fusebox.FlatSet.Order.{IsSorted}
use pto_fusebox.FlatSet.Member.{elem-below}
use pto_fusebox.Dag.Topo.Kahn.{missing, missing-append, missing-zero, missing-pos}
use pto_fusebox.Dag.Topo.Complete.{
  unplaced, unplaced-append, unplaced-pos, length-unplaced, missing-nil,
}
use pto_fusebox.Partition.{Partition, group_at}
use pto_fusebox.GroupDag.{
  GroupDag, GroupFrontier, release, place, run_kahn, start_groups, start_frontier,
  compute_topo_order,
}
use pto_fusebox.GroupDag.Edges.{IsMirrored}

-- No element twice.
abbrev pub IsUnique : List ℕ → Type 0
IsUnique [] = Unit
IsUnique (x ∷ xs) = (elem xs x ≡ false) × IsUnique xs

pub IsUnique-append :
    (xs : List ℕ) (x : ℕ) → IsUnique xs → elem xs x ≡ false → IsUnique (xs ++ x ∷ [])
IsUnique-append [] x u h = (refl, tt)
IsUnique-append (y ∷ ys) x u h = ground (arith, IsUnique-append ys x, elem-append ys (x ∷ []) y)

-- `release` counts down once for each successor and touches nothing but counters and queue.
pub in_deg-release :
    (vs : List ℕ) (f : GroupFrontier) (x : ℕ)
    → IsSorted vs
    → (release vs f).in_deg x ≡ f.in_deg x - (if elem vs x then 1 else 0)
unfolding release
in_deg-release [] f x s = omega arith
in_deg-release (v ∷ vs) f x s =
    ground (arith, in_deg-release vs (release (v ∷ []) f) x, elem-below v vs x)

pub elem-release :
    (vs : List ℕ) (f : GroupFrontier) (x : ℕ)
    → IsSorted vs
    → elem (release vs f).queue x ≡ (elem f.queue x || elem vs x && f.in_deg x == 1)
unfolding release
elem-release [] f x s = ground arith
elem-release (v ∷ vs) f x s = ground (
  arith,
  elem-release vs (release (v ∷ []) f) x,
  elem-below v vs x,
  elem-append f.queue (v ∷ []) x,
)

pub release-IsUnique :
    (vs : List ℕ) (f : GroupFrontier)
    → IsSorted vs
    → IsUnique f.queue
    → ((x : ℕ) → elem vs x ≡ true → f.in_deg x ≡ 1 → elem f.queue x ≡ false)
    → IsUnique (release vs f).queue
unfolding release
release-IsUnique [] f s u h = u
release-IsUnique (v ∷ vs) f s u h =
    release-IsUnique vs (release (v ∷ []) f) s.1 (ground (arith, IsUnique-append f.queue v u, h v))
      (λ x m e. ground (arith, h x, elem-below v vs x s.0, elem-append f.queue (v ∷ []) x))

pub release-pos :
    (vs : List ℕ) (f : GroupFrontier)
    → ((release vs f).pos ≡ f.pos) × ((release vs f).order ≡ f.order)
unfolding release
release-pos [] f = (refl, refl)
release-pos (v ∷ vs) f = release-pos vs (release (v ∷ []) f)
