-- ===== src/GroupDag/Explore.antt =====
-- core/group_dag.cpp: the searches in breadth, which `can_reach`, `merge_creates_cycle` and the
-- `eval_` methods have in common. What the inner loops over one group come upon, in their order, is a
-- list of events: the search is over, or a group is visited.
pub mod Marks
pub mod Correct
use pto_fusebox.Base.{
  ℕ, zero, suc, ◌+◌, ◌-◌, ◌*◌, ◌/◌, ◌%◌, ◌≤◌, ◌<◌, min, max, ◌≡◌, refl, sym, ap, ◌∙◌, subst,
  fun_ext, ◌≢◌, ◌↔◌, ◌⊎◌, inl, inr, Bool, true, false, not, ◌&&◌, ◌||◌, Option, none, some, List,
  [], ◌∷◌, ◌++◌, map, arith, ltb, leb, ◌==◌, if◌then◌else◌, Bool-cases, Option-cases, eq_or_ne,
  lt_or_ge, ◌^◌, ◌>>=◌, >>=-some, ltb→lt, lt→ltb, leb→le, le→leb, above_leb, ltb_of_zero,
  true_or_false, ==→eq, ==_refl, ==-eq-false, length, get_elem?, get_or, length-append, List-cases,
  All, elem, elem-append, In, All-In, range_by, In-range_by, IsAscending, range_by-IsAscending, any,
  any_find, any_intro, any_cong, Table, put,
}

pub data Event : Type 0 where
  found : Event
  visit : ℕ → Event

-- `visited` and `q` from `front` on.
pub record Search : Type 0 where
  pub visited : Table Bool
  pub queue : List ℕ

-- `if (visited[g]) continue; visited[g] = true; q.push_back(g);`
unfoldable pub mark : ℕ → Search → Search
mark g s =
    if s.visited g then s else record { visited = put s.visited g true; queue = s.queue ++ g ∷ [] }

-- The inner loops; `none` is `return true`.
unfoldable pub scan : List Event → Search → Option Search
scan [] s = some s
scan (Event.found ∷ events) s = none
scan (Event.visit g ∷ events) s = scan events (mark g s)

-- `none` answers true.
abbrev pub unless_found : Option Search → (Search → Option Bool) → Option Bool
unless_found none f = some true
unless_found (some s) f = f s

-- `while (front < q.size())`; `none` means that the fuel ran out.
unfoldable pub explore : (ℕ → List Event) → ℕ → List ℕ → Search → Option Bool
explore expand fuel [] s = some false
explore expand zero (cur ∷ queue) s = none
explore expand (suc fuel) (cur ∷ queue) s =
    unless_found (scan (expand cur) (record s { queue = queue }))
      λ next. explore expand fuel next.queue next

-- A search from the seeds that does not enter the groups marked at the start. Each round takes a
-- group off for good, so one round for each of `n` groups is enough.
unfoldable pub search : ℕ → Table Bool → List Event → (ℕ → List Event) → Option Bool
search n closed seeds expand =
    unless_found (scan seeds (record { visited = closed; queue = [] }))
      λ s. explore expand n s.queue s
