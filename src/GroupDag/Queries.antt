-- ===== src/GroupDag/Queries.antt =====
-- core/group_dag.cpp: `can_reach` and `merge_creates_cycle`.
pub mod Reach
pub mod Events
pub mod Cycle
use pto_fusebox.Base.{
  ℕ, zero, suc, ◌+◌, ◌-◌, ◌*◌, ◌/◌, ◌%◌, ◌≤◌, ◌<◌, min, max, ◌≡◌, refl, sym, ap, ◌∙◌, subst,
  fun_ext, ◌≢◌, ◌↔◌, ◌⊎◌, inl, inr, Bool, true, false, not, ◌&&◌, ◌||◌, Option, none, some, List,
  [], ◌∷◌, ◌++◌, map, arith, ltb, leb, ◌==◌, if◌then◌else◌, Bool-cases, Option-cases, eq_or_ne,
  lt_or_ge, ◌^◌, ◌>>=◌, >>=-some, ltb→lt, lt→ltb, leb→le, le→leb, above_leb, ltb_of_zero,
  true_or_false, ==→eq, ==_refl, ==-eq-false, length, get_elem?, get_or, length-append, List-cases,
  All, elem, elem-append, In, All-In, range_by, In-range_by, IsAscending, range_by-IsAscending, any,
  any_find, any_intro, any_cong, Table, put,
}
use pto_fusebox.GroupDag.{GroupDag}
use pto_fusebox.GroupDag.Explore.{Event, search}

-- Both groups have a position, and that of `a` is not after that of `b`.
abbrev pub pos_le : Option ℕ → Option ℕ → Bool
pos_le (some i) (some j) = leb i j
pos_le _ _ = false

abbrev pub not_after : GroupDag → ℕ → ℕ → Bool
not_after g a b = pos_le (g.topo_pos a) (g.topo_pos b)

-- The loop over the successors of a group in `can_reach`.
unfoldable pub reach_events : GroupDag → ℕ → ℕ → List ℕ → List Event
reach_events g from to [] = []
reach_events g from to (gj ∷ gs) =
    let rest = reach_events g from to gs in
    if gj == to
    then Event.found ∷ rest
    else (if ltb gj g.size && not (not_after g gj from) then Event.visit gj ∷ rest else rest)

unfoldable pub can_reach : GroupDag → ℕ → ℕ → Option Bool
can_reach g from to =
    if leb g.size from || leb g.size to
    then some false
    else (if from == to
        then some true
        else (if not_after g to from
            then some false
            else search g.size (λ x. false) (Event.visit from ∷ [])
                (λ cur. reach_events g from to (g.succs cur))))

-- `in_merge`.
abbrev pub is_merged : GroupDag → List ℕ → ℕ → Bool
is_merged g merge_set x = elem merge_set x && ltb x g.size

-- `all_have_topo` and `max_pos`, over the groups of the set that exist.
abbrev pub is_placed : Option ℕ → Bool
is_placed none = false
is_placed (some i) = true

abbrev pub later : Option ℕ → ℕ → ℕ
later none i = i
later (some j) i = max j i

unfoldable pub all_have_topo : GroupDag → List ℕ → Bool
all_have_topo g [] = true
all_have_topo g (x ∷ xs) = (leb g.size x || is_placed (g.topo_pos x)) && all_have_topo g xs

unfoldable pub max_pos : GroupDag → List ℕ → ℕ
max_pos g [] = 0
max_pos g (x ∷ xs) = if leb g.size x then max_pos g xs else later (g.topo_pos x) (max_pos g xs)

-- `topo_pos_[gj] < 0 || topo_pos_[gj] <= max_pos`.
abbrev pub may_return : Option ℕ → ℕ → Bool
may_return none top = true
may_return (some i) top = leb i top

abbrev pub needs_bfs : GroupDag → List ℕ → Bool
needs_bfs g merge_set =
    any
      (λ gi.
        ltb gi g.size
        && any
            (λ gj.
              not (is_merged g merge_set gj) && may_return (g.topo_pos gj) (max_pos g merge_set))
            (g.succs gi))
      merge_set

-- The fast path: some group of the set exists, all that exist have positions, and all external
-- successors come later.
abbrev pub is_safe : GroupDag → List ℕ → Bool
is_safe g merge_set =
    all_have_topo g merge_set && any (λ gi. ltb gi g.size) merge_set && not (needs_bfs g merge_set)

-- The loop over the successors of one group: at the start, and in a round.
unfoldable pub seed_events : GroupDag → List ℕ → List ℕ → List Event
seed_events g merge_set [] = []
seed_events g merge_set (gj ∷ gs) =
    let rest = seed_events g merge_set gs in
    if is_merged g merge_set gj then rest else Event.visit gj ∷ rest

unfoldable pub seeds_of : GroupDag → List ℕ → List ℕ → List Event
seeds_of g merge_set [] = []
seeds_of g merge_set (gi ∷ gs) =
    let rest = seeds_of g merge_set gs in
    if leb g.size gi then rest else seed_events g merge_set (g.succs gi) ++ rest

unfoldable pub merge_events : GroupDag → List ℕ → List ℕ → List Event
merge_events g merge_set [] = []
merge_events g merge_set (gj ∷ gs) =
    let rest = merge_events g merge_set gs in
    if is_merged g merge_set gj then Event.found ∷ rest else Event.visit gj ∷ rest

unfoldable pub merge_creates_cycle : GroupDag → List ℕ → Option Bool
merge_creates_cycle g merge_set =
    if leb (length merge_set) 1
    then some false
    else (if is_safe g merge_set
        then some false
        else search g.size (λ x. false) (seeds_of g merge_set merge_set)
            (λ cur. merge_events g merge_set (g.succs cur)))

-- MERGE(ga absorbs gb).
unfoldable pub eval_merge : GroupDag → ℕ → ℕ → Option Bool
eval_merge g ga gb = merge_creates_cycle g (ga ∷ gb ∷ [])
