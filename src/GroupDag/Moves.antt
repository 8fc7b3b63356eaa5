-- ===== src/GroupDag/Moves.antt =====
-- core/group_dag.cpp: the tests whether a move would create a cycle. The partition has its problem
-- and its graph; an operation out of range, which is undefined in the source, has no tensors.
pub mod Split
use pto_fusebox.Base.{
  ℕ, zero, suc, ◌+◌, ◌-◌, ◌*◌, ◌/◌, ◌%◌, ◌≤◌, ◌<◌, min, max, ◌≡◌, refl, sym, ap, ◌∙◌, subst,
  fun_ext, ◌≢◌, ◌↔◌, ◌⊎◌, inl, inr, Bool, true, false, not, ◌&&◌, ◌||◌, Option, none, some, List,
  [], ◌∷◌, ◌++◌, map, arith, ltb, leb, ◌==◌, if◌then◌else◌, Bool-cases, Option-cases, eq_or_ne,
  lt_or_ge, ◌^◌, ◌>>=◌, >>=-some, ltb→lt, lt→ltb, leb→le, le→leb, above_leb, ltb_of_zero,
  true_or_false, ==→eq, ==_refl, ==-eq-false, length, get_elem?, get_or, length-append, List-cases,
  All, elem, elem-append, In, All-In, range_by, In-range_by, IsAscending, range_by-IsAscending, any,
  any_find, any_intro, any_cong, Table, put,
}
use pto_fusebox.FlatSet.{FlatSet, count}
use pto_fusebox.Problem.{Op, OpType, opaque, output}
use pto_fusebox.Partition.{Partition, group_at, groups_of}
use pto_fusebox.GroupDag.{GroupDag, has_op}
use pto_fusebox.GroupDag.Explore.{Event, search}
use pto_fusebox.GroupDag.Queries.{can_reach}

abbrev op_at : Partition → ℕ → Op
op_at part i = get_or part.prob.ops i (record { type = OpType.opaque; inputs = []; outputs = [] })

abbrev pub consumers_of : Partition → ℕ → List ℕ
consumers_of part op = part.dag.tensor_consumers (output (op_at part op))

-- The groups of the list that are alive and not `g`.
pub others : Partition → ℕ → List ℕ → List ℕ
others part g [] = []
others part g (x ∷ xs) =
    let rest = others part g xs in
    if not (x == g) && (group_at part x).alive then x ∷ rest else rest

-- Whether some source cannot be reached from the group; the loop that sets `any_free`.
pub any_free : GroupDag → ℕ → List ℕ → Option Bool
any_free g from [] = some false
any_free g from (gp ∷ gs) = do
  reached ← can_reach g from gp
  rest ← any_free g from gs
  some (not reached || rest)

-- Whether some group of the list has no free source.
pub any_blocked : GroupDag → List ℕ → List ℕ → Option Bool
any_blocked g sources [] = some false
any_blocked g sources (gc ∷ gs) = do
  free ← any_free g gc sources
  rest ← any_blocked g sources gs
  some (not free || rest)

-- Another operation of the group consumes the tensor.
abbrev pub is_consumed_in : Partition → ℕ → ℕ → List ℕ → Bool
is_consumed_in part g op consumers = any (λ cop. not (cop == op) && has_op part g cop) consumers

-- The producer of an input that the group gets from outside.
abbrev pub outside_producer : Partition → ℕ → ℕ → ℕ → Option ℕ
outside_producer part op gb t =
    if is_consumed_in part gb op (part.dag.tensor_consumers t)
    then none
    else (part.dag.tensor_producer t >>= λ prod. if has_op part gb prod then none else some prod)

abbrev pub lacks_source : Partition → GroupDag → ℕ → Option ℕ → Option Bool
lacks_source part g gb none = some false
lacks_source part g gb (some prod) = any_blocked g (others part gb (groups_of part prod)) (gb ∷ [])

pub recompute_inputs : Partition → GroupDag → ℕ → ℕ → List ℕ → Option Bool
recompute_inputs part g op gb [] = some false
recompute_inputs part g op gb (t ∷ ts) = do
  lacks ← lacks_source part g gb (outside_producer part op gb t)
  rest ← recompute_inputs part g op gb ts
  some (lacks || rest)

unfoldable pub eval_recompute : Partition → GroupDag → ℕ → ℕ → Option Bool
eval_recompute part g op gb = recompute_inputs part g op gb (op_at part op).inputs

-- The group itself, if it consumes the tensor that it no longer computes.
abbrev pub own_need : Partition → ℕ → ℕ → List ℕ
own_need part g op = if is_consumed_in part g op (consumers_of part op) then g ∷ [] else []

-- The other groups that consume the tensor, by an operation that passes the test.
pub other_needs : Partition → (ℕ → Bool) → ℕ → List ℕ → List ℕ
other_needs part skips g [] = []
other_needs part skips g (cop ∷ cops) =
    let rest = other_needs part skips g cops in
    if skips cop then rest else others part g (groups_of part cop) ++ rest

unfoldable pub eval_de_recompute : Partition → GroupDag → ℕ → ℕ → Option Bool
eval_de_recompute part g op ga =
    let sources = others part ga (groups_of part op) in
    let outside = other_needs part (has_op part ga) ga (consumers_of part op) in
    do
      own ← any_blocked g sources (own_need part ga op)
      rest ← if length sources == 0 then some false else any_blocked g sources outside
      some (own || rest)

unfoldable pub eval_steal : Partition → GroupDag → ℕ → ℕ → ℕ → Option Bool
eval_steal part g op from to =
    let kept = others part to (others part from (groups_of part op)) in
    let sources = if (group_at part to).alive then to ∷ kept else kept in
    let outside = others part to (other_needs part (λ cop. false) from (consumers_of part op)) in
    do
      gains ← eval_recompute part g op to
      own ← any_blocked g sources (own_need part from op)
      rest ← if length sources == 0 then some false else any_blocked g sources outside
      some (gains || (own || rest))

-- The groups of the list that are alive are visited.
pub visit_alive : Partition → List ℕ → List Event
visit_alive part [] = []
visit_alive part (gc ∷ gs) =
    let rest = visit_alive part gs in
    if (group_at part gc).alive then Event.visit gc ∷ rest else rest

pub split_events : Partition → ℕ → List ℕ → List Event
split_events part ga [] = []
split_events part ga (gj ∷ gs) =
    let rest = split_events part ga gs in
    if gj == ga
    then Event.found ∷ rest
    else (if (group_at part gj).alive then Event.visit gj ∷ rest else rest)

-- The two sides are not read.
unfoldable pub eval_split : Partition → GroupDag → FlatSet → FlatSet → ℕ → Option Bool
eval_split part g side_a side_b ga =
    if leb g.size ga
    then some false
    else search g.size (λ x. x == ga) (visit_alive part (g.succs ga))
        (λ cur. split_events part ga (g.succs cur))

-- The consumers of one tensor: at the start, and in a round.
pub seed_consumers : Partition → (ℕ → Bool) → List ℕ → List Event
seed_consumers part inside [] = []
seed_consumers part inside (cop ∷ cops) =
    let rest = seed_consumers part inside cops in
    if inside cop then rest else visit_alive part (groups_of part cop) ++ rest

pub follow_consumers : Partition → (ℕ → Bool) → List ℕ → List Event
follow_consumers part inside [] = []
follow_consumers part inside (cop ∷ cops) =
    let rest = follow_consumers part inside cops in
    if inside cop then Event.found ∷ rest else visit_alive part (groups_of part cop) ++ rest

pub seed_ops : Partition → (ℕ → Bool) → List ℕ → List Event
seed_ops part inside [] = []
seed_ops part inside (op ∷ ops) =
    seed_consumers part inside (consumers_of part op) ++ seed_ops part inside ops

pub follow_ops : Partition → (ℕ → Bool) → (ℕ → Bool) → List ℕ → List Event
follow_ops part skips inside [] = []
follow_ops part skips inside (op ∷ ops) =
    let rest = follow_ops part skips inside ops in
    if skips op then rest else follow_consumers part inside (consumers_of part op) ++ rest

unfoldable pub eval_extract : Partition → GroupDag → FlatSet → Option Bool
eval_extract part g extract_ops =
    let inside = λ (op : ℕ). count extract_ops op == 1 in
    if length extract_ops == 0
    then some false
    else search g.size (λ x. false) (seed_ops part inside extract_ops)
        (λ cur. follow_ops part inside inside (group_at part cur).ops)

unfoldable pub eval_add_ops_into : Partition → GroupDag → FlatSet → ℕ → Option Bool
eval_add_ops_into part g new_ops gi =
    let in_merged = λ (op : ℕ). count new_ops op == 1 || has_op part gi op in
    if length new_ops == 0 || leb (length part.groups) gi
    then some false
    else search (max g.size (length part.groups)) (λ x. x == gi)
        (seed_ops part in_merged (new_ops ++ (group_at part gi).ops))
        (λ cur. follow_ops part (λ op. false) in_merged (group_at part cur).ops)
