-- ===== src/Pebbling.antt =====
-- core/pebbling_order.h and core/pebbling_order.cpp: the order in which the operations of a subgraph
-- run, by depth-first search.
pub mod Stack
pub mod Needs
pub mod Order
pub mod Run
pub mod Roots
mod Tests
use pto_fusebox.Base.{
  ℕ, zero, suc, ◌+◌, ◌-◌, ◌*◌, ◌/◌, ◌%◌, ◌≤◌, ◌<◌, min, max, ◌≡◌, refl, sym, ap, ◌∙◌, subst,
  fun_ext, ◌≢◌, ◌↔◌, ◌⊎◌, inl, inr, Bool, true, false, not, ◌&&◌, ◌||◌, Option, none, some, List,
  [], ◌∷◌, ◌++◌, map, arith, ltb, leb, ◌==◌, if◌then◌else◌, Bool-cases, Option-cases, eq_or_ne,
  ltb→lt, lt→ltb, leb→le, ==→eq, ==_refl, ==-eq-false, length, get_elem?, get_or, length-append,
  List-cases, All, elem, elem-append, any, any_find, any_intro, any_cong, Table, put,
}
use pto_fusebox.FlatSet.{unique}

pub record PebblingOrderNode : Type 0 where
  pub id : ℕ
  pub stable_position : ℕ
  pub predecessors : List ℕ
  pub locality_values : List ℕ

pub record PebblingOrderGraph : Type 0 where
  pub nodes : List PebblingOrderNode
  pub roots : List ℕ

-- `by_id.find(id)`. `emplace` keeps the first of the nodes with an id.
unfoldable pub find_node : List PebblingOrderNode → ℕ → Option PebblingOrderNode
find_node [] id = none
find_node (node ∷ nodes) id = if node.id == id then some node else find_node nodes id

abbrev pub is_node : List PebblingOrderNode → ℕ → Bool
is_node nodes id = elim (find_node nodes id) [ none ↦ false | some node ↦ true ]

pub stable_position : List PebblingOrderNode → ℕ → ℕ
unfolding find_node
stable_position nodes id = elim (find_node nodes id) [
  | none ↦ id
  | some node ↦ node.stable_position
]

pub by_stable_position : List PebblingOrderNode → ℕ → ℕ → Bool
unfolding stable_position
by_stable_position nodes lhs rhs =
    if stable_position nodes lhs == stable_position nodes rhs
    then ltb lhs rhs
    else ltb (stable_position nodes lhs) (stable_position nodes rhs)

-- `std::sort` with a comparison.
pub sort_insert_by : (ℕ → ℕ → Bool) → ℕ → List ℕ → List ℕ
sort_insert_by before a [] = a ∷ []
sort_insert_by before a (x ∷ xs) = if before a x then a ∷ x ∷ xs else x ∷ sort_insert_by before a xs

pub sort_by : (ℕ → ℕ → Bool) → List ℕ → List ℕ
unfolding sort_insert_by
sort_by before [] = []
sort_by before (x ∷ xs) = sort_insert_by before x (sort_by before xs)

-- The list sorted by stable positions, without repetition.
pub arrange : List PebblingOrderNode → List ℕ → List ℕ
unfolding sort_by by_stable_position unique
arrange nodes xs = unique (sort_by (by_stable_position nodes) xs)

pub record Entry : Type 0 where
  pub node_id : ℕ
  pub expanded : Bool

-- The loop that pushes the predecessors in reverse: the first one ends on the top. `visited` is the
-- list of the elements of the set.
pub push_unvisited : List PebblingOrderNode → List ℕ → List ℕ → List Entry → List Entry
unfolding find_node
push_unvisited nodes visited [] stack = stack
push_unvisited nodes visited (p ∷ ps) stack =
    let rest = push_unvisited nodes visited ps stack in
    if not (elem visited p) && is_node nodes p
    then record { node_id = p; expanded = false } ∷ rest
    else rest

pub record Search : Type 0 where
  pub visited : List ℕ
  pub order : List ℕ

-- The `while` loop. `none` means that the fuel ran out, or that `by_id.at` throws.
pub run_stack : List PebblingOrderNode → ℕ → List Entry → Search → Option Search
unfolding push_unvisited arrange find_node
run_stack nodes fuel [] s = some s
run_stack nodes zero (e ∷ stack) s = none
run_stack nodes (suc fuel) (e ∷ stack) s =
    let finish = run_stack nodes fuel stack (record s { order = s.order ++ e.node_id ∷ [] }) in
    let skip = run_stack nodes fuel stack s in
    let visited = e.node_id ∷ s.visited in
    let expand : PebblingOrderNode → Option Search = λ node.
      run_stack nodes fuel
        (push_unvisited nodes visited (arrange nodes node.predecessors)
          (record { node_id = e.node_id; expanded = true } ∷ stack))
        (record s { visited = visited }) in
    if e.expanded
    then finish
    else if elem s.visited e.node_id
    then skip
    else elim (find_node nodes e.node_id) [ none ↦ none | some node ↦ expand node ]

-- Fuel for one root: each node is expanded once, and then pushes itself and its predecessors.
pub fuel_for : List PebblingOrderNode → ℕ
fuel_for [] = 1
fuel_for (node ∷ nodes) = suc (length node.predecessors) + fuel_for nodes

-- The loop over the roots.
pub run_roots : List PebblingOrderNode → List ℕ → Search → Option Search
unfolding run_stack fuel_for
run_roots nodes [] s = some s
run_roots nodes (root ∷ roots) s =
    let skip = run_roots nodes roots s in
    let search : Search → Option Search = λ s'. run_roots nodes roots s' in
    if elem s.visited root || not (is_node nodes root)
    then skip
    else elim (run_stack nodes (fuel_for nodes) (record { node_id = root; expanded = false } ∷ [])
        s) [ none ↦ none | some s' ↦ search s' ]

-- `DfsPostOrderStrategy::Compute`.
unfoldable pub compute : PebblingOrderGraph → Option (List ℕ)
unfolding run_roots
compute graph =
    elim (run_roots graph.nodes (arrange graph.nodes graph.roots)
      (record { visited = []; order = [] })) [ none ↦ none | some s ↦ some s.order ]
