-- ===== src/Subgraph/Source.antt =====
-- core/pebbling_order.cpp, BuildSourceOpPebblingGraph. An index out of range, which is undefined in
-- the source, gives a node without predecessors here.
pub mod Nodes
use pto_fusebox.Base.{
  ℕ, zero, suc, ◌+◌, ◌-◌, ◌*◌, ◌/◌, ◌%◌, ◌≤◌, ◌<◌, min, max, ◌≡◌, refl, sym, ap, ◌∙◌, subst,
  fun_ext, ◌≢◌, ◌↔◌, ◌⊎◌, inl, inr, Bool, true, false, not, ◌&&◌, ◌||◌, Option, none, some, List,
  [], ◌∷◌, ◌++◌, map, arith, ltb, leb, ◌==◌, if◌then◌else◌, Bool-cases, Option-cases, eq_or_ne,
  ltb→lt, lt→ltb, leb→le, ==→eq, ==_refl, ==-eq-false, length, get_elem?, get_or, length-append,
  List-cases, All, elem, elem-append, any, any_find, any_intro, any_cong, any_swap, Table, put,
}
use pto_fusebox.FlatSet.{of_range}
use pto_fusebox.Problem.{OpType, Problem}
use pto_fusebox.Dag.{Dag}
use pto_fusebox.Pebbling.{PebblingOrderNode, PebblingOrderGraph}

pub data SourceLocalityRole : Type 0 where
  generic cube_lhs cube_rhs : SourceLocalityRole

pub same_role : SourceLocalityRole → SourceLocalityRole → Bool
same_role SourceLocalityRole.generic SourceLocalityRole.generic = true
same_role SourceLocalityRole.cube_lhs SourceLocalityRole.cube_lhs = true
same_role SourceLocalityRole.cube_rhs SourceLocalityRole.cube_rhs = true
same_role _ _ = false

pub record LocalityKey : Type 0 where
  pub tensor : ℕ
  pub role : SourceLocalityRole

-- `boundary_locality_ids`: the number of a key is its place in the order of insertion.
pub place_of : List LocalityKey → LocalityKey → ℕ
unfolding same_role
place_of [] key = 0
place_of (k ∷ keys) key =
    let rest = suc (place_of keys key) in
    if k.tensor == key.tensor && same_role k.role key.role then 0 else rest

-- `emplace(key, size)`.
pub emplace : List LocalityKey → LocalityKey → List LocalityKey
unfolding place_of
emplace keys key = if place_of keys key == length keys then keys ++ key ∷ [] else keys

pub role_of : OpType → ℕ → SourceLocalityRole
role_of OpType.mat_mul input_index =
    if input_index == 0 then SourceLocalityRole.cube_lhs else SourceLocalityRole.cube_rhs
role_of OpType.pointwise input_index = SourceLocalityRole.generic
role_of OpType.reduction input_index = SourceLocalityRole.generic
role_of OpType.opaque input_index = SourceLocalityRole.generic

-- What the loop over the inputs of an operation has found.
pub record Inputs : Type 0 where
  pub keys : List LocalityKey
  pub predecessors : List ℕ
  pub locality_values : List ℕ

pub read_input : Dag → List ℕ → OpType → ℕ → ℕ → Inputs → Inputs
unfolding emplace role_of
read_input d ops type input_index tensor r =
    let key : LocalityKey = record { tensor = tensor; role = role_of type input_index } in
    let outside = record r {
      keys = emplace r.keys key;
      locality_values = r.locality_values ++ place_of r.keys key ∷ [];
    } in
    elim (d.tensor_producer tensor) [
      | none ↦ outside
      | some p ↦
          if elem ops p then record r { predecessors = r.predecessors ++ p ∷ [] } else outside
    ]

pub read_inputs : Dag → List ℕ → OpType → ℕ → List ℕ → Inputs → Inputs
unfolding read_input
read_inputs d ops type input_index [] r = r
read_inputs d ops type input_index (t ∷ ts) r =
    read_inputs d ops type (suc input_index) ts (read_input d ops type input_index t r)

-- The node of an operation, its lists sorted and without repetition.
abbrev pub source_node : Dag → ℕ → List ℕ → List ℕ → PebblingOrderNode
source_node d op preds locals = record {
  id = op;
  stable_position = d.topo_pos op;
  predecessors = of_range preds;
  locality_values = of_range locals;
}

-- The nodes for the operations of the list, with the keys that are there.
pub source_nodes : Problem → Dag → List ℕ → List ℕ → List LocalityKey → List PebblingOrderNode
unfolding read_inputs
source_nodes prob d ops [] keys = []
source_nodes prob d ops (op ∷ rest) keys =
    let others : List LocalityKey → List PebblingOrderNode = λ k. source_nodes prob d ops rest k in
    elim (get_elem? prob.ops op) [
      | none ↦ source_node d op [] [] ∷ others keys
      | some o ↦
          let r =
            read_inputs d ops o.type 0 o.inputs
              (record { keys = keys; predecessors = []; locality_values = [] }) in
          source_node d op r.predecessors r.locality_values ∷ others r.keys
    ]

-- `BuildSourceOpPebblingGraph`.
unfoldable pub build_source_op_pebbling_graph : Problem → Dag → List ℕ → List ℕ → PebblingOrderGraph
unfolding source_nodes
build_source_op_pebbling_graph prob d ops roots = record {
  nodes = source_nodes prob d ops ops [];
  roots = roots;
}
