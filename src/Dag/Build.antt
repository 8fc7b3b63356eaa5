-- ===== src/Dag/Build.antt =====
-- core/dag.cpp, DAG::build: the tables of the graph, from the problem.
pub mod Producers
pub mod Edges
pub mod Correct
pub mod Endings
pub mod Tables
pub mod Places
pub mod Longest
use pto_fusebox.Base.{
  ℕ, zero, suc, ◌+◌, List, [], ◌∷◌, ◌++◌, Option, none, some, Bool, true, false, not, ◌&&◌, ◌||◌,
  Table, put, ltb, ◌==◌, if◌then◌else◌, get_elem?, length, max,
}
use pto_fusebox.Problem.{Op, Problem, output, num_ops, num_tensors}
use pto_fusebox.FlatSet.{FlatSet, insert, of_range}
use pto_fusebox.Dag.{Dag}
use pto_fusebox.Dag.Topo.{topo_sort}
use pto_fusebox.Dag.Rows.{precompute_reachability}

-- `tensor_producer[t] = i` for the operations from `i` on. `assertions` says whether `assert` is
-- compiled (`NDEBUG` is not defined); `none` is the failure of the assertion that no tensor has two
-- producers. Without it a later producer takes the place of an earlier one.
pub map_producers : Bool → ℕ → List Op → Table (Option ℕ) → Option (Table (Option ℕ))
map_producers assertions i [] producer = some producer
map_producers assertions i (op ∷ ops) producer =
    let rest = map_producers assertions (suc i) ops (put producer (output op) (some i)) in
    elim (producer (output op)) [ none ↦ rest | some j ↦ if assertions then none else rest ]

pub record Links : Type 0 where
  pub tensor_consumers : Table (List ℕ)
  pub op_preds : Table (List ℕ)
  pub op_succs : Table (List ℕ)

-- `v[i].push_back(a)`.
abbrev pub push_back : Table (List ℕ) → ℕ → ℕ → Table (List ℕ)
push_back v i a = put v i (v i ++ a ∷ [])

-- The body of the loop over the inputs of operation `i`.
pub link_input : Table (Option ℕ) → ℕ → ℕ → Links → Links
link_input producer i t l =
    let l' = record l { tensor_consumers = push_back l.tensor_consumers t i } in
    elim (producer t) [
      | none ↦ l'
      | some p ↦ record l' {
        op_preds = push_back l.op_preds i p;
        op_succs = push_back l.op_succs p i;
      }
    ]

pub link_inputs : Table (Option ℕ) → ℕ → List ℕ → Links → Links
unfolding link_input
link_inputs producer i [] l = l
link_inputs producer i (t ∷ ts) l = link_inputs producer i ts (link_input producer i t l)

pub link_ops : Table (Option ℕ) → ℕ → List Op → Links → Links
unfolding link_inputs
link_ops producer i [] l = l
link_ops producer i (op ∷ ops) l =
    link_ops producer (suc i) ops (link_inputs producer i op.inputs l)

-- The tensors below `n` that satisfy the test, in order.
pub select : ℕ → (ℕ → Bool) → List ℕ
select zero test = []
select (suc t) test = select t test ++ (if test t then t ∷ [] else [])

abbrev pub is_some {ℓ} : {A : Type ℓ} → Option A → Bool
is_some none = false
is_some (some a) = true

abbrev pub is_empty {ℓ} : {A : Type ℓ} → List A → Bool
is_empty [] = true
is_empty (x ∷ xs) = false

pub insert_all : List ℕ → FlatSet → FlatSet
insert_all [] s = s
insert_all (j ∷ js) s = insert_all js (insert s j).set

-- `if (j != i) nbrs.insert(j)`.
pub insert_others : ℕ → List ℕ → FlatSet → FlatSet
insert_others i [] s = s
insert_others i (j ∷ js) s = insert_others i js (if j == i then s else (insert s j).set)

pub insert_co_consumers : Table (List ℕ) → ℕ → List ℕ → FlatSet → FlatSet
unfolding insert_others
insert_co_consumers consumers i [] s = s
insert_co_consumers consumers i (t ∷ ts) s =
    insert_co_consumers consumers i ts (insert_others i (consumers t) s)

-- The neighbours of operation `i`: its predecessors, its successors, and the operations that share
-- an input tensor with it.
pub neighbors : List Op → Table (List ℕ) → Table (List ℕ) → Table (List ℕ) → Table (List ℕ)
unfolding insert_all insert_co_consumers
neighbors ops consumers preds succs i = elim (get_elem? ops i) [
  | none ↦ []
  | some op ↦
      insert_co_consumers consumers i op.inputs (insert_all (succs i) (insert_all (preds i) []))
]

-- `topo_pos_[topo_order_[i]] = i`.
pub positions : ℕ → List ℕ → Table ℕ → Table ℕ
positions i [] pos = pos
positions i (op ∷ order) pos = positions (suc i) order (put pos op i)

-- `if (dist[u] + 1 > dist[v]) dist[v] = dist[u] + 1` for the successors of `u`.
pub extend_paths : ℕ → List ℕ → Table ℕ → Table ℕ
extend_paths u [] dist = dist
extend_paths u (v ∷ vs) dist =
    extend_paths u vs (if ltb (dist v) (dist u + 1) then put dist v (dist u + 1) else dist)

pub path_lengths : Table (List ℕ) → List ℕ → Table ℕ → Table ℕ
unfolding extend_paths
path_lengths succs [] dist = dist
path_lengths succs (u ∷ order) dist = path_lengths succs order (extend_paths u (succs u) dist)

-- The largest of the first `n` entries.
pub largest : ℕ → Table ℕ → ℕ
largest zero dist = 0
largest (suc v) dist = let rest = largest v dist in if ltb rest (dist v) then dist v else rest

-- How the call ends: normally, by the assertion, or by the fuel of the model.
pub data Outcome : Type 0 where
  ok : Dag → Outcome
  assertion_failed out_of_fuel : Outcome

-- The graph, once the producers and an order are known.
pub assemble : Problem → Table (Option ℕ) → Links → List ℕ → Dag
unfolding select neighbors positions path_lengths largest
assemble prob producer l order =
    let n = num_ops prob in
    let m = precompute_reachability n l.op_succs order in
    record {
      num_ops = n;
      num_tensors = num_tensors prob;
      tensor_producer = producer;
      tensor_consumers = l.tensor_consumers;
      op_preds = l.op_preds;
      op_succs = l.op_succs;
      op_neighbors = neighbors prob.ops l.tensor_consumers l.op_preds l.op_succs;
      graph_inputs =
          select (num_tensors prob)
            (λ t. not (is_some (producer t)) && not (is_empty (l.tensor_consumers t)));
      graph_outputs =
          select (num_tensors prob) (λ t. is_some (producer t) && is_empty (l.tensor_consumers t));
      reachable = m.reachable;
      words_per_row = m.words_per_row;
      topo_order = order;
      topo_pos = positions 0 order (λ i. 0);
      longest_chain = largest n (path_lengths l.op_succs order (λ v. 0));
    }

-- The lists of predecessors and successors sorted, without repetition.
abbrev pub deduplicate : Links → Links
deduplicate l = record l {
  op_preds = λ i. of_range (l.op_preds i);
  op_succs = λ i. of_range (l.op_succs i);
}

abbrev pub no_links : Links
no_links = record { tensor_consumers = λ t. []; op_preds = λ i. []; op_succs = λ i. [] }

-- `assertions` as in `map_producers`.
unfoldable pub build : Bool → Problem → Outcome
unfolding map_producers link_ops assemble
build assertions prob = elim (map_producers assertions 0 prob.ops (λ t. none)) [
  | none ↦ assertion_failed
  | some producer ↦
      let l = deduplicate (link_ops producer 0 prob.ops no_links) in
      elim (topo_sort (num_ops prob) l.op_preds l.op_succs) [
        | none ↦ out_of_fuel
        | some order ↦ ok (assemble prob producer l order)
      ]
]
