-- ===== src/Lib.antt =====
-- Verification of the structural core of pto-fusebox, a solver that partitions the operations of a
-- tensor program into fused groups.
--
-- The program reads a problem (tensors, operations, required outputs), builds the graph of its
-- operations, partitions them into groups by local search over a cost model, and orders the groups.
-- Modelled are the data structures under the search on whose answers its correctness rests.
--
-- FlatSet.antt and FlatSet/ model src/core/flat_set.h: `FlatSet` is the vector `v_` as a list, and
-- `count`, `find`, `insert`, `insert_range`, `erase`, `of_range` (the constructors), `equal` and
-- `less` are the methods. Positions stand for iterators.
--
-- Problem.antt models the part of src/core/types.h that the structural code reads.
--
-- Dag.antt and Dag/ model src/core/dag.h and src/core/dag.cpp. The record `Dag` has the fields of
-- `DAG`; a table indexed by operations or tensors is a function on the natural numbers, read only
-- below the size. Dag/Build.antt is `DAG::build`, loop by loop; Dag/Topo.antt `DAG::topo_sort`;
-- Dag/Rows.antt `precompute_reachability`, `row_or` and `can_reach`; Dag/Merge.antt
-- `merge_creates_cycle`. Dag/Graph.antt has the graph-theoretic notions that the theorems use. The
-- producer -1 is `none`. The parameter `assertions` of `build` says whether `assert` is compiled: in
-- the default build, Release with `-DNDEBUG`, it is not, and the outcome `assertion_failed` does not
-- occur. There, the theorems about the tables take as a hypothesis that no tensor is the output of two
-- operations, which src/io/io.cpp checks when it reads a problem.
--
-- Pebbling.antt and Pebbling/ model the depth-first strategy of src/core/pebbling_order.cpp
-- (`DfsPostOrderStrategy::Compute` is `compute`): the `while` loop is `run_stack`, with its stack,
-- its visited set and its order as explicit state.
--
-- Lifetimes.antt and Lifetimes/ model `ComputeAlwaysRetainedValueLifetimes` of the same file; the map
-- by value is a sorted list of slots.
--
-- Subgraph.antt and Subgraph/ model src/core/subgraph_structure.cpp: `create` is the constructor,
-- `classify` its part up to the sinks; Subgraph/Source.antt is `BuildSourceOpPebblingGraph` of
-- src/core/pebbling_order.cpp. They read the graph of Dag.antt, and the theorems about
-- them take as a hypothesis the record `Describes`, which relates the graph to the problem.
--
-- Partition.antt and Partition/ model of src/partition the groups and the index from operations to
-- groups (`rebuild_index`, `index_add`, `index_remove`, `merge_ops_into`, `groups_of`), the two tests
-- `is_boundary_output_of` and `is_boundary_input_of`, `border_ops`, `boundary_neighbors`,
-- `adjacent_groups`, and `has_recomputed_ops`.
--
-- GroupDag.antt and GroupDag/ model src/core/group_dag.cpp. The record `GroupDag` has the fields of
-- `GroupDAG`; the position -1 is `none`. GroupDag.antt has the changes of the edges,
-- `compute_topo_order` and `build`; GroupDag/Explore.antt the search in breadth, with its queue and its
-- visited groups, that the other methods repeat: `search` takes what the inner loops come upon as a
-- list of events. GroupDag/Queries.antt has `can_reach`, `merge_creates_cycle` and `eval_merge`,
-- GroupDag/Moves.antt the other `eval_` methods, GroupDag/Update.antt `update`, `apply_generic` and
-- `rebuild_topo`. They read the partition and its index.
--
-- MatmulPlan.antt and MatmulPlan/ model src/core/l0_matmul_plan.h and src/core/l0_matmul_plan.cpp. A
-- `double` is an element of a type `W` with the operations of the record `Double`, about which nothing
-- is assumed. MatmulPlan/Align.antt has the alignments and `physical_extents`, MatmulPlan/Costs.antt
-- the cost functions, MatmulPlan/KValues.antt `legal_k_values`, MatmulPlan/Search.antt `better` and
-- `best_in_regime` (`scan_m`, `scan_n` and `scan_k` are its loops), MatmulPlan/Choose.antt `validate`
-- and `choose_l0_matmul_plan`. A text of `diagnostic` is a constructor of `Diagnostic`. The sizes of a
-- configuration are natural numbers: nonpositive ones are all refused like 0, and a nonpositive
-- `forced_k` is 0. A negative `mad_head_cycles`, which `validate` lets through, is outside the model.
-- Products are not bounded, where an overflow of `int64_t` is undefined in the source; the test of `checked_align_up` against the largest
-- `int64_t` is written out. MatmulPlan/Search/Tile.antt describes the legal tiles apart from the
-- search. The planner does not interact with the other parts modelled here: the cost model and the
-- compiler call it.
--
-- Numbers are natural numbers. The words of the bit matrix stay below 2 ^ 64: they are built with `|`
-- and `&` from such words, and `~m` is written `2 ^ 64 - 1 - m`. Sizes are assumed to fit `size_t` and
-- `int`.
--
-- Fuel: a search in breadth has one unit for each group, and the order of the groups too, since each
-- round takes a group off for good. A counting loop has one unit for each number up to its bound, and
-- its step is positive; `odd_part` has as many as its argument. Kahn's loop has one unit for each
-- operation, since each round takes an operation off for good.
-- The loop over the bits of a word has 64, one for each bit that a round clears. The depth-first search
-- has for each root one unit per node and predecessor: a node is expanded once, and then pushes itself
-- and its predecessors.
--
-- PairingHeap.antt and PairingHeap/ model src/util/pairing_heap.h over an abstract type of moves;
-- `above a b` is the comparison `a.saving > b.saving`, which the theorems take for a strict weak order,
-- as it is on doubles that are numbers. An index of -1 is `none`. A `remove` of a key that is not below
-- the capacity, which is undefined in the source, changes nothing. PairingHeap/Forest.antt says which
-- trees the nodes hold, PairingHeap/Link.antt, PairingHeap/Merge.antt, PairingHeap/Peers.antt and
-- PairingHeap/Cut.antt what `link`, `merge_peers` and `cut` do to them, PairingHeap/Contents.antt has the invariant, and
-- PairingHeap/Refines.antt the priority map that the class implements. The loop of `merge_peers` over
-- the peers has the capacity as fuel: they are distinct keys below it.
--
-- Base.antt and Base/ have the shared tests, lists, tables and bits.
--
-- Not modelled: the Gorder strategy of the pebbling order, the moves on a partition, the Ascend 910B
-- cost model and what depends on it (floating point, calibrated by measurements), input and output, the command lines, the search heuristics and their
-- threads.
pub mod Base
pub mod FlatSet
pub mod Problem
pub mod Dag
pub mod Pebbling
pub mod Subgraph
pub mod Partition
pub mod GroupDag
pub mod Lifetimes
pub mod MatmulPlan
pub mod PairingHeap
