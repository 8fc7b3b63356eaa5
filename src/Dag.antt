-- ===== src/Dag.antt =====
-- core/dag.h and core/dag.cpp: the graph of the operations.
pub mod Graph
pub mod Topo
pub mod Rows
pub mod Merge
pub mod Build
pub mod Sample
mod Tests
use pto_fusebox.Base.{ℕ, List, Table, Option, Bool}

-- A tensor without producer (-1 in the source) is a graph input: `none`. The tables have
-- `num_tensors` or `num_ops` entries.
pub record Dag : Type 0 where
  pub num_ops : ℕ
  pub num_tensors : ℕ
  pub tensor_producer : Table (Option ℕ)
  pub tensor_consumers : Table (List ℕ)
  pub op_preds : Table (List ℕ)
  pub op_succs : Table (List ℕ)
  pub op_neighbors : Table (List ℕ)
  pub graph_inputs : List ℕ
  pub graph_outputs : List ℕ
  pub reachable : Table ℕ
  pub words_per_row : ℕ
  pub topo_order : List ℕ
  pub topo_pos : Table ℕ
  pub longest_chain : ℕ
