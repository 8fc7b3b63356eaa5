-- ===== src/Dag/Rows/Lookup.antt =====
-- core/dag.h, DAG::can_reach: the lookup against the walks of the graph that was built.
use pto_fusebox.Base.Bits.{shift_and_one}
use pto_fusebox.Base.{
  ℕ, ◌+◌, ◌*◌, ◌/◌, ◌<◌, ◌≡◌, ◌↔◌, List, [], true, Table, ◌==◌, ltb, elem, arith, if◌then◌else◌,
  ◌%◌, ap, subst, ==-eq-false,
}
use pto_fusebox.Dag.{Dag}
use pto_fusebox.Dag.Topo.Complete.{IsTopoOrder}
use pto_fusebox.Dag.Rows.{Matrix, fill, precompute_reachability, can_reach}
use pto_fusebox.Dag.Graph.{IsGraph, Walk}
use pto_fusebox.Dag.Rows.Cells.{bit}
use pto_fusebox.Dag.Rows.Reach.{Leads, Follows-Leads, fill_sound, fill_complete}

-- What `DAG::build` leaves behind on a problem without cycles, as far as reachability reads it.
pub record IsBuilt (d : Dag) : Type 0 where
  pub graph : IsGraph d.num_ops d.op_preds d.op_succs
  pub order : IsTopoOrder d.num_ops d.op_preds d.topo_order
  pub full : (x : ℕ) → elem d.topo_order x ≡ ltb x d.num_ops
  pub matrix :
      precompute_reachability d.num_ops d.op_succs d.topo_order
      ≡ record { reachable = d.reachable; words_per_row = d.words_per_row }

-- In range, the bit that `can_reach` reads is the bit of the matrix.
pub can_reach-bit :
    (d : Dag) (u v : ℕ)
    → u < d.num_ops
    → v < d.num_ops
    → can_reach d u v ≡ bit d.words_per_row d.reachable u v
unfolding can_reach
can_reach-bit d u v h p =
    ground (arith, shift_and_one (d.reachable (u * d.words_per_row + v / 64)) (v % 64))

matrix_rows :
    (n : ℕ) (succs : Table (List ℕ)) (order : List ℕ)
    → 0 < n
    → (precompute_reachability n succs order).reachable
      ≡ fill (precompute_reachability n succs order).words_per_row succs order
unfolding precompute_reachability
matrix_rows n succs order h = rw (==-eq-false n 0 (omega arith))

module _ (d : Dag) (b : IsBuilt d) where
  pub words-eq : d.words_per_row ≡ (if d.num_ops == 0 then 0 else (d.num_ops + 63) / 64)
  unfolding precompute_reachability
  words-eq = ground (arith, ap (λ (m : Matrix). m.words_per_row) b.matrix)

  rows-eq : 0 < d.num_ops → d.reachable ≡ fill d.words_per_row d.op_succs d.topo_order
  rows-eq h =
      subst (λ (m : Matrix). m.reachable ≡ fill m.words_per_row d.op_succs d.topo_order) b.matrix
        (matrix_rows d.num_ops d.op_succs d.topo_order h)

  pub column_fits : (v : ℕ) → v < d.num_ops → v / 64 < d.words_per_row
  column_fits v h = ground (arith, words-eq)

  order-Leads : Leads d.op_succs d.topo_order
  order-Leads =
      Follows-Leads b.graph [] d.topo_order b.order.follows (λ x p m h. cc)
        (λ v h. ground (arith, b.full v))

  pub bit-Walk :
      (u v : ℕ)
      → u < d.num_ops
      → v < d.num_ops
      → (bit d.words_per_row d.reachable u v ≡ true) ↔ Walk d.op_succs u v
  bit-Walk u v h p =
      let fits = λ (y : ℕ) (m : elem d.topo_order y ≡ true). column_fits y (b.order.bounded y m) in
      let listed : elem d.topo_order u ≡ true = ground (arith, b.full u) in
      rw (rows-eq (omega arith)) (
        fill_sound d.words_per_row d.op_succs v (column_fits v p) d.topo_order u fits order-Leads
            listed,
        fill_complete d.words_per_row d.op_succs v (column_fits v p) d.topo_order u fits order-Leads
            listed,
      )

-- Between operations of a graph that was built, `can_reach` holds exactly when a walk along
-- successors leads from the first to the second, the empty walk included.
pub can_reach_lem :
    (d : Dag)
    → IsBuilt d
    → (u v : ℕ) → u < d.num_ops
    → v < d.num_ops
    → (can_reach d u v ≡ true) ↔ Walk d.op_succs u v
can_reach_lem d b u v h p = rw (can_reach-bit d u v h p) (bit-Walk d b u v h p)
