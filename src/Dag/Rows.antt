-- ===== src/Dag/Rows.antt =====
-- core/dag.h and core/dag.cpp: the bit matrix of reachability, DAG::precompute_reachability,
-- DAG::row_or and DAG::can_reach.
pub mod Cells
pub mod Reach
pub mod Lookup
use Prim.Native.Nat.{bit_and, bit_or}
use pto_fusebox.Base.{
  ℕ, zero, suc, ◌+◌, ◌*◌, ◌/◌, ◌%◌, ◌^◌, List, [], ◌∷◌, Bool, false, ◌||◌, not, Table, put, leb,
  ◌==◌, if◌then◌else◌,
}
use pto_fusebox.Dag.{Dag}

-- `for (w = 0; w < count; w++) d[w] |= s[w]` on the rows `dst` and `src`.
pub row_or : ℕ → ℕ → ℕ → ℕ → Table ℕ → Table ℕ
row_or words dst src zero rows = rows
row_or words dst src (suc w) rows =
    let before = row_or words dst src w rows in
    put before (dst * words + w) (bit_or (before (dst * words + w)) (before (src * words + w)))

-- `reachable_[u * words_per_row_ + u / 64] |= 1ULL << (u % 64)`.
pub set_self : ℕ → ℕ → Table ℕ → Table ℕ
set_self words u rows =
    put rows (u * words + u / 64) (bit_or (rows (u * words + u / 64)) (2 ^ (u % 64)))

-- The rows of all immediate successors.
pub or_succs : ℕ → ℕ → List ℕ → Table ℕ → Table ℕ
unfolding row_or
or_succs words u [] rows = rows
or_succs words u (v ∷ vs) rows = or_succs words u vs (row_or words u v words rows)

-- The loop over the reverse of the order: what stands behind `u` is processed before it.
pub fill : ℕ → Table (List ℕ) → List ℕ → Table ℕ
unfolding set_self or_succs
fill words op_succs [] = λ i. 0
fill words op_succs (u ∷ order) =
    or_succs words u (op_succs u) (set_self words u (fill words op_succs order))

pub record Matrix : Type 0 where
  pub reachable : Table ℕ
  pub words_per_row : ℕ

unfoldable pub precompute_reachability : ℕ → Table (List ℕ) → List ℕ → Matrix
unfolding fill
precompute_reachability num_ops op_succs order =
    if num_ops == 0
    then record { reachable = λ i. 0; words_per_row = 0 }
    else (let words = (num_ops + 63) / 64 in
        record { reachable = fill words op_succs order; words_per_row = words })

-- `(reachable_[u * words_per_row_ + v / 64] >> (v % 64)) & 1ULL`, as a truth value.
unfoldable pub can_reach : Dag → ℕ → ℕ → Bool
can_reach d u v =
    if leb d.num_ops u || leb d.num_ops v
    then false
    else not (bit_and (d.reachable (u * d.words_per_row + v / 64) / 2 ^ (v % 64)) 1 == 0)
