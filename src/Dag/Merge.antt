-- ===== src/Dag/Merge.antt =====
-- core/dag.cpp, DAG::merge_creates_cycle: whether merging two sets of operations closes a cycle.
pub mod Masks
pub mod Scan
pub mod Cycle
use Prim.Native.Nat.{bit_and, bit_or}
use pto_fusebox.Base.{
  ℕ, zero, suc, ◌+◌, ◌-◌, ◌*◌, ◌/◌, ◌%◌, ◌^◌, List, [], ◌∷◌, Bool, true, false, ◌||◌, ◌&&◌, not,
  Table, put, ltb, ◌==◌, if◌then◌else◌,
}
use pto_fusebox.Base.Lowest.{countr_zero}
use pto_fusebox.FlatSet.{FlatSet}
use pto_fusebox.Dag.{Dag}

-- Step 1, on one of the sets: `mask_S[op / 64] |= 1ULL << (op % 64)` for the operations in range.
pub add_mask : ℕ → FlatSet → Table ℕ → Table ℕ
add_mask num_ops [] mask = mask
add_mask num_ops (op ∷ ops) mask =
    add_mask num_ops ops (
      if ltb op num_ops then put mask (op / 64) (bit_or (mask (op / 64)) (2 ^ (op % 64))) else mask)

-- `for (w = 0; w < count; w++) combined_out[w] |= row[w]` on the row of `op`.
pub or_row : Dag → ℕ → ℕ → Table ℕ → Table ℕ
or_row d op zero out = out
or_row d op (suc w) out =
    let before = or_row d op w out in
    put before w (bit_or (before w) (d.reachable (op * d.words_per_row + w)))

-- Step 2, on one of the sets: all that its operations reach.
pub add_reach : Dag → FlatSet → Table ℕ → Table ℕ
unfolding or_row
add_reach d [] out = out
add_reach d (op ∷ ops) out =
    add_reach d ops (if ltb op d.num_ops then or_row d op d.words_per_row out else out)

-- `for (w2 = 0; w2 < count; w2++) if (rx[w2] & mask_S[w2]) return true`.
pub reaches_back : Dag → Table ℕ → ℕ → ℕ → Bool
reaches_back d mask x zero = false
reaches_back d mask x (suc w) =
    reaches_back d mask x w || not (bit_and (d.reachable (x * d.words_per_row + w)) (mask w) == 0)

-- The `while (ext_bits)` loop over the bits of word `w`. A word has 64 bits, and each round clears
-- one.
pub scan_bits : Dag → Table ℕ → ℕ → ℕ → ℕ → Bool
unfolding reaches_back countr_zero
scan_bits d mask w zero ext = false
scan_bits d mask w (suc fuel) ext =
    let x = w * 64 + countr_zero 64 ext in
    let rest = scan_bits d mask w fuel (bit_and ext (ext - 1)) in
    if ext == 0
    then false
    else if ltb x d.num_ops && reaches_back d mask x d.words_per_row
    then true
    else rest

-- `ext_bits = combined_out[w] & ~mask_S[w]`.
pub external : Table ℕ → Table ℕ → ℕ → ℕ
external out mask w = bit_and (out w) (2 ^ 64 - 1 - mask w)

-- Steps 3 to 5: the loop over the words.
pub scan_words : Dag → Table ℕ → Table ℕ → ℕ → Bool
unfolding scan_bits external
scan_words d mask out zero = false
scan_words d mask out (suc w) =
    scan_words d mask out w || scan_bits d mask w 64 (external out mask w)

unfoldable pub merge_creates_cycle : Dag → FlatSet → FlatSet → Bool
unfolding add_mask add_reach scan_words
merge_creates_cycle d a b =
    if d.words_per_row == 0
    then false
    else (let mask = add_mask d.num_ops b (add_mask d.num_ops a (λ w. 0)) in
        let out = add_reach d b (add_reach d a (λ w. 0)) in scan_words d mask out d.words_per_row)
