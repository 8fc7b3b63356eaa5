-- ===== src/Dag/Merge/Masks.antt =====
-- core/dag.cpp, DAG::merge_creates_cycle: the bits of the two masks.
use Prim.Native.Nat.{bit_or}
use pto_fusebox.Base.{
  ℕ, zero, suc, ◌+◌, ◌-◌, ◌*◌, ◌/◌, ◌%◌, ◌^◌, ◌<◌, ◌≡◌, [], ◌∷◌, Bool, ◌||◌, ◌&&◌, not, Table, put,
  ltb, ◌==◌, if◌then◌else◌, arith, elem, any, eq_or_ne, inl, inr, Bool-cases, lt→ltb, refl,
}
use pto_fusebox.Base.Bits.{
  test_bit, test_bit-bit_or, test_bit-bit_and, test_bit-complement, bit_or-lt, pow-lt-pow,
}
use pto_fusebox.FlatSet.{FlatSet}
use pto_fusebox.Dag.{Dag}
use pto_fusebox.Dag.Rows.Cells.{bit, self_bit}
use pto_fusebox.Dag.Merge.{add_mask, or_row, add_reach, external}

-- Bit `v` of a set of operations.
abbrev pub set_bit : Table ℕ → ℕ → Bool
set_bit mask v = test_bit (mask (v / 64)) (v % 64)

-- All words have 64 bits.
abbrev pub IsMask : Table ℕ → Type 0
IsMask mask = (w : ℕ) → mask w < 2 ^ 64

add_bit-IsMask :
    (mask : Table ℕ) (op : ℕ)
    → IsMask mask
    → IsMask (put mask (op / 64) (bit_or (mask (op / 64)) (2 ^ (op % 64))))
add_bit-IsMask mask op h w = ground (
  arith,
  h w,
  bit_or-lt 64 (mask (op / 64)) (2 ^ (op % 64)) (h (op / 64))
      (pow-lt-pow (op % 64) 64 (omega arith)),
)

pub add_mask-IsMask :
    (n : ℕ) (ops : FlatSet) (mask : Table ℕ) → IsMask mask → IsMask (add_mask n ops mask)
unfolding add_mask
add_mask-IsMask n [] mask h = h
add_mask-IsMask n (op ∷ ops) mask h = elim (Bool-cases (ltb op n)) [
  | inl e ↦ rw e (add_mask-IsMask n ops _ (add_bit-IsMask mask op h))
  | inr e ↦ rw e (add_mask-IsMask n ops mask h)
]

add_bit :
    (mask : Table ℕ) (op v : ℕ)
    → set_bit (put mask (op / 64) (bit_or (mask (op / 64)) (2 ^ (op % 64)))) v
      ≡ (v == op || set_bit mask v)
add_bit mask op v = elim (eq_or_ne (op / 64) (v / 64)) [
  | inl e ↦ rw e (ground (arith, self_bit (mask (v / 64)) op v e))
  | inr e ↦ ground arith
]

pub set_bit-add_mask :
    (n : ℕ) (ops : FlatSet) (mask : Table ℕ) (v : ℕ)
    → set_bit (add_mask n ops mask) v ≡ (set_bit mask v || ltb v n && elem ops v)
unfolding add_mask
set_bit-add_mask n [] mask v = ground arith
set_bit-add_mask n (op ∷ ops) mask v = elim (Bool-cases (ltb op n)) [
  | inl e ↦
      rw
        (
          e,
          set_bit-add_mask n ops (put mask (op / 64) (bit_or (mask (op / 64)) (2 ^ (op % 64)))) v,
          add_bit mask op v,
        )
        (ground arith)
  | inr e ↦ rw (e, set_bit-add_mask n ops mask v) (ground arith)
]

or_row-word :
    (d : Dag) (op count : ℕ) (out : Table ℕ) (w : ℕ)
    → or_row d op count out w
      ≡ (if ltb w count then bit_or (out w) (d.reachable (op * d.words_per_row + w)) else out w)
unfolding or_row
or_row-word d op zero out w = ground arith
or_row-word d op (suc count) out w = elim (eq_or_ne count w) [
  | inl e ↦ rw (or_row-word d op count out w, or_row-word d op count out count, e) (ground arith)
  | inr e ↦ rw (or_row-word d op count out w) (ground arith)
]

set_bit-or_row :
    (d : Dag) (op : ℕ) (out : Table ℕ) (v : ℕ)
    → v / 64 < d.words_per_row
    → set_bit (or_row d op d.words_per_row out) v
      ≡ (set_bit out v || bit d.words_per_row d.reachable op v)
set_bit-or_row d op out v h =
    rw (or_row-word d op d.words_per_row out (v / 64), lt→ltb (v / 64) d.words_per_row h)
      (test_bit-bit_or (out (v / 64)) (d.reachable (op * d.words_per_row + v / 64)) (v % 64))

pub set_bit-add_reach :
    (d : Dag) (ops : FlatSet) (out : Table ℕ) (v : ℕ)
    → v / 64 < d.words_per_row
    → set_bit (add_reach d ops out) v
      ≡ (set_bit out v || any (λ op. ltb op d.num_ops && bit d.words_per_row d.reachable op v) ops)
unfolding add_reach
set_bit-add_reach d [] out v h = ground arith
set_bit-add_reach d (op ∷ ops) out v h = elim (Bool-cases (ltb op d.num_ops)) [
  | inl e ↦
      rw
        (
          e,
          set_bit-add_reach d ops (or_row d op d.words_per_row out) v h,
          set_bit-or_row d op out v h,
        )
        (ground arith)
  | inr e ↦ rw (e, set_bit-add_reach d ops out v h) (ground arith)
]

-- The external bits are those that are reached and are not in the merged set.
pub test_bit-external :
    (out mask : Table ℕ) (w i : ℕ)
    → IsMask mask
    → i < 64
    → test_bit (external out mask w) i ≡ (test_bit (out w) i && not (test_bit (mask w) i))
unfolding external
test_bit-external out mask w i h p =
    rw (test_bit-bit_and (out w) (2 ^ 64 - 1 - mask w) i, test_bit-complement 64 (mask w) i (h w) p)
      refl
