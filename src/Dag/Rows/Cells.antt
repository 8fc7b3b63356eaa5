-- ===== src/Dag/Rows/Cells.antt =====
-- core/dag.cpp: what the loops over words do to single bits of the matrix.
use Prim.Native.Nat.{bit_or}
use native.Mathlib.Nat.{mul-add-div_right, div-eq_of_lt}
use pto_fusebox.Base.{
  [], ◌∷◌, refl, ℕ, zero, suc, ◌+◌, ◌*◌, ◌/◌, ◌%◌, ◌≤◌, ◌<◌, ◌≡◌, ◌≢◌, sym, ◌∙◌, ap, Bool, ◌&&◌,
  Table, ltb, ◌==◌, if◌then◌else◌, arith, inl, inr, eq_or_ne, List, ◌||◌, ◌^◌, lt→ltb, Bool-cases,
  any,
}
use pto_fusebox.Base.Bits.{test_bit, test_bit-bit_or, test_bit-pow}
use pto_fusebox.Dag.Rows.{row_or, set_self, or_succs}

-- The bit at row `u` and column `v`.
abbrev pub bit : ℕ → Table ℕ → ℕ → ℕ → Bool
bit words rows u v = test_bit (rows (u * words + v / 64)) (v % 64)

row_of_cell : (words u w : ℕ) → w < words → (u * words + w) / words ≡ u
row_of_cell words u w h =
    mul-add-div_right (omega arith) u w ∙ ap (λ t. u + t) (div-eq_of_lt h) ∙ omega arith

same_cell :
    (words u w u' w' : ℕ)
    → w < words
    → w' < words
    → (u * words + w == u' * words + w') ≡ (u == u' && w == w')
same_cell words u w u' w' h h' = elim (eq_or_ne u u') [
  | inl e ↦ rw e (ground arith)
  | inr e ↦
      let ne : u * words + w ≢ u' * words + w' = λ p.
        e (sym (row_of_cell words u w h) ∙ ap (λ t. t / words) p ∙ row_of_cell words u' w' h') in
      ground arith
]

row_or-word :
    (words dst src count : ℕ) (rows : Table ℕ) (u w : ℕ)
    → count ≤ words
    → w < words
    → row_or words dst src count rows (u * words + w) ≡ (
        if u == dst && ltb w count
        then bit_or (rows (dst * words + w)) (rows (src * words + w))
        else rows (u * words + w))
unfolding row_or
row_or-word words dst src zero rows u w h p = ground arith
row_or-word words dst src (suc count) rows u w h p =
    let ih =
      λ (r : ℕ) (c : ℕ) (q : c < words). row_or-word words dst src count rows r c (omega arith) q in
    rw
      (
        same_cell words dst count u w (omega arith) p,
        ih u w p,
        ih dst count (omega arith),
        ih src count (omega arith),
      )
      (elim (eq_or_ne count w) [ inl e ↦ rw e (ground arith) | inr e ↦ ground arith ])

set_self-word :
    (words u : ℕ) (rows : Table ℕ) (x w : ℕ)
    → u / 64 < words
    → w < words
    → set_self words u rows (x * words + w) ≡ (
        if u == x && u / 64 == w
        then bit_or (rows (u * words + u / 64)) (2 ^ (u % 64))
        else rows (x * words + w))
unfolding set_self
set_self-word words u rows x w h p = rw (same_cell words u (u / 64) x w h p) refl

-- `row_or` adds the source's bits to the destination row and changes no other row.
pub bit-row_or :
    (words dst src : ℕ) (rows : Table ℕ) (u v : ℕ)
    → v / 64 < words
    → bit words (row_or words dst src words rows) u v
      ≡ (if u == dst then bit words rows dst v || bit words rows src v else bit words rows u v)
bit-row_or words dst src rows u v h =
    let a = rows (dst * words + v / 64) in
    let b = rows (src * words + v / 64) in
    rw (row_or-word words dst src words rows u (v / 64) (omega arith) h, lt→ltb (v / 64) words h)
      (elim (Bool-cases (u == dst)) [ inl e ↦ rw e (test_bit-bit_or a b (v % 64)) | inr e ↦ rw e ])

-- The diagonal bit alone, in the word that holds it.
pub self_bit :
    (a u v : ℕ)
    → u / 64 ≡ v / 64
    → test_bit (bit_or a (2 ^ (u % 64))) (v % 64) ≡ (v == u || test_bit a (v % 64))
self_bit a u v h =
    rw (test_bit-bit_or a (2 ^ (u % 64)) (v % 64), test_bit-pow (u % 64) (v % 64)) (ground arith)

-- `set_self` sets the diagonal bit of its row and changes no other bit.
pub bit-set_self :
    (words u : ℕ) (rows : Table ℕ) (x v : ℕ)
    → u / 64 < words
    → v / 64 < words
    → bit words (set_self words u rows) x v ≡ (x == u && v == u || bit words rows x v)
bit-set_self words u rows x v h p = elim (eq_or_ne u x) [
  | inl e ↦ elim (eq_or_ne (u / 64) (v / 64)) [
    | inl c ↦
        rw (set_self-word words u rows x (v / 64) h p, ← e, c)
          (ground (arith, self_bit (rows (u * words + v / 64)) u v c))
    | inr c ↦ rw (set_self-word words u rows x (v / 64) h p) (ground arith)
  ]
  | inr e ↦ rw (set_self-word words u rows x (v / 64) h p) (ground arith)
]

any_absorb :
    (u : ℕ) (c : Bool) (p p' : ℕ → Bool)
    → ((y : ℕ) → p' y ≡ (if y == u then p u || c else p y))
    → (vs : List ℕ) → ((p u || c) || any p' vs) ≡ ((p u || c) || any p vs)
any_absorb u c p p' h [] = refl
any_absorb u c p p' h (y ∷ vs) = ground (arith, h y, any_absorb u c p p' h vs)

-- The loop over the successors adds the bits of all their rows.
pub bit-or_succs :
    (words u : ℕ) (vs : List ℕ) (rows : Table ℕ) (x v : ℕ)
    → v / 64 < words
    → bit words (or_succs words u vs rows) x v
      ≡ (bit words rows x v || x == u && any (λ w. bit words rows w v) vs)
unfolding or_succs
bit-or_succs words u [] rows x v h = ground arith
bit-or_succs words u (w ∷ vs) rows x v h =
    let rows' = row_or words u w words rows in
    let at = λ (y : ℕ). bit-row_or words u w rows y v h in
    let ih = bit-or_succs words u vs rows' x v h in
    let absorbed =
      any_absorb u (bit words rows w v) (λ y. bit words rows y v) (λ y. bit words rows' y v) at
        vs in
    elim (Bool-cases (x == u)) [
      | inl e ↦ ground (arith, ih, at x, absorbed)
      | inr e ↦ ground (arith, ih, at x)
    ]
