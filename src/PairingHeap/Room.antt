-- ===== src/PairingHeap/Room.antt =====
-- util/pairing_heap.h: `merge_buf_` has room for the peers, for they are distinct keys below the
-- capacity.
use pto_fusebox.Base.{
  ℕ, zero, suc, ◌+◌, ◌≤◌, ◌<◌, ◌≡◌, refl, ap, inl, inr, List, [], ◌∷◌, arith, ◌==◌, if◌then◌else◌,
  Bool-cases, ==_refl, length,
}
use pto_fusebox.PairingHeap.Forest.{Forest, nil, node, tally, IsDistinct}
use pto_fusebox.PairingHeap.Link.{Tree}
use pto_fusebox.PairingHeap.Merge.{trees, keys}

abbrev occurs : List ℕ → ℕ → ℕ
occurs [] j = 0
occurs (x ∷ xs) j = (if x == j then 1 else 0) + occurs xs j

abbrev dropped : ℕ → List ℕ → List ℕ
dropped n [] = []
dropped n (x ∷ xs) = if x == n then dropped n xs else x ∷ dropped n xs

length-dropped : (n : ℕ) (xs : List ℕ) → length xs ≡ length (dropped n xs) + occurs xs n
length-dropped n [] = omega arith
length-dropped n (x ∷ xs) = elim (Bool-cases (x == n)) [
  | inl e ↦ rw e (omega (arith, length-dropped n xs))
  | inr e ↦ rw e (omega (arith, length-dropped n xs))
]

occurs-dropped :
    (n : ℕ) (xs : List ℕ) (j : ℕ) → occurs (dropped n xs) j ≡ (if n == j then 0 else occurs xs j)
occurs-dropped n [] j = ground arith
occurs-dropped n (x ∷ xs) j = ground (arith, occurs-dropped n xs j)

length-le :
    (n : ℕ) (xs : List ℕ)
    → ((j : ℕ) → occurs xs j ≤ 1)
    → ((j : ℕ) → 0 < occurs xs j → j < n)
    → length xs ≤ n
length-le zero [] d b = omega arith
length-le zero (x ∷ xs) d b = absurd (omega (arith, b x (rw (==_refl x) (omega arith))))
length-le (suc n) xs d b =
    let rest : length (dropped n xs) ≤ n =
      length-le n (dropped n xs) (λ j. ground (arith, occurs-dropped n xs j, d j))
        (λ j i. ground (arith, occurs-dropped n xs j, b j)) in
    omega (arith, length-dropped n xs, d n)

occurs-le : (f : Forest) (j : ℕ) → occurs (keys (trees f)) j ≤ tally f j
unfolding tally
occurs-le nil j = omega arith
occurs-le (node k c s) j = omega (arith, occurs-le s j)

length-keys : (ts : List Tree) → length (keys ts) ≡ length ts
length-keys [] = refl
length-keys (t ∷ ts) = ap suc (length-keys ts)

pub length-trees-le :
    (capacity : ℕ) (f : Forest)
    → IsDistinct f
    → ((j : ℕ) → 0 < tally f j → j < capacity)
    → length (trees f) ≤ capacity
length-trees-le capacity f d b =
    let le =
      length-le capacity (keys (trees f)) (λ j. omega (arith, occurs-le f j, d j))
        (λ j i. b j (omega (arith, occurs-le f j))) in
    omega (arith, le, length-keys (trees f))
