-- ===== src/Base/Lowest.antt =====
-- The lowest set bit of a word: `std::countr_zero` and `x & (x - 1)`.
use Prim.Native.Nat.{bit_and}
use pto_fusebox.Base.{
  ℕ, zero, suc, ◌-◌, ◌/◌, ◌%◌, ◌^◌, ◌≤◌, ◌<◌, ◌≡◌, ◌≢◌, true, false, not, ◌&&◌, arith, ◌==◌,
  if◌then◌else◌, Bool-cases, inl, inr, ap, ◌∙◌,
}
use pto_fusebox.Base.Bits.{test_bit, bit_and_step, bit_and-zero, pow_double}

-- `std::countr_zero` on words of `k` bits, whose result is `k` at zero.
unfoldable pub countr_zero : ℕ → ℕ → ℕ
countr_zero zero x = 0
countr_zero (suc k) x = if x % 2 == 1 then 0 else suc (countr_zero k (x / 2))

-- The lowest bit of a word that is not zero is set, and lies inside the word.
pub countr_zero_lem :
    (k x : ℕ) → x < 2 ^ k → x ≢ 0 → (test_bit x (countr_zero k x) ≡ true) × (countr_zero k x < k)
unfolding countr_zero test_bit
countr_zero_lem zero x h p = absurd (p (omega arith))
countr_zero_lem (suc k) x h p = elim (Bool-cases (x % 2 == 1)) [
  | inl odd ↦ rw odd (odd, omega arith)
  | inr even ↦
      let h' : x / 2 < 2 ^ k = omega (arith, pow_double k) in
      let p' : x / 2 ≢ 0 = ground arith in
      let (set, inside) = countr_zero_lem k (x / 2) h' p' in rw even (set, omega arith)
]

bit_and_self : (k a : ℕ) → a ≤ k → bit_and a a ≡ a
bit_and_self k zero h = bit_and-zero 0
bit_and_self zero (suc a) h = absurd (omega arith)
bit_and_self (suc k) (suc a) h =
    omega (arith, bit_and_step (suc a) (suc a), bit_and_self k (suc a / 2) (omega arith))

odd_half : (x : ℕ) → (x % 2 == 1) ≡ true → bit_and x (x - 1) / 2 ≡ bit_and (x / 2) (x / 2)
odd_half x odd =
    let below : (x - 1) / 2 ≡ x / 2 = ground arith in
    let step : bit_and x (x - 1) / 2 ≡ bit_and (x / 2) ((x - 1) / 2) =
      omega (arith, bit_and_step x (x - 1)) in
    step ∙ ap (bit_and (x / 2)) below

even_half :
    (x : ℕ) → x ≢ 0 → (x % 2 == 1) ≡ false → bit_and x (x - 1) / 2 ≡ bit_and (x / 2) (x / 2 - 1)
even_half x p even =
    let below : (x - 1) / 2 ≡ x / 2 - 1 = ground arith in
    let step : bit_and x (x - 1) / 2 ≡ bit_and (x / 2) ((x - 1) / 2) =
      omega (arith, bit_and_step x (x - 1)) in
    step ∙ ap (bit_and (x / 2)) below

-- `x & (x - 1)` clears the lowest set bit and no other.
pub test_bit-clear_lowest :
    (k x i : ℕ)
    → x < 2 ^ k
    → x ≢ 0
    → test_bit (bit_and x (x - 1)) i ≡ (test_bit x i && not (countr_zero k x == i))
unfolding countr_zero test_bit
test_bit-clear_lowest zero x i h p = absurd (p (omega arith))
test_bit-clear_lowest (suc k) x zero h p = ground (arith, bit_and_step x (x - 1))
test_bit-clear_lowest (suc k) x (suc i) h p = elim (Bool-cases (x % 2 == 1)) [
  | inl odd ↦
      let half : bit_and x (x - 1) / 2 ≡ bit_and (x / 2) (x / 2) = odd_half x odd in
      rw (half, bit_and_self (x / 2) (x / 2) (omega arith), odd) (ground arith)
  | inr even ↦
      let half : bit_and x (x - 1) / 2 ≡ bit_and (x / 2) (x / 2 - 1) = even_half x p even in
      rw (half, even)
        (ground
          (arith, test_bit-clear_lowest k (x / 2) i (omega (arith, pow_double k)) (ground arith)))
]

-- No bit below the lowest one is set.
pub countr_zero_least : (k x i : ℕ) → x < 2 ^ k → test_bit x i ≡ true → countr_zero k x ≤ i
unfolding countr_zero test_bit
countr_zero_least zero x i h b = omega arith
countr_zero_least (suc k) x zero h b = ground arith
countr_zero_least (suc k) x (suc i) h b =
    ground (arith, countr_zero_least k (x / 2) i (omega (arith, pow_double k)) b)
