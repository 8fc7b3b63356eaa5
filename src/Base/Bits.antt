-- ===== src/Base/Bits.antt =====
-- Words as numbers: one bit of a word, and the laws of the word operations of the standard language.
use Prim.Native.Nat.{bit_and, bit_or, digits, bitwise, bit_and-bitwise, bit_or-bitwise}
use native.Mathlib.Nat.{pow-suc, pow-succ', div-div-eq-div-mul, div-one}
use pto_fusebox.Base.{
  ℕ, zero, suc, ◌+◌, ◌-◌, ◌*◌, ◌/◌, ◌%◌, ◌^◌, ◌≤◌, ◌<◌, min, max, ◌≡◌, refl, sym, Bool, false, not,
  ◌&&◌, ◌||◌, arith, ◌==◌, if◌then◌else◌,
}

-- Bit `i` of a word.
unfoldable pub test_bit : ℕ → ℕ → Bool
test_bit x zero = x % 2 == 1
test_bit x (suc i) = test_bit (x / 2) i

-- The recursion that the word operations stand for, for any operation on digits: a count of digits
-- that is large enough does not matter.
module _ (z : ℕ → ℕ) (f : ℕ → ℕ → ℕ) where
  digits_spare : (a b m n : ℕ) → a ≤ m → a ≤ n → digits z f m a b ≡ digits z f n a b
  digits_spare zero b zero zero p q = refl
  digits_spare zero b zero (suc n) p q = refl
  digits_spare zero b (suc m) zero p q = refl
  digits_spare zero b (suc m) (suc n) p q = refl
  digits_spare (suc a) b zero n p q = absurd (omega arith)
  digits_spare (suc a) b (suc m) zero p q = absurd (omega arith)
  digits_spare (suc a) b (suc m) (suc n) p q =
      let rest = digits_spare (suc a / 2) (b / 2) m n (omega arith) (omega arith) in
      omega (arith, rest)

  bitwise_step :
      (a b : ℕ)
      → bitwise z f (suc a) b ≡ bitwise z f (suc a / 2) (b / 2) * 2 + f (suc a % 2) (b % 2)
  bitwise_step a b =
      let rest = digits_spare (suc a / 2) (b / 2) a (suc a / 2) (omega arith) (omega arith) in
      omega (arith, rest)

bit_and_from : (b : ℕ) → bit_and 0 b ≡ 0
bit_and_from b = bit_and-bitwise zero b

bit_or_from : (b : ℕ) → bit_or 0 b ≡ b
bit_or_from b = bit_or-bitwise zero b

pub bit_and_step : (u v : ℕ) → bit_and u v ≡ bit_and (u / 2) (v / 2) * 2 + min (u % 2) (v % 2)
bit_and_step zero v = omega (bit_and_from v, bit_and_from (v / 2), arith)
bit_and_step (suc u) v =
    let expanded = bitwise_step (λ b. zero) min u v in
    omega (expanded, bit_and-bitwise (suc u) v, bit_and-bitwise (suc u / 2) (v / 2), arith)

bit_or_step : (u v : ℕ) → bit_or u v ≡ bit_or (u / 2) (v / 2) * 2 + max (u % 2) (v % 2)
bit_or_step zero v = omega (bit_or_from v, bit_or_from (v / 2), arith)
bit_or_step (suc u) v =
    let expanded = bitwise_step (λ b. b) max u v in
    omega (expanded, bit_or-bitwise (suc u) v, bit_or-bitwise (suc u / 2) (v / 2), arith)

pub test_bit-zero : (i : ℕ) → test_bit 0 i ≡ false
unfolding test_bit
test_bit-zero zero = refl
test_bit-zero (suc i) = test_bit-zero i

bit_or_half : (a b : ℕ) → bit_or a b / 2 ≡ bit_or (a / 2) (b / 2)
bit_or_half a b = omega (arith, bit_or_step a b)

bit_and_half : (a b : ℕ) → bit_and a b / 2 ≡ bit_and (a / 2) (b / 2)
bit_and_half a b = omega (arith, bit_and_step a b)

pub test_bit-bit_or : (a b i : ℕ) → test_bit (bit_or a b) i ≡ (test_bit a i || test_bit b i)
unfolding test_bit
test_bit-bit_or a b zero = ground (arith, bit_or_step a b)
test_bit-bit_or a b (suc i) = rw bit_or_half (test_bit-bit_or (a / 2) (b / 2) i)

pub test_bit-bit_and : (a b i : ℕ) → test_bit (bit_and a b) i ≡ (test_bit a i && test_bit b i)
unfolding test_bit
test_bit-bit_and a b zero = ground (arith, bit_and_step a b)
test_bit-bit_and a b (suc i) = rw bit_and_half (test_bit-bit_and (a / 2) (b / 2) i)

pub pow_double : (k : ℕ) → 2 ^ suc k ≡ 2 ^ k * 2
pow_double k = pow-suc 2 k

pub pow_pos : (k : ℕ) → 0 < 2 ^ k
pow_pos zero = omega arith
pow_pos (suc k) = omega (arith, pow_double k, pow_pos k)

-- `1 << k`.
pub test_bit-pow : (k i : ℕ) → test_bit (2 ^ k) i ≡ (k == i)
unfolding test_bit
test_bit-pow zero zero = refl
test_bit-pow zero (suc i) = ground (arith, test_bit-zero i)
test_bit-pow (suc k) zero = ground (arith, pow_double k)
test_bit-pow (suc k) (suc i) =
    let half : 2 ^ suc k / 2 ≡ 2 ^ k = omega (arith, pow_double k) in
    rw half (ground (arith, test_bit-pow k i))

-- `~m` on words of `k` bits.
pub test_bit-complement :
    (k m i : ℕ) → m < 2 ^ k → i < k → test_bit (2 ^ k - 1 - m) i ≡ not (test_bit m i)
unfolding test_bit
test_bit-complement zero m i h p = absurd (omega arith)
test_bit-complement (suc k) m zero h p = ground (arith, pow_double k, pow_pos k)
test_bit-complement (suc k) m (suc i) h p =
    let half : (2 ^ suc k - 1 - m) / 2 ≡ 2 ^ k - 1 - m / 2 = omega (arith, pow_double k) in
    rw half (test_bit-complement k (m / 2) i (omega (arith, pow_double k)) (omega arith))

pub bit_or-lt : (k a b : ℕ) → a < 2 ^ k → b < 2 ^ k → bit_or a b < 2 ^ k
bit_or-lt zero zero zero p q = omega (arith, bit_or_from 0)
bit_or-lt zero zero (suc b) p q = absurd (omega arith)
bit_or-lt zero (suc a) b p q = absurd (omega arith)
bit_or-lt (suc k) a b p q = omega (
  arith,
  pow_double k,
  bit_or_step a b,
  bit_or-lt k (a / 2) (b / 2) (omega (arith, pow_double k)) (omega (arith, pow_double k)),
)

pub pow-lt-pow : (k w : ℕ) → k < w → 2 ^ k < 2 ^ w
pow-lt-pow k zero h = absurd (omega arith)
pow-lt-pow zero (suc w) h = omega (arith, pow_double w, pow_pos w)
pow-lt-pow (suc k) (suc w) h =
    omega (arith, pow_double w, pow_double k, pow-lt-pow k w (omega arith))

digits-zero : (n a : ℕ) → digits (λ b. zero) min n a 0 ≡ 0
digits-zero zero a = refl
digits-zero (suc n) zero = refl
digits-zero (suc n) (suc a) = omega (arith, digits-zero n (suc a / 2))

pub bit_and-zero : (a : ℕ) → bit_and a 0 ≡ 0
bit_and-zero a = omega (arith, bit_and-bitwise a 0, digits-zero a a)

-- `(x >> i) & 1`.
pub shift_and_one : (x i : ℕ) → bit_and (x / 2 ^ i) 1 ≡ (if test_bit x i then 1 else 0)
unfolding test_bit
shift_and_one x zero = ground (arith, div-one x, bit_and_step x 1, bit_and-zero (x / 2))
shift_and_one x (suc i) =
    let shift : x / 2 ^ suc i ≡ x / 2 / 2 ^ i =
      rw (pow-succ' 2 i) (sym (div-div-eq-div-mul x 2 (2 ^ i))) in
    rw shift (shift_and_one (x / 2) i)

pub bit_and-lt_right : (k a b : ℕ) → b < 2 ^ k → bit_and a b < 2 ^ k
bit_and-lt_right zero a zero p = omega (arith, bit_and-zero a)
bit_and-lt_right zero a (suc b) p = absurd (omega arith)
bit_and-lt_right (suc k) a b p = omega (
  arith,
  pow_double k,
  bit_and_step a b,
  bit_and-lt_right k (a / 2) (b / 2) (omega (arith, pow_double k)),
)
