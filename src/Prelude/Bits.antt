-- ===== src/Prelude/Bits.antt =====
-- Laws of `|` and `&` for fields that do not overlap and for masks of ones, at every width.
use Prim.Native.Nat.{
  ℕ, zero, suc, ◌+◌, ◌*◌, ◌-◌, ◌/◌, ◌%◌, ◌^◌, ◌≤◌, ◌<◌, min, max, bit_and, bit_or, digits, bitwise,
  bit_and-bitwise, bit_or-bitwise,
}
use mathlib.Core.Path.{◌≡◌, refl, ap}
use native.Mathlib.Nat.{pow-suc}
use native.Mathlib.Omega.{arith}

-- The digit recursion does not depend on fuel beyond the number itself.
module _ (z : ℕ → ℕ) (f : ℕ → ℕ → ℕ) where
  fuel_agrees : (i j x y : ℕ) → x ≤ j → x ≤ i → digits z f j x y ≡ digits z f i x y
  fuel_agrees (suc i) (suc j) (suc x) y hj hi =
      rw (fuel_agrees i j (suc x / 2) (y / 2) (omega arith) (omega arith))
  fuel_agrees (suc i) (suc j) zero y hj hi = refl
  fuel_agrees (suc i) zero (suc x) y hj hi = absurd (omega arith)
  fuel_agrees (suc i) zero zero y hj hi = refl
  fuel_agrees zero (suc j) (suc x) y hj hi = absurd (omega arith)
  fuel_agrees zero (suc j) zero y hj hi = refl
  fuel_agrees zero zero x y hj hi = refl

  last_digit :
      (x y : ℕ)
      → bitwise z f (suc x) y ≡ bitwise z f (suc x / 2) (y / 2) * 2 + f (suc x % 2) (y % 2)
  last_digit x y =
      omega (arith, fuel_agrees (suc x / 2) x (suc x / 2) (y / 2) (omega arith) (omega arith))

bit_and_digit : (x y : ℕ) → bit_and x y ≡ bit_and (x / 2) (y / 2) * 2 + min (x % 2) (y % 2)
bit_and_digit (suc x) y = simp bit_and-bitwise (last_digit (λ b. zero) min x y)
bit_and_digit zero y = simp bit_and-bitwise (omega arith)

bit_or_digit : (x y : ℕ) → bit_or x y ≡ bit_or (x / 2) (y / 2) * 2 + max (x % 2) (y % 2)
bit_or_digit (suc x) y = simp bit_or-bitwise (last_digit (λ b. b) max x y)
bit_or_digit zero y = simp bit_or-bitwise (omega arith)

bit_and-zero_fuel : (fuel x : ℕ) → x ≤ fuel → bit_and x 0 ≡ 0
bit_and-zero_fuel (suc fuel) (suc x) h =
    omega (arith, bit_and_digit (suc x) 0, bit_and-zero_fuel fuel (suc x / 2) (omega arith))
bit_and-zero_fuel zero (suc x) h = absurd (omega arith)
bit_and-zero_fuel fuel zero h = refl

bit_or-zero_fuel : (fuel x : ℕ) → x ≤ fuel → bit_or x 0 ≡ x
bit_or-zero_fuel (suc fuel) (suc x) h =
    omega (arith, bit_or_digit (suc x) 0, bit_or-zero_fuel fuel (suc x / 2) (omega arith))
bit_or-zero_fuel zero (suc x) h = absurd (omega arith)
bit_or-zero_fuel fuel zero h = refl

shift_digit : (hi k : ℕ) → hi * 2 ^ suc k ≡ 2 * (hi * 2 ^ k)
shift_digit hi k = omega (arith, ap (λ (t : ℕ). hi * t) (pow-suc 2 k))

one-le-two_pow : (k : ℕ) → 1 ≤ 2 ^ k
one-le-two_pow zero = omega arith
one-le-two_pow (suc k) = omega (arith, pow-suc 2 k, one-le-two_pow k)

-- `(hi << k) | lo` is a sum where `lo` has at most `k` bits.
pub bit_or-shift : (k hi lo : ℕ) → lo < 2 ^ k → bit_or (hi * 2 ^ k) lo ≡ hi * 2 ^ k + lo
bit_or-shift zero hi lo h = ground (arith, bit_or-zero_fuel hi hi)
bit_or-shift (suc k) hi lo h = ground (
  arith,
  bit_or_digit (hi * 2 ^ suc k) lo,
  shift_digit hi k,
  bit_or-shift k hi (lo / 2) (omega (arith, pow-suc 2 k)),
)

low_bits : (k hi lo : ℕ) → lo < 2 ^ k → bit_and (hi * 2 ^ k + lo) (2 ^ k - 1) ≡ lo
low_bits zero hi lo h = ground (arith, bit_and-zero_fuel hi hi)
low_bits (suc k) hi lo h = ground (
  arith,
  bit_and_digit (hi * 2 ^ suc k + lo) (2 ^ suc k - 1),
  shift_digit hi k,
  pow-suc 2 k,
  one-le-two_pow k,
  low_bits k hi (lo / 2) (omega (arith, pow-suc 2 k)),
)

-- `a & (2^k - 1)` keeps the low `k` bits.
pub bit_and-ones : (k a : ℕ) → bit_and a (2 ^ k - 1) ≡ a % 2 ^ k
bit_and-ones k a = ground (arith, one-le-two_pow k, low_bits k (a / 2 ^ k) (a % 2 ^ k))
