-- ===== src/Common/Bits.antt =====
-- Facts about `bit_and` and `bit_xor` on native numbers: masks of low bits, and flipping bit 0.
use Prim.Native.Nat.{
  ℕ, zero, suc, ◌+◌, ◌-◌, ◌*◌, ◌/◌, ◌%◌, ◌^◌, ◌≤◌, ◌<◌, min, bit_and, bit_xor, digits, differ,
  bit_and-bitwise, bit_xor-bitwise,
}
use mathlib.Core.Path.{◌≡◌, refl, sym, ap, ◌∙◌}
use native.Mathlib.Nat.{pow-succ', one-le-pow, div-add-mod, div-div-eq-div-mul}
use native.Mathlib.Omega.{arith}

module _ (z : ℕ → ℕ) (op : ℕ → ℕ → ℕ) where
  -- Any two counts of rounds that cover the first number give one result.
  more_rounds : (n m a b : ℕ) → a ≤ n → a ≤ m → digits z op n a b ≡ digits z op m a b
  more_rounds n m zero b left right = stop n ∙ sym (stop m)
    where
      stop : (k : ℕ) → digits z op k zero b ≡ z b
      stop zero = refl
      stop (suc k) = refl
  more_rounds zero m (suc a) b left right = absurd (omega arith)
  more_rounds (suc n) zero (suc a) b left right = absurd (omega arith)
  more_rounds (suc n) (suc m) (suc a) b p q =
      rw (more_rounds n m (suc a / 2) (b / 2) (omega arith) (omega arith))

  lowest_digit :
      (a b : ℕ)
      → digits z op (suc a) (suc a) b
        ≡ digits z op (suc a / 2) (suc a / 2) (b / 2) * 2 + op (suc a % 2) (b % 2)
  lowest_digit a b =
      omega (arith, more_rounds a (suc a / 2) (suc a / 2) (b / 2) (omega arith) (omega arith))

pub bit_and_step : (a b : ℕ) → bit_and a b ≡ bit_and (a / 2) (b / 2) * 2 + min (a % 2) (b % 2)
bit_and_step zero b = omega (arith, bit_and-bitwise 0 b, bit_and-bitwise 0 (b / 2))
bit_and_step (suc a) b = simp bit_and-bitwise (lowest_digit (λ _. 0) min a b)

bit_and-zero_below : (n a : ℕ) → a ≤ n → bit_and a 0 ≡ 0
bit_and-zero_below n zero h = refl
bit_and-zero_below zero (suc a) h = absurd (omega arith)
bit_and-zero_below (suc n) (suc a) h =
    omega (arith, bit_and_step (suc a) 0, bit_and-zero_below n (suc a / 2) (omega arith))

mod-double : (a p : ℕ) → a % (2 * p) ≡ 2 * (a / 2 % p) + a % 2
mod-double a p = omega (
  arith,
  div-add-mod a (2 * p),
  div-add-mod (a / 2) p,
  ap (λ (t : ℕ). p * t) (div-div-eq-div-mul a 2 p),
)

-- A mask of `k` low bits is the remainder by `2 ^ k`.
pub bit_and_mask : (k a : ℕ) → bit_and a (2 ^ k - 1) ≡ a % 2 ^ k
bit_and_mask zero a = omega (arith, bit_and-zero_below a a (omega arith))
bit_and_mask (suc k) a =
    let half : (2 * 2 ^ k - 1) / 2 ≡ 2 ^ k - 1 = omega (arith, one-le-pow k 2) in
    let lowest = rw half at (bit_and_step a (2 * 2 ^ k - 1)) in
    rw (pow-succ' 2 k)
      (omega (arith, lowest, one-le-pow k 2, bit_and_mask k (a / 2), mod-double a (2 ^ k)))

differ-zero : (n : ℕ) → differ n 0 ≡ n
differ-zero zero = refl
differ-zero (suc n) = refl

differ-one : (n : ℕ) → n < 2 → differ n 1 ≡ 1 - n
differ-one zero h = refl
differ-one (suc zero) h = refl
differ-one (suc (suc n)) h = absurd (omega arith)

bit_xor_step :
    (a b : ℕ) → bit_xor (suc a) b ≡ bit_xor (suc a / 2) (b / 2) * 2 + differ (suc a % 2) (b % 2)
bit_xor_step a b = simp bit_xor-bitwise (lowest_digit (λ y. y) differ a b)

bit_xor-zero_below : (n a : ℕ) → a ≤ n → bit_xor a 0 ≡ a
bit_xor-zero_below n zero h = refl
bit_xor-zero_below zero (suc a) h = absurd (omega arith)
bit_xor-zero_below (suc n) (suc a) h = omega (
  arith,
  bit_xor_step a 0,
  bit_xor-zero_below n (suc a / 2) (omega arith),
  differ-zero (suc a % 2),
)

-- `a ^ 1` flips bit 0.
pub bit_xor_one : (a : ℕ) → bit_xor a 1 ≡ a / 2 * 2 + (1 - a % 2)
bit_xor_one zero = refl
bit_xor_one (suc a) = omega (
  arith,
  bit_xor_step a 1,
  bit_xor-zero_below (suc a / 2) (suc a / 2) (omega arith),
  differ-one (suc a % 2) (omega arith),
)
