-- ===== src/Bits.antt =====
-- Laws of `&` and `^` at variables: one equation for the lowest binary digit, from the digit
-- recursion with fuel that the native operations stand for, and what follows for masks.
pub mod Lists
use Prim.Native.Nat.{min, digits, differ, bit_and-bitwise, bit_xor-bitwise}
use native.Mathlib.Nat.{two-pow-succ}
use cherry_link.Base.{
  ℕ, zero, suc, ◌+◌, ◌-◌, ◌*◌, ◌/◌, ◌%◌, ◌^◌, ◌≤◌, ◌<◌, bit_and, bit_xor, ◌≡◌, refl, ◌∙◌, arith,
}

-- An operation `op` that goes digit by digit with `f`, and is `edge` where the left number ends.
module _ (edge : ℕ → ℕ) (f op : ℕ → ℕ → ℕ)
    (by_digits : (a b : ℕ) → op a b ≡ digits edge f a a b) where
  ended : (fuel b : ℕ) → digits edge f fuel 0 b ≡ edge b
  ended zero b = refl
  ended (suc fuel) b = refl

  surplus :
      (spare fuel total a b : ℕ)
      → total ≡ fuel + spare
      → a ≤ fuel
      → digits edge f total a b ≡ digits edge f fuel a b
  surplus spare fuel total zero b sum fits = omega (arith, ended fuel b, ended total b)
  surplus spare zero total (suc a) b sum fits = absurd (omega arith)
  surplus spare (suc fuel) zero (suc a) b sum fits = absurd (omega arith)
  surplus spare (suc fuel) (suc total) (suc a) b sum fits =
      omega (arith, surplus spare fuel total (suc a / 2) (b / 2) (omega arith) (omega arith))

  halve : (a b : ℕ) → op (suc a) b ≡ op (suc a / 2) (b / 2) * 2 + f (suc a % 2) (b % 2)
  halve a b =
      let half = suc a / 2 in
      omega (
        arith,
        by_digits (suc a) b,
        by_digits half (b / 2),
        surplus (a - half) half a half (b / 2) (omega arith) (omega arith),
      )

differ-mod : (x y : ℕ) → x < 2 → y < 2 → differ x y ≡ (x + y) % 2
differ-mod zero y left right = omega arith
differ-mod (suc zero) zero left right = refl
differ-mod (suc zero) (suc y) left right = omega arith
differ-mod (suc (suc x)) y left right = absurd (omega arith)

pub bit_xor_digit : (a b : ℕ) → bit_xor a b ≡ bit_xor (a / 2) (b / 2) * 2 + (a + b) % 2
bit_xor_digit zero b = omega (arith, bit_xor-bitwise 0 b, bit_xor-bitwise 0 (b / 2))
bit_xor_digit (suc a) b = omega (
  arith,
  halve (λ y. y) differ bit_xor (λ x y. bit_xor-bitwise x y) a b,
  differ-mod (suc a % 2) (b % 2) (omega arith) (omega arith),
)

bit_and_digit : (a b : ℕ) → bit_and a b ≡ bit_and (a / 2) (b / 2) * 2 + min (a % 2) (b % 2)
bit_and_digit zero b = omega (arith, bit_and-bitwise 0 b, bit_and-bitwise 0 (b / 2))
bit_and_digit (suc a) b = halve (λ y. zero) min bit_and (λ x y. bit_and-bitwise x y) a b

-- Both numbers bound what they have in common; `k` bounds the first.
bit_and-within : (k a b : ℕ) → a ≤ k → bit_and a b ≤ b
bit_and-within k zero b h = omega (arith, bit_and-bitwise 0 b)
bit_and-within zero (suc a) b h = absurd (omega arith)
bit_and-within (suc k) (suc a) b h =
    omega (arith, bit_and_digit (suc a) b, bit_and-within k (suc a / 2) (b / 2) (omega arith))

-- A mask bounds what it lets through.
pub bit_and-le : (a mask : ℕ) → bit_and a mask ≤ mask
bit_and-le a mask = bit_and-within a a mask (omega arith)

-- The lowest bit is the remainder by 2.
pub bit_and-one : (a : ℕ) → bit_and a 1 ≡ a % 2
bit_and-one a = omega (arith, bit_and_digit a 1, bit_and-le (a / 2) 0)

-- A mask that ends in a zero bit lets through the double of what its half does.
bit_and-even : (a mask : ℕ) → bit_and a (mask * 2) ≡ bit_and (a / 2) mask * 2
bit_and-even a mask =
    let half : mask * 2 / 2 ≡ mask = omega arith in
    let digit : bit_and a (mask * 2)
        ≡ bit_and (a / 2) (mask * 2 / 2) * 2 + min (a % 2) (mask * 2 % 2) =
      bit_and_digit a (mask * 2) in
    (rw half at digit) ∙ omega arith

-- A mask of `k` ones lets through what has only `k` bits.
bit_and-ones : (k a : ℕ) → a < 2 ^ k → bit_and a (2 ^ k - 1) ≡ a
bit_and-ones zero a small = omega (arith, bit_and-le a 0)
bit_and-ones (suc k) a small =
    let twice = two-pow-succ k in
    let half : (2 ^ suc k - 1) / 2 ≡ 2 ^ k - 1 = omega arith in
    let odd : (2 ^ suc k - 1) % 2 ≡ 1 = omega arith in
    let digit = bit_and_digit a (2 ^ suc k - 1) in
    (rw (half, odd) at digit) ∙ omega (arith, bit_and-ones k (a / 2) (omega arith))

-- The mask of the upper 24 of 32 bits.
pub bit_and-pages : (a : ℕ) → a < 2 ^ 32 → bit_and a 0xffffff00 ≡ a / 256 * 256
bit_and-pages a small = omega (
  arith,
  bit_and-even a 0x7fffff80,
  bit_and-even (a / 2) 0x3fffffc0,
  bit_and-even (a / 2 / 2) 0x1fffffe0,
  bit_and-even (a / 2 / 2 / 2) 0x0ffffff0,
  bit_and-even (a / 2 / 2 / 2 / 2) 0x07fffff8,
  bit_and-even (a / 2 / 2 / 2 / 2 / 2) 0x03fffffc,
  bit_and-even (a / 2 / 2 / 2 / 2 / 2 / 2) 0x01fffffe,
  bit_and-even (a / 2 / 2 / 2 / 2 / 2 / 2 / 2) 0x00ffffff,
  bit_and-ones 24 (a / 2 / 2 / 2 / 2 / 2 / 2 / 2 / 2) (omega arith),
)
