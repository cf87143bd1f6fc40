-- ===== src/Bits/Lists.antt =====
-- The law of `|` on disjoint bits, and numbers as lists of bits.
use Prim.Native.Nat.{max, bit_or-bitwise}
use native.Mathlib.Nat.{two-pow-succ, pow-succ', div-div-eq-div-mul}
use cherry_link.Base.{
  ℕ, zero, suc, ◌+◌, ◌-◌, ◌*◌, ◌/◌, ◌%◌, ◌^◌, ◌≤◌, ◌<◌, bit_and, bit_or, ◌≡◌, refl, ap, sym, ◌∙◌,
  arith, Bool, true, false, if◌then◌else◌, List, [], ◌∷◌, ◌++◌, length, length-append, replicate,
  ◌==◌, u8, u64, shl,
}
use cherry_link.Bits.{halve, bit_and_digit, bit_and-le}

pub two_pow_pos : (k : ℕ) → 0 < 2 ^ k
two_pow_pos zero = omega arith
two_pow_pos (suc k) = omega (arith, two-pow-succ k, two_pow_pos k)

bit_or_digit : (a b : ℕ) → bit_or a b ≡ bit_or (a / 2) (b / 2) * 2 + max (a % 2) (b % 2)
bit_or_digit zero b = omega (arith, bit_or-bitwise 0 b, bit_or-bitwise 0 (b / 2))
bit_or_digit (suc a) b = halve (λ y. y) max bit_or (λ x y. bit_or-bitwise x y) a b

-- Bits above the ones that a number has are added.
pub bit_or-shifted : (k a y : ℕ) → a < 2 ^ k → bit_or a (y * 2 ^ k) ≡ a + y * 2 ^ k
bit_or-shifted zero a y small =
    let nothing : a ≡ 0 = omega arith in rw nothing (omega (arith, bit_or-bitwise 0 (y * 1)))
bit_or-shifted (suc k) a y small =
    let twice : 2 ^ suc k ≡ 2 ^ k + 2 ^ k = two-pow-succ k in
    let twofold : y * 2 ^ suc k ≡ y * 2 ^ k + y * 2 ^ k =
      ap (λ (t : ℕ). y * t) twice ∙ grind arith in
    let half : y * 2 ^ suc k / 2 ≡ y * 2 ^ k = omega arith in
    let even : y * 2 ^ suc k % 2 ≡ 0 = omega arith in
    let digit = bit_or_digit a (y * 2 ^ suc k) in
    let upper = bit_or-shifted k (a / 2) y (omega arith) in digit ∙ rw (half, even) (omega arith)

-- `n` bits of a number, the lowest first.
unfoldable pub bits : ℕ → ℕ → List Bool
bits zero x = []
bits (suc n) x = (x % 2 == 1) ∷ bits n (x / 2)

-- The number that a list of bits spells, the lowest first.
unfoldable pub value : List Bool → ℕ
value [] = 0
value (x ∷ xs) = (if x then 1 else 0) + 2 * value xs

pub value-append : (xs ys : List Bool) → value (xs ++ ys) ≡ value xs + value ys * 2 ^ length xs
unfolding value
value-append [] ys = omega arith
value-append (x ∷ xs) ys =
    let twice : 2 ^ suc (length xs) ≡ 2 ^ length xs + 2 ^ length xs = two-pow-succ (length xs) in
    let twofold : value ys * 2 ^ suc (length xs)
        ≡ value ys * 2 ^ length xs + value ys * 2 ^ length xs =
      ap (λ (t : ℕ). value ys * t) twice ∙ grind arith in
    omega (arith, value-append xs ys)

pub value-lt : (xs : List Bool) → value xs < 2 ^ length xs
unfolding value
value-lt [] = omega arith
value-lt (x ∷ xs) = ground (arith, two-pow-succ (length xs), value-lt xs)

pub pow_le : (m n : ℕ) → m ≤ n → 2 ^ m ≤ 2 ^ n
pow_le zero n h = omega (arith, two_pow_pos n)
pow_le (suc m) zero h = absurd (omega arith)
pow_le (suc m) (suc n) h = omega (arith, two-pow-succ m, two-pow-succ n, pow_le m n (omega arith))

-- `|=` of bits behind those that a buffer of 64 has.
pub value-or :
    (xs ys : List Bool)
    → length xs + length ys ≤ 64
    → bit_or (value xs) (u64 (shl (value ys) (length xs))) ≡ value (xs ++ ys)
value-or xs ys fits =
    let whole : value (xs ++ ys) < 2 ^ 64 = omega (
      arith,
      value-lt (xs ++ ys),
      pow_le (length (xs ++ ys)) 64 (omega (arith, length-append xs ys)),
    ) in
    let kept : value ys * 2 ^ length xs % 2 ^ 64 ≡ value ys * 2 ^ length xs =
      omega (arith, value-append xs ys) in
    rw kept (bit_or-shifted (length xs) (value xs) (value ys) (value-lt xs))
    ∙ sym (value-append xs ys)

pub length-bits : (n x : ℕ) → length (bits n x) ≡ n
unfolding bits
length-bits zero x = refl
length-bits (suc n) x = ap suc (length-bits n (x / 2))

pub value-ones : (n : ℕ) → value (replicate n true) ≡ 2 ^ n - 1
unfolding value
value-ones zero = refl
value-ones (suc n) = omega (arith, two-pow-succ n, value-ones n, two_pow_pos n)

-- A mask of `n` ones gives the lowest `n` bits.
pub bit_and-mask : (n x : ℕ) → bit_and x (2 ^ n - 1) ≡ value (bits n x)
unfolding bits value
bit_and-mask zero x = omega (arith, bit_and-le x 0)
bit_and-mask (suc n) x =
    let twice : 2 ^ suc n ≡ 2 ^ n + 2 ^ n = two-pow-succ n in
    let half : (2 ^ suc n - 1) / 2 ≡ 2 ^ n - 1 = omega (arith, two_pow_pos n) in
    let odd : (2 ^ suc n - 1) % 2 ≡ 1 = omega (arith, two_pow_pos n) in
    let digit = bit_and_digit x (2 ^ suc n - 1) in
    digit ∙ rw (half, odd, bit_and-mask n (x / 2)) (ground arith)

-- One more bit that agrees.
bits_next :
    (k a b : ℕ) → a % 2 ≡ b % 2 → bits k (a / 2) ≡ bits k (b / 2) → bits (suc k) a ≡ bits (suc k) b
unfolding bits
bits_next k a b low rest = rw (low, rest) refl

pub bits-u8 : (x : ℕ) → bits 8 (u8 x) ≡ bits 8 x
unfolding bits
bits-u8 x = bits_next 7 (u8 x) (x) (omega arith) (
    bits_next 6 (u8 x / 2) (x / 2) (omega arith) (
      bits_next 5 (u8 x / 2 / 2) (x / 2 / 2) (omega arith) (
        bits_next 4 (u8 x / 2 / 2 / 2) (x / 2 / 2 / 2) (omega arith) (
          bits_next 3 (u8 x / 2 / 2 / 2 / 2) (x / 2 / 2 / 2 / 2) (omega arith) (
            bits_next 2 (u8 x / 2 / 2 / 2 / 2 / 2) (x / 2 / 2 / 2 / 2 / 2) (omega arith) (
              bits_next 1 (u8 x / 2 / 2 / 2 / 2 / 2 / 2) (x / 2 / 2 / 2 / 2 / 2 / 2) (omega arith) (
                bits_next 0 (u8 x / 2 / 2 / 2 / 2 / 2 / 2 / 2) (x / 2 / 2 / 2 / 2 / 2 / 2 / 2)
                  (omega arith) refl)))))))

pub bits-add : (m n x : ℕ) → bits (m + n) x ≡ bits m x ++ bits n (x / 2 ^ m)
unfolding bits
bits-add zero n x =
    let none_more : 0 + n ≡ n = omega arith in
    let whole : x / 2 ^ 0 ≡ x = omega arith in rw (none_more, whole) refl
bits-add (suc m) n x =
    let less : suc m + n ≡ suc (m + n) = omega arith in
    let half : x / 2 ^ suc m ≡ x / 2 / 2 ^ m =
      rw pow-succ' (sym (div-div-eq-div-mul x 2 (2 ^ m))) in
    rw (less, half, bits-add m n (x / 2)) refl

pub value-zeros : (n : ℕ) → value (replicate n false) ≡ 0
unfolding value
value-zeros zero = refl
value-zeros (suc n) = omega (arith, value-zeros n)

-- Zeros at the end change nothing.
pub value-padded : (xs : List Bool) (n : ℕ) → value (xs ++ replicate n false) ≡ value xs
value-padded xs n = value-append xs (replicate n false) ∙ rw value-zeros (omega arith)

lowest : (x : Bool) (v : ℕ) → (((if x then 1 else 0) + 2 * v) % 2 == 1) ≡ x
lowest true v = ground arith
lowest false v = ground arith

-- A list of bits is recovered from its number.
pub bits-value : (xs : List Bool) → bits (length xs) (value xs) ≡ xs
unfolding bits value
bits-value [] = refl
bits-value (x ∷ xs) =
    let low : (((if x then 1 else 0) + 2 * value xs) % 2 == 1) ≡ x = lowest x (value xs) in
    let half : ((if x then 1 else 0) + 2 * value xs) / 2 ≡ value xs = ground arith in
    rw (low, half, bits-value xs) refl

-- The first bits of a longer list's number.
pub bits-prefix : (xs ys : List Bool) (m : ℕ) → length xs ≡ m → bits m (value (xs ++ ys)) ≡ xs
unfolding bits value
bits-prefix [] ys m l = rw (sym l) refl
bits-prefix (x ∷ xs) ys m l =
    let rest = value (xs ++ ys) in
    let low : (((if x then 1 else 0) + 2 * rest) % 2 == 1) ≡ x = lowest x rest in
    let half : ((if x then 1 else 0) + 2 * rest) / 2 ≡ rest = ground arith in
    rw (sym l, low, half, bits-prefix xs ys (length xs) refl) refl

-- A number of `n` bits is what its bits say.
pub value-bits : (n x : ℕ) → x < 2 ^ n → value (bits n x) ≡ x
unfolding bits value
value-bits zero x h = omega arith
value-bits (suc n) x h = rw (value-bits n (x / 2) (omega (arith, two-pow-succ n))) (ground arith)

pub pow_add : (m n : ℕ) → 2 ^ (m + n) ≡ 2 ^ m * 2 ^ n
pow_add zero n = let same : 0 + n ≡ n = omega arith in rw same (omega arith)
pow_add (suc m) n =
    let more : suc m + n ≡ suc (m + n) = omega arith in
    rw (more, pow-succ', pow-succ', pow_add m n) (grind arith)

prefix_eq : (xs ys us vs : List Bool) → length xs ≡ length ys → xs ++ us ≡ ys ++ vs → xs ≡ ys
prefix_eq [] [] us vs l e = refl
prefix_eq [] (y ∷ ys) us vs l e = absurd (omega arith)
prefix_eq (x ∷ xs) [] us vs l e = absurd (omega arith)
prefix_eq (x ∷ xs) (y ∷ ys) us vs l e =
    let head : x ≡ y = cc in let rest : xs ≡ ys = prefix_eq xs ys us vs (omega arith) (cc) in cc

-- The first bits of a byte are those of the number that it was cut from.
pub bits-u8_le : (n x : ℕ) → n ≤ 8 → bits n (u8 x) ≡ bits n x
bits-u8_le n x h =
    let eight : n + (8 - n) ≡ 8 = omega arith in
    let both : bits n (u8 x) ++ bits (8 - n) (u8 x / 2 ^ n) ≡ bits n x ++ bits (8 - n) (x / 2 ^ n) =
      sym (bits-add n (8 - n) (u8 x))
      ∙ ap (λ m. bits m (u8 x)) eight
      ∙ bits-u8 x
      ∙ ap (λ m. bits m x) (sym eight)
      ∙ bits-add n (8 - n) x in
    prefix_eq (bits n (u8 x)) (bits n x) _ _ (length-bits n (u8 x) ∙ sym (length-bits n x)) both
