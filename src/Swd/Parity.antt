-- ===== src/Swd/Parity.antt =====
-- The parities and the request header of cmsis-dap/swd.c.
use native.Mathlib.Nat.{pow-succ', div-div-eq-div-mul, div-one}
use cherry_link.Bits.{bit_xor_digit, bit_and-one}
use cherry_link.Base.{
  ℕ, zero, suc, ◌+◌, ◌*◌, ◌/◌, ◌%◌, ◌^◌, ◌<◌, bit_and, bit_or, bit_xor, ◌≡◌, refl, sym, ◌∙◌, Bool,
  true, false, if◌then◌else◌, arith, ◌==◌, ==_iff, u8, u32, shr, shl,
}

-- `get_parity_4bit`: the argument is a `uint8_t`.
unfoldable pub get_parity_4bit : ℕ → ℕ
get_parity_4bit x =
    let data0 = u8 x in
    let data1 = bit_xor data0 (shr data0 2) in
    let data2 = bit_xor data1 (shr data1 1) in bit_and data2 1

-- `get_parity_32bit`
unfoldable pub get_parity_32bit : ℕ → ℕ
get_parity_32bit data0 =
    let data1 = bit_xor data0 (shr data0 16) in
    let data2 = bit_xor data1 (shr data1 8) in
    let data3 = bit_xor data2 (shr data2 4) in
    let data4 = bit_xor data3 (shr data3 2) in
    let data5 = bit_xor data4 (shr data4 1) in bit_and data5 1

-- The number of ones among the lowest `k` bits, modulo 2.
pub ones_parity : ℕ → ℕ → ℕ
ones_parity zero x = 0
ones_parity (suc k) x = (x % 2 + ones_parity k (x / 2)) % 2

ones_parity-bit_xor :
    (k a b : ℕ) → ones_parity k (bit_xor a b) ≡ (ones_parity k a + ones_parity k b) % 2
unfolding ones_parity
ones_parity-bit_xor zero a b = refl
ones_parity-bit_xor (suc k) a b =
    let half : bit_xor a b / 2 ≡ bit_xor (a / 2) (b / 2) = omega (arith, bit_xor_digit a b) in
    rw half (omega (arith, bit_xor_digit a b, ones_parity-bit_xor k (a / 2) (b / 2)))

pub ones_parity-lt : (k x : ℕ) → ones_parity k x < 2
unfolding ones_parity
ones_parity-lt zero x = omega arith
ones_parity-lt (suc k) x = omega arith

halves : (x j : ℕ) → x / 2 ^ suc j ≡ x / 2 / 2 ^ j
halves x j = rw pow-succ' (sym (div-div-eq-div-mul x 2 (2 ^ j)))

ones_parity-add :
    (j k n x : ℕ) → n ≡ j + k → ones_parity n x ≡ (ones_parity j x + ones_parity k (x / 2 ^ j)) % 2
unfolding ones_parity
ones_parity-add zero k n x e =
    let same : n ≡ k = omega arith in
    let small : ones_parity k x ≡ (0 + ones_parity k x) % 2 = omega (arith, ones_parity-lt k x) in
    rw (same, div-one) small
ones_parity-add (suc j) k zero x e = absurd (omega arith)
ones_parity-add (suc j) k (suc n) x e =
    rw (halves x j) (omega (arith, ones_parity-add j k n (x / 2) (omega arith)))

-- One step of the folding: the upper half goes onto the lower one.
ones_parity_fold : (k x : ℕ) → ones_parity k (bit_xor x (x / 2 ^ k)) ≡ ones_parity (k + k) x
ones_parity_fold k x =
    ones_parity-bit_xor k x (x / 2 ^ k) ∙ sym (ones_parity-add k k (k + k) x refl)

lowest : (x : ℕ) → bit_and x 1 ≡ ones_parity 1 x
unfolding ones_parity
lowest x = omega (arith, bit_and-one x)

-- For every word, `get_parity_32bit` is 1 exactly when the number of ones among its 32 low bits
-- is odd.
pub get_parity_32bit-eq-ones_parity : (x : ℕ) → get_parity_32bit x ≡ ones_parity 32 x
unfolding get_parity_32bit
get_parity_32bit-eq-ones_parity x =
    let data1 = bit_xor x (x / 65536) in
    let data2 = bit_xor data1 (data1 / 256) in
    let data3 = bit_xor data2 (data2 / 16) in
    let data4 = bit_xor data3 (data3 / 4) in
    lowest (bit_xor data4 (data4 / 2))
    ∙ ones_parity_fold 1 data4
    ∙ ones_parity_fold 2 data3
    ∙ ones_parity_fold 4 data2
    ∙ ones_parity_fold 8 data1
    ∙ ones_parity_fold 16 x

-- `buffer = ((request << 1) & 0x1E) | 0x81 | temp`, the eight bits that open a transfer;
-- `get_parity_4bit` takes the request as a `uint8_t`.
unfoldable pub request_header : ℕ → ℕ
unfolding get_parity_4bit
request_header request =
    let temp = shl (get_parity_4bit request) 5 in
    bit_or (bit_or (bit_and (u32 (shl request 1)) 0x1e) 0x81) temp

-- The header that the SWD protocol asks for, lowest bit first: start, APnDP, RnW, A2, A3, the
-- parity of these four, stop, park.
pub swd_header : ℕ → ℕ
unfolding ones_parity
swd_header request = 1 + request % 16 * 2 + ones_parity 4 request * 32 + 0 * 64 + 128

-- whether a test holds of all numbers below a bound
passes : (ℕ → Bool) → ℕ → Bool
passes test zero = true
passes test (suc bound) = if test bound then passes test bound else false

passes-test : (test : ℕ → Bool) (bound x : ℕ) → passes test bound ≡ true → x < bound → test x ≡ true
unfolding passes
passes-test test zero x all small = absurd (omega arith)
passes-test test (suc bound) x all small = ground (arith, passes-test test bound x)

header_agrees : ℕ → Bool
header_agrees request = request_header request == swd_header request

header_agrees_table : passes header_agrees 256 ≡ true
unfolding passes header_agrees request_header swd_header
header_agrees_table = refl

-- For every request byte of a transfer, the match and timestamp flags included, the header sent is
-- the one of the protocol for its four low bits.
pub request_header-eq-swd_header :
    (request : ℕ) → request < 256 → request_header request ≡ swd_header request
unfolding header_agrees
request_header-eq-swd_header request h =
    (==_iff _ _).0 (passes-test header_agrees 256 request header_agrees_table h)
