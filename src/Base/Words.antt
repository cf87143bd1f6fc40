-- ===== src/Base/Words.antt =====
-- Casts to the fixed widths, shifts, flag tests, and little-endian words in memory.
-- A buffer is the memory that a pointer points to: a function from offsets to bytes.
use Prim.Native.Nat.{ℕ, ◌+◌, ◌*◌, ◌/◌, ◌%◌, ◌^◌, ◌<◌, compare, Ordering, bit_and}
use mathlib.Core.Bool.{Bool, true, false}

abbrev pub u8 : ℕ → ℕ
u8 n = n % 2 ^ 8

abbrev pub u16 : ℕ → ℕ
u16 n = n % 2 ^ 16

abbrev pub u32 : ℕ → ℕ
u32 n = n % 2 ^ 32

abbrev pub u64 : ℕ → ℕ
u64 n = n % 2 ^ 64

abbrev pub shr : ℕ → ℕ → ℕ
shr x k = x / 2 ^ k

abbrev pub shl : ℕ → ℕ → ℕ
shl x k = x * 2 ^ k

-- `x & mask` as a condition
abbrev pub has : ℕ → ℕ → Bool
has x mask = elim (compare (bit_and x mask) 0) [ Ordering.eq ↦ false | _ ↦ true ]

abbrev pub Memory : Type 0
Memory = ℕ → ℕ

-- `p + n`
abbrev pub at : Memory → ℕ → Memory
at m n i = m (n + i)

abbrev pub write : Memory → ℕ → ℕ → Memory
write m p v q = elim (compare p q) [ Ordering.eq ↦ v | _ ↦ m q ]

-- `__UNALIGNED_UINT16_READ`, `__UNALIGNED_UINT32_READ` and their writes
abbrev pub read_u16 : Memory → ℕ → ℕ
read_u16 m p = m p + 256 * m (p + 1)

abbrev pub read_u32 : Memory → ℕ → ℕ
read_u32 m p = m p + 256 * m (p + 1) + 65536 * m (p + 2) + 16777216 * m (p + 3)

abbrev pub write_u16 : Memory → ℕ → ℕ → Memory
write_u16 m p v = write (write m p (u8 v)) (p + 1) (u8 (shr v 8))

abbrev pub write_u32 : Memory → ℕ → ℕ → Memory
write_u32 m p v = write_u16 (write_u16 m p (u16 v)) (p + 2) (u16 (shr v 16))

abbrev pub IsBytes : Memory → Type 0
IsBytes m = (i : ℕ) → m i < 256
