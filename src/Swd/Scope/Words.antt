-- ===== src/Swd/Scope/Words.antt =====
-- The bits of a word, and those of its bytes.
use mathlib.Core.List.{map-append}
use cherry_link.Base.{
  ℕ, ◌/◌, ◌^◌, ◌≡◌, ap, ◌∙◌, Bool, Option, some, List, ◌++◌, map, arith, u8, shr,
}
use cherry_link.Bits.Lists.{bits, bits-add, bits-u8}

-- The four bytes of a word as they leave the SPI, one after the other.
unfoldable pub bytes_bits : ℕ → List (Option Bool)
bytes_bits word =
    map some (bits 8 (u8 word))
    ++ (map some (bits 8 (u8 (shr word 8)))
        ++ (map some (bits 8 (u8 (shr word 16))) ++ map some (bits 8 (u8 (shr word 24)))))

bits-bytes :
    (word : ℕ)
    → bits 32 word
      ≡ bits 8 (u8 word)
        ++ (bits 8 (u8 (shr word 8)) ++ (bits 8 (u8 (shr word 16)) ++ bits 8 (u8 (shr word 24))))
bits-bytes word =
    let second : word / 2 ^ 8 / 2 ^ 8 ≡ word / 2 ^ 16 = omega arith in
    let third : word / 2 ^ 16 / 2 ^ 8 ≡ word / 2 ^ 24 = omega arith in
    bits-add 8 24 word
    ∙ ap (λ (bs : List Bool). bits 8 word ++ bs) (bits-add 8 16 (word / 2 ^ 8))
    ∙ rw (second, bits-add 8 8 (word / 2 ^ 16), third) (simp bits-u8)

pub bytes_bits-eq : (word : ℕ) → bytes_bits word ≡ map some (bits 32 word)
unfolding bytes_bits
bytes_bits-eq word = simp (bits-bytes word, map-append)
