-- ===== src/Jtag/Shift.antt =====
-- The shifting of bits in cmsis-dap/jtag.c: `jtag_rw_quick`, `jtag_rw_slow`, `jtag_rw_dr_quick` and
-- `jtag_rw_dr_slow`. What goes to `tdo` is a list of bytes, from its start on.
use cherry_link.Base.{
  ℕ, zero, suc, if◌then◌else◌, Option, List, [], ◌∷◌, ◌++◌, ◌+◌, ◌-◌, ◌%◌, ◌==◌, bit_or, shr, u8,
  has, Memory,
}
use cherry_link.Swd.Bits.{top_bit}
use cherry_link.Wire.{
  Wire, ◌▷◌, call, exchange, tck_to_app, tck_to_opp, tck_to_high, tck_to_low, tms_to_high,
  tms_to_low, tdi_to_app, tdi_to_opp, tdi_to_high, tdi_to_low,
}

-- `tms_last`, `tdi_last` and `tdo_last` of a byte that is being shifted.
pub record Shifting (W : Type 0) : Type 0 where
  pub tms_last : ℕ
  pub tdi_last : ℕ
  pub tdo_last : ℕ
  pub wire : W

module _ {W : Type 0} (b : Wire W) where
  -- the levels of the two outputs for the next clock
  unfoldable pub put_levels : ℕ → ℕ → W → W
  put_levels tms_last tdi_last w =
      w
      ▷ b.act (if has tdi_last 1 then tdi_to_high else tdi_to_low)
      ▷ b.act (if has tms_last 1 then tms_to_high else tms_to_low)

  -- the body of `do ... while (bits)`
  unfoldable pub shift_bit_quick : Option (W → W) → Shifting W → Shifting W
  unfolding put_levels call
  shift_bit_quick delay s =
      let w =
        s.wire
        ▷ put_levels s.tms_last s.tdi_last
        ▷ b.act tck_to_low
        ▷ call delay
        ▷ b.act tck_to_high in
      record {
        tms_last = shr s.tms_last 1;
        tdi_last = shr s.tdi_last 1;
        tdo_last = bit_or (shr s.tdo_last 1) (top_bit (b.tdo_read w));
        wire = w;
      }

  unfoldable pub shift_bit_slow : Option (W → W) → Shifting W → Shifting W
  unfolding put_levels call
  shift_bit_slow delay s =
      let w =
        s.wire
        ▷ put_levels s.tms_last s.tdi_last
        ▷ b.act tck_to_low
        ▷ call delay
        ▷ b.act tck_to_high
        ▷ call delay in
      record {
        tms_last = shr s.tms_last 1;
        tdi_last = shr s.tdi_last 1;
        tdo_last = bit_or (shr s.tdo_last 1) (top_bit (b.tdo_read w));
        wire = w;
      }

module _ {W : Type 0} where
  -- `do ... while (bits)`, for the bits that are left
  unfoldable pub shift_bits : ℕ → (Shifting W → Shifting W) → Shifting W → Shifting W
  shift_bits zero shift_bit s = s
  shift_bits (suc bits) shift_bit s = shift_bits bits shift_bit (shift_bit s)

  -- `while (bitlen >= 8)`, by the whole bytes left: `i` is how far the pointers have gone, and
  -- `tdo_last` goes on from byte to byte
  unfoldable pub shift_bytes :
      ℕ → ℕ → (Shifting W → Shifting W) → Memory → Memory → ℕ → W → List ℕ × ℕ × W
  unfolding shift_bits
  shift_bytes zero i shift_bit tms tdi tdo_last w = ([], tdo_last, w)
  shift_bytes (suc bytes) i shift_bit tms tdi tdo_last w =
      let s =
        shift_bits 8 shift_bit
          (record { tms_last = tms i; tdi_last = tdi i; tdo_last = tdo_last; wire = w }) in
      let (rest, tdo_last', w') = shift_bytes bytes (i + 1) shift_bit tms tdi s.tdo_last s.wire in
      (s.tdo_last ∷ rest, tdo_last', w')

  -- `if (bitlen)`: the bits of the last byte
  unfoldable pub shift_tail : ℕ → ℕ → (Shifting W → Shifting W) → Memory → Memory → W → List ℕ × W
  unfolding shift_bits
  shift_tail bits i shift_bit tms tdi w =
      let s =
        shift_bits bits shift_bit
          (record { tms_last = tms i; tdi_last = tdi i; tdo_last = 0; wire = w }) in
      if bits == 0 then ([], w) else (shr s.tdo_last (8 - bits) ∷ [], s.wire)

  -- The whole bytes and the tail from `i` on: `jtag_rw` from its start, and the end of `jtag_rw_dr`.
  unfoldable pub shift_all :
      ℕ → ℕ → (Shifting W → Shifting W) → Memory → Memory → ℕ → W → List ℕ × W
  unfolding shift_bytes shift_tail
  shift_all bitlen i shift_bit tms tdi tdo_last w =
      let (bytes, _, w') = shift_bytes (shr bitlen 3) i shift_bit tms tdi tdo_last w in
      let (tail, w'') = shift_tail (bitlen % 8) (i + shr bitlen 3) shift_bit tms tdi w' in
      (bytes ++ tail, w'')

  module _ (b : Wire W) where
    unfoldable pub jtag_rw_quick : Option (W → W) → ℕ → Memory → Memory → W → List ℕ × W
    unfolding shift_all shift_bit_quick
    jtag_rw_quick delay bitlen tms tdi w = shift_all bitlen 0 (shift_bit_quick b delay) tms tdi 0 w

    unfoldable pub jtag_rw_slow : Option (W → W) → ℕ → Memory → Memory → W → List ℕ × W
    unfolding shift_all shift_bit_slow
    jtag_rw_slow delay bitlen tms tdi w = shift_all bitlen 0 (shift_bit_slow b delay) tms tdi 0 w

    -- `do ... while (--bytelen_dma)`, by the bytes left: only tdi leaves, over the SPI
    unfoldable pub spi_bytes : ℕ → ℕ → Memory → W → List ℕ × W
    unfolding exchange
    spi_bytes zero i tdi w = ([], w)
    spi_bytes (suc bytes) i tdi w =
        let (byte, w') = exchange b (tdi i) w in
        let (rest, w'') = spi_bytes bytes (i + 1) tdi w' in (u8 byte ∷ rest, w'')

    -- The first byte, then `bytelen_dma` bytes over the SPI, then the tail. The count of bytes is at
    -- least 3 where the code calls this.
    unfoldable pub jtag_rw_dr : (Shifting W → Shifting W) → ℕ → ℕ → Memory → Memory → W → List ℕ × W
    unfolding shift_bits shift_all spi_bytes
    jtag_rw_dr shift_bit bytelen_dma bitlen_tail tms tdi w =
        let s =
          shift_bits 8 shift_bit
            (record { tms_last = tms 0; tdi_last = tdi 0; tdo_last = 0; wire = w }) in
        let (middle, w1) =
          s.wire ▷ b.act tck_to_app ▷ b.act tdi_to_app ▷ spi_bytes bytelen_dma 1 tdi in
        let w2 = w1 ▷ b.act tck_to_opp ▷ b.act tdi_to_opp in
        let (tail, w3) = shift_all bitlen_tail (1 + bytelen_dma) shift_bit tms tdi s.tdo_last w2 in
        (s.tdo_last ∷ middle ++ tail, w3)

    unfoldable pub jtag_rw_dr_quick : Option (W → W) → ℕ → ℕ → Memory → Memory → W → List ℕ × W
    unfolding jtag_rw_dr shift_bit_quick
    jtag_rw_dr_quick delay = jtag_rw_dr (shift_bit_quick b delay)

    unfoldable pub jtag_rw_dr_slow : Option (W → W) → ℕ → ℕ → Memory → Memory → W → List ℕ × W
    unfolding jtag_rw_dr shift_bit_slow
    jtag_rw_dr_slow delay = jtag_rw_dr (shift_bit_slow b delay)
