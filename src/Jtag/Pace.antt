-- ===== src/Jtag/Pace.antt =====
-- The quick and the slow routines of cmsis-dap/jtag.c do the same to the pins.
use mathlib.Core.Path.{fun_ext}
use cherry_link.Base.{ℕ, ◌≡◌, ap, Option, Memory}
use cherry_link.Jtag.Shift.{
  shift_bit_quick, shift_bit_slow, shift_all, jtag_rw_dr, jtag_rw_quick, jtag_rw_slow,
  jtag_rw_dr_quick, jtag_rw_dr_slow,
}
use cherry_link.Swd.Pace.{Patient}
use cherry_link.Wire.{Wire}

module _ {W : Type 0} (b : Wire W) where
  shift_bit-eq :
      (delay : Option (W → W)) → Patient b delay → shift_bit_quick b delay ≡ shift_bit_slow b delay
  unfolding shift_bit_quick shift_bit_slow
  shift_bit-eq delay p = fun_ext (λ s. simp (p.waits))

  -- Where neither the delay nor a `__NOP` has an effect on the state, the quick and the slow routine
  -- of a scan, and those of a scan with a part over the SPI, give the same bytes and leave the same
  -- state.
  pub jtag_quick-eq-slow :
      (delay : Option (W → W)) (bitlen dma_bytes bits_tail : ℕ) (tms tdi : Memory) (w : W)
      → Patient b delay
      → (jtag_rw_quick b delay bitlen tms tdi w ≡ jtag_rw_slow b delay bitlen tms tdi w)
        × (jtag_rw_dr_quick b delay dma_bytes bits_tail tms tdi w
            ≡ jtag_rw_dr_slow b delay dma_bytes bits_tail tms tdi w)
  unfolding jtag_rw_quick jtag_rw_slow jtag_rw_dr_quick jtag_rw_dr_slow
  jtag_quick-eq-slow delay bitlen dma_bytes bits_tail tms tdi w p = (
    ap (λ f. shift_all bitlen 0 f tms tdi 0 w) (shift_bit-eq delay p),
    ap (λ f. jtag_rw_dr b f dma_bytes bits_tail tms tdi w) (shift_bit-eq delay p),
  )
