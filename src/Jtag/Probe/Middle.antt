-- ===== src/Jtag/Probe/Middle.antt =====
-- The scan of cmsis-dap/jtag.c whose middle goes over the SPI, which does not drive TMS.
use native.Mathlib.Nat.{add-zero}
use cherry_link.Base.{
  ℕ, zero, suc, ◌+◌, ◌*◌, ◌≡◌, refl, ap, sym, ◌∙◌, Bool, Option, List, ◌++◌, append_assoc,
  append-nil, replicate, replicate-add, arith, shr,
}
use cherry_link.Bits.Lists.{bits}
use cherry_link.Jtag.Probe.{Probe, probe, resting, act, spi_write}
use cherry_link.Jtag.Probe.Shifted.{last_or, shift_bits-wire}
use cherry_link.Jtag.Probe.Whole.{byte_bits, bytes_and_bits, shift_all-wire}
use cherry_link.Jtag.Scan.{bytes_of_u64}
use cherry_link.Jtag.Shift.{
  shift_bit_slow, shift_bits, shift_all, spi_bytes, jtag_rw_dr, jtag_rw_dr_slow,
}
use cherry_link.Swd.Pace.{Patient}
use cherry_link.Swd.Scope.{number}
use cherry_link.Wire.{exchange, tck_to_app, tck_to_opp, tdi_to_app, tdi_to_opp}

-- The line while the SPI drives the clock and TDI.
abbrev serving : (ℕ → Bool) → List Bool → List Bool → ℕ → ℕ → Bool → Bool → Probe
serving target es fs count held tms tdi =
    probe.act tdi_to_app (probe.act tck_to_app (resting target es fs count held tms tdi))

-- what the SPI holds after some bytes
pub spi_held : ℕ → (ℕ → Bool) → ℕ → ℕ → ℕ
spi_held zero target count held = held
spi_held (suc k) target count held = spi_held k target (count + 8) (number target count 8)

exchange-serving :
    (byte : ℕ) (target : ℕ → Bool) (es fs : List Bool) (count held : ℕ) (tms tdi : Bool)
    → (exchange probe byte (serving target es fs count held tms tdi)).1
      ≡ serving target
          (es ++ replicate 8 tms)
          (fs ++ bits 8 byte)
          (count + 8)
          (number target count 8)
          tms
          tdi
unfolding exchange probe resting act spi_write
exchange-serving byte target es fs count held tms tdi = refl

spi_bytes-wire :
    (k i d : ℕ) (target : ℕ → Bool) (es fs : List Bool) (count held : ℕ) (tms tdi : Bool)
    → (spi_bytes probe k i (bytes_of_u64 d) (serving target es fs count held tms tdi)).1
      ≡ serving target
          (es ++ replicate (8 * k) tms)
          (fs ++ byte_bits k i d)
          (count + 8 * k)
          (spi_held k target count held)
          tms
          tdi
unfolding spi_bytes byte_bits spi_held
spi_bytes-wire zero i d target es fs count held tms tdi = rw (append-nil, append-nil, add-zero) refl
spi_bytes-wire (suc k) i d target es fs count held tms tdi =
    let ys = bits 8 (bytes_of_u64 d i) in
    let eight : count + 8 + 8 * k ≡ count + 8 * suc k = omega arith in
    let more : replicate (8 * suc k) tms ≡ replicate 8 tms ++ replicate (8 * k) tms =
      rw (replicate-add 8 (8 * k) tms) (ap (λ n. replicate n tms) (omega arith)) in
    ap (λ w. (spi_bytes probe k (i + 1) (bytes_of_u64 d) w).1)
      (exchange-serving (bytes_of_u64 d i) target es fs count held tms tdi)
    ∙ spi_bytes-wire k (i + 1) d target (es ++ replicate 8 tms) (fs ++ ys) (count + 8)
        (number target count 8) tms tdi
    ∙ rw
        (
          append_assoc es (replicate 8 tms) (replicate (8 * k) tms),
          append_assoc fs ys (byte_bits k (i + 1) d),
          eight,
          more,
        )
        refl

leave-serving :
    (target : ℕ → Bool) (es fs : List Bool) (count held : ℕ) (tms tdi : Bool)
    → probe.act tdi_to_opp (probe.act tck_to_opp (serving target es fs count held tms tdi))
      ≡ resting target es fs count held tms tdi
unfolding probe resting act
leave-serving target es fs count held tms tdi = refl

-- The first byte, some whole bytes and the bits behind them are the bits of the buffer.
all_bits :
    (k r buf : ℕ)
    → bits 8 (bytes_of_u64 buf 0) ++ (byte_bits k 1 buf ++ bits r (shr buf (8 * (1 + k))))
      ≡ bits (8 * (1 + k) + r) buf
unfolding byte_bits
all_bits k r buf =
    let one : 0 + suc k ≡ 1 + k = omega arith in
    let next : 1 + k ≡ suc k = omega arith in
    let whole : shr buf (8 * 0) ≡ buf = omega arith in
    let pieces = bytes_and_bits (suc k) r 0 buf in
    sym (
      append_assoc (bits 8 (bytes_of_u64 buf 0)) (byte_bits k 1 buf)
        (bits r (shr buf (8 * (1 + k)))))
    ∙ ap (λ n. byte_bits (suc k) 0 buf ++ bits r (shr buf (8 * n))) (sym one)
    ∙ pieces
    ∙ rw (whole, next) refl

module _ (delay : Option (Probe → Probe)) (p : Patient probe delay) where
  -- The first byte, the bytes over the SPI with TMS as it was left, and the tail.
  pub rw_dr-wire :
      (k r a d : ℕ) (target : ℕ → Bool) (es fs : List Bool) (count held : ℕ) (tms tdi : Bool)
      → (jtag_rw_dr_slow probe delay k r
          (bytes_of_u64 a)
          (bytes_of_u64 d)
          (resting target es fs count held tms tdi)).1
        ≡ resting target
            (es
              ++ bits 8 (bytes_of_u64 a 0)
              ++ replicate (8 * k) (last_or (bits 8 (bytes_of_u64 a 0)) tms)
              ++ bits r (shr a (8 * (1 + k))))
            (fs ++ bits 8 (bytes_of_u64 d 0) ++ byte_bits k 1 d ++ bits r (shr d (8 * (1 + k))))
            (count + 8 + 8 * k + r)
            (spi_held k target (count + 8) held)
            (last_or (bits r (shr a (8 * (1 + k)))) (last_or (bits 8 (bytes_of_u64 a 0)) tms))
            (last_or (bits r (shr d (8 * (1 + k)))) (last_or (bits 8 (bytes_of_u64 d 0)) tdi))
  unfolding jtag_rw_dr_slow jtag_rw_dr
  rw_dr-wire k r a d target es fs count held tms tdi =
      let f = shift_bit_slow probe delay in
      let ta = bytes_of_u64 a in
      let td = bytes_of_u64 d in
      let x = bits 8 (ta 0) in
      let y = bits 8 (td 0) in
      let low = last_or x tms in
      let s = shift_bits 8 f (record {
        tms_last = ta 0;
        tdi_last = td 0;
        tdo_last = 0;
        wire = resting target es fs count held tms tdi;
      }) in
      let end = λ (w : Probe).
        (shift_all r (1 + k) f ta td s.tdo_last
          (probe.act tdi_to_opp (probe.act tck_to_opp w))).1 in
      ap (λ w. end (spi_bytes probe k 1 td (probe.act tdi_to_app (probe.act tck_to_app w))).1)
        (shift_bits-wire delay p 8 (ta 0) (td 0) 0 target es fs count held tms tdi)
      ∙ ap end
          (spi_bytes-wire k 1 d target (es ++ x) (fs ++ y) (count + 8) held low (last_or y tdi))
      ∙ ap (λ w. (shift_all r (1 + k) f ta td s.tdo_last w).1)
          (leave-serving target (es ++ x ++ replicate (8 * k) low) (fs ++ y ++ byte_bits k 1 d)
            (count + 8 + 8 * k) (spi_held k target (count + 8) held) low (last_or y tdi))
      ∙ shift_all-wire delay p r (1 + k) a d s.tdo_last target (es ++ x ++ replicate (8 * k) low)
          (fs ++ y ++ byte_bits k 1 d) (count + 8 + 8 * k) (spi_held k target (count + 8) held) low
          (last_or y tdi)

  -- If TMS is to stay, over the bytes that go over the SPI, as the first byte leaves it, and the
  -- delays have no effect on the line, then the slow scan with its middle over the SPI puts all bits
  -- of its two buffers on TMS and TDI, in order and one for each clock, and the port is in charge of
  -- all pins again.
  pub rw_dr-bits :
      (k r a d : ℕ) (target : ℕ → Bool) (es fs : List Bool) (count held : ℕ) (tms tdi : Bool)
      → byte_bits k 1 a ≡ replicate (8 * k) (last_or (bits 8 (bytes_of_u64 a 0)) tms)
      → (jtag_rw_dr_slow probe delay k r
          (bytes_of_u64 a)
          (bytes_of_u64 d)
          (resting target es fs count held tms tdi)).1
        ≡ resting target
            (es ++ bits (8 * (1 + k) + r) a)
            (fs ++ bits (8 * (1 + k) + r) d)
            (count + 8 + 8 * k + r)
            (spi_held k target (count + 8) held)
            (last_or (bits r (shr a (8 * (1 + k)))) (last_or (bits 8 (bytes_of_u64 a 0)) tms))
            (last_or (bits r (shr d (8 * (1 + k)))) (last_or (bits 8 (bytes_of_u64 d 0)) tdi))
  rw_dr-bits k r a d target es fs count held tms tdi low =
      let x = bits 8 (bytes_of_u64 a 0) in
      let y = bits 8 (bytes_of_u64 d 0) in
      let us = bits r (shr a (8 * (1 + k))) in
      let vs = bits r (shr d (8 * (1 + k))) in
      let state = λ (xs ys : List Bool).
        resting target xs ys (count + 8 + 8 * k + r) (spi_held k target (count + 8) held)
          (last_or us (last_or x tms)) (last_or vs (last_or y tdi)) in
      let tms_eq : es ++ x ++ replicate (8 * k) (last_or x tms) ++ us
          ≡ es ++ bits (8 * (1 + k) + r) a =
        rw
          (
            sym low,
            append_assoc (es ++ x) (byte_bits k 1 a) us,
            append_assoc es x (byte_bits k 1 a ++ us),
          )
          (ap (λ (zs : List Bool). es ++ zs) (all_bits k r a)) in
      let tdi_eq : fs ++ y ++ byte_bits k 1 d ++ vs ≡ fs ++ bits (8 * (1 + k) + r) d =
        rw (append_assoc (fs ++ y) (byte_bits k 1 d) vs, append_assoc fs y (byte_bits k 1 d ++ vs))
          (ap (λ (zs : List Bool). fs ++ zs) (all_bits k r d)) in
      rw_dr-wire k r a d target es fs count held tms tdi
      ∙ ap (λ (xs : List Bool). state xs (fs ++ y ++ byte_bits k 1 d ++ vs)) tms_eq
      ∙ ap (state (es ++ bits (8 * (1 + k) + r) a)) tdi_eq
