-- ===== src/Jtag/Probe/Ir.antt =====
-- `dap_jtag_ir` of cmsis-dap/jtag.c on the line.
use cherry_link.Base.{
  ℕ, ◌+◌, ◌<◌, ◌≤◌, ◌≡◌, refl, ap, ◌∙◌, ◌⊎◌, inl, inr, Bool, true, some, List, [], ◌++◌, replicate,
  arith,
}
use cherry_link.Bits.Lists.{bits}
use cherry_link.Jtag.Access.{dap_jtag_raw, dap_jtag_ir}
use cherry_link.Jtag.Control.{JtagControl}
use cherry_link.Jtag.Pace.{jtag_quick-eq-slow}
use cherry_link.Jtag.Probe.{Probe, probe, resting}
use cherry_link.Jtag.Probe.Shifted.{last_or}
use cherry_link.Jtag.Probe.Whole.{jtag_rw_slow-wire}
use cherry_link.Jtag.Scan.{ir_scan, ir_defined, bytes_of_u64}
use cherry_link.Jtag.Scan.Ir.{ir_tms, ir_tdi, ir_scan-Holds}
use cherry_link.Jtag.Shift.{jtag_rw_quick, jtag_rw_slow}
use cherry_link.Jtag.Tap.{tap_run, idle, bits_held, ir-tap_run}
use cherry_link.Swd.Control.{quick, slow}
use cherry_link.Swd.Pace.{Patient}

ir_defined-intro :
    (lr_length ir_before ir_after : ℕ)
    → 0 < lr_length
    → lr_length ≤ 32
    → ir_before + lr_length < 29
    → 4 + ir_before + lr_length + ir_after + 2 ≤ 64
    → ir_defined lr_length ir_before ir_after ≡ true
unfolding ir_defined
ir_defined-intro lr_length ir_before ir_after h1 h2 h3 h4 = ground arith

module _ (c : JtagControl Probe) (p : Patient probe c.jtag_delay)
    (chosen : (c.routines ≡ quick) ⊎ (c.routines ≡ slow)) where
  raw-wire :
      (n a d : ℕ) (target : ℕ → Bool) (es fs : List Bool) (count held : ℕ) (tms tdi : Bool)
      → (tdo : List ℕ) × (dap_jtag_raw probe n
            (bytes_of_u64 a)
            (bytes_of_u64 d)
            (record { control = c; wire = resting target es fs count held tms tdi })
          ≡ some (
            tdo,
            record {
              control = c;
              wire =
                  resting target
                    (es ++ bits n a)
                    (fs ++ bits n d)
                    (count + n)
                    held
                    (last_or (bits n a) tms)
                    (last_or (bits n d) tdi);
            },
          ))
  unfolding dap_jtag_raw
  raw-wire n a d target es fs count held tms tdi =
      let w = resting target es fs count held tms tdi in
      let ta = bytes_of_u64 a in
      let td = bytes_of_u64 d in
      let same = (jtag_quick-eq-slow probe c.jtag_delay n 0 0 ta td w p).0 in
      let sent = jtag_rw_slow-wire c.jtag_delay p n a d target es fs count held tms tdi in
      elim chosen [
        | inl e ↦ (
          (jtag_rw_quick probe c.jtag_delay n ta td w).0,
          simp e (
              ap
                (λ w'. some (
                  (jtag_rw_quick probe c.jtag_delay n ta td w).0,
                  record { control = c; wire = w' },
                ))
                (ap (λ r. r.1) same ∙ sent)),
        )
        | inr e ↦ (
          (jtag_rw_slow probe c.jtag_delay n ta td w).0,
          simp e (
              ap
                (λ w'. some (
                  (jtag_rw_slow probe c.jtag_delay n ta td w).0,
                  record { control = c; wire = w' },
                ))
                sent),
        )
      ]

  -- For a register of 1 to 32 bits, with the devices before it less than 29 bits together, and a
  -- scan of at most 64 clocks, with delays that have no effect on the line, after `dap_jtag_config`:
  -- `dap_jtag_ir` returns and adds one level to TMS and one to TDI for each clock. From the idle
  -- state these levels shift into the instruction registers ones for the devices before, the register
  -- with its lowest bit first, and ones for the devices after, nothing goes into a data register, and
  -- the state is idle again.
  pub dap_jtag_ir-tap_run :
      (ir lr_length ir_before ir_after : ℕ) (target : ℕ → Bool) (es fs : List Bool) (count held : ℕ)
      (tms tdi : Bool)
      → 0 < lr_length
      → lr_length ≤ 32
      → ir_before + lr_length < 29
      → 4 + ir_before + lr_length + ir_after + 2 ≤ 64
      → (dap_jtag_ir probe ir lr_length ir_before ir_after
            (record { control = c; wire = resting target es fs count held tms tdi })
          ≡ some (record {
            control = c;
            wire =
                resting target
                  (es ++ ir_tms lr_length ir_before ir_after)
                  (fs ++ ir_tdi ir lr_length ir_before ir_after)
                  (count + (ir_scan ir lr_length ir_before ir_after).bitlen)
                  held
                  (last_or (ir_tms lr_length ir_before ir_after) tms)
                  (last_or (ir_tdi ir lr_length ir_before ir_after) tdi);
          }))
        × (tap_run idle
              (ir_tms lr_length ir_before ir_after)
              (ir_tdi ir lr_length ir_before ir_after)
            ≡ record {
              state = idle;
              into_ir = replicate ir_before true ++ (bits lr_length ir ++ replicate ir_after true);
              into_dr = [];
            })
  unfolding dap_jtag_ir
  dap_jtag_ir-tap_run ir lr_length ir_before ir_after target es fs count held tms tdi h1 h2 h3 h4 =
      let s = ir_scan ir lr_length ir_before ir_after in
      let h = ir_scan-Holds ir lr_length ir_before ir_after h1 h4 in
      let t1 : bits s.bitlen s.tms ≡ ir_tms lr_length ir_before ir_after =
        bits_held s.bitlen s.tms _ h.tms_bits h.tms_length in
      let t2 : bits s.bitlen s.tdi ≡ ir_tdi ir lr_length ir_before ir_after =
        bits_held s.bitlen s.tdi _ h.tdi_bits h.tdi_length in
      let (tdo, sent) = raw-wire s.bitlen s.tms s.tdi target es fs count held tms tdi in
      (
        rw (ir_defined-intro lr_length ir_before ir_after h1 h2 h3 h4, sent, t1, t2) refl,
        ir-tap_run ir lr_length ir_before ir_after h1,
      )
