-- ===== src/Tests/Jtag.antt =====
-- The theorems on cmsis-dap/jtag.c at concrete inputs.
use cherry_link.Base.{
  ℕ, ◌≡◌, refl, inr, Bool, true, false, none, some, [], ◌++◌, replicate, arith, Memory, ◌+◌, ◌%◌,
  ◌==◌,
}
use cherry_link.Bits.Lists.{bits}
use cherry_link.Jtag.Access.{dap_jtag_ir, dap_jtag_dr}
use cherry_link.Jtag.Control.{JtagControl}
use cherry_link.Jtag.Pace.{jtag_quick-eq-slow}
use cherry_link.Jtag.Probe.{Probe, probe, resting}
use cherry_link.Jtag.Probe.Ir.{dap_jtag_ir-tap_run}
use cherry_link.Jtag.Probe.Delivered.{Delivered, dap_jtag_dr-Delivered}
use cherry_link.Jtag.Probe.Shifted.{last_or}
use cherry_link.Jtag.Scan.{ir_scan}
use cherry_link.Jtag.Scan.Dr.{dr_levels}
use cherry_link.Jtag.Scan.Ir.{ir_tms, ir_tdi}
use cherry_link.Jtag.Shift.{jtag_rw_quick, jtag_rw_slow, jtag_rw_dr_quick, jtag_rw_dr_slow}
use cherry_link.Jtag.Tap.{tap_run, idle}
use cherry_link.Swd.Control.{slow}
use cherry_link.Swd.Pace.{Patient}
use cherry_link.Wire.{call}

abbrev settings : JtagControl Probe
settings = record {
  idle = 2;
  retry_limit = 3;
  dap_timestamp = 0;
  routines = slow;
  jtag_delay = none;
}

-- A target that answers by ones and zeros in turn.
abbrev turns : ℕ → Bool
turns n = n % 2 == 1

probe-Patient : Patient probe settings.jtag_delay
unfolding probe call
probe-Patient = record { waits = λ w. refl; idles = λ w. refl }

-- A register of four bits between a device with five and one with two.
dap_jtag_ir-tap_run_example :
    (dap_jtag_ir probe 0xa 4 5 2
        (record { control = settings; wire = resting turns [] [] 7 0 false true })
      ≡ some (record {
        control = settings;
        wire =
            resting turns
              (ir_tms 4 5 2)
              (ir_tdi 0xa 4 5 2)
              (7 + (ir_scan 0xa 4 5 2).bitlen)
              0
              (last_or (ir_tms 4 5 2) false)
              (last_or (ir_tdi 0xa 4 5 2) true);
      }))
    × (tap_run idle (ir_tms 4 5 2) (ir_tdi 0xa 4 5 2) ≡ record {
      state = idle;
      into_ir = replicate 5 true ++ (bits 4 0xa ++ replicate 2 true);
      into_dr = [];
    })
dap_jtag_ir-tap_run_example =
    dap_jtag_ir-tap_run settings probe-Patient (inr refl) 0xa 4 5 2 turns [] [] 7 0 false true
      (omega arith) (omega arith) (omega arith) (omega arith)

-- A word for a device between one and two others.
dap_jtag_dr-Delivered_example : Delivered [] [] (dr_levels 0x4 0xdeadbeef 1 2) 3 (
    dap_jtag_dr probe 0x4 0xdeadbeef 1 2
      (record { control = settings; wire = resting turns [] [] 7 0 false true }))
dap_jtag_dr-Delivered_example =
    dap_jtag_dr-Delivered settings 0x4 0xdeadbeef 1 2 turns [] [] 7 0 false true probe-Patient
      (inr refl) (omega arith) (omega arith)

abbrev ramp : Memory
ramp i = i + 1

-- Ten bits, and a scan with two bytes over the SPI and ten bits behind.
jtag_quick-eq-slow_example :
    (jtag_rw_quick probe none 10 ramp ramp (resting turns [] [] 7 0 false true)
      ≡ jtag_rw_slow probe none 10 ramp ramp (resting turns [] [] 7 0 false true))
    × (jtag_rw_dr_quick probe none 2 10 ramp ramp (resting turns [] [] 7 0 false true)
        ≡ jtag_rw_dr_slow probe none 2 10 ramp ramp (resting turns [] [] 7 0 false true))
jtag_quick-eq-slow_example =
    jtag_quick-eq-slow probe none 10 2 10 ramp ramp (resting turns [] [] 7 0 false true)
      probe-Patient
