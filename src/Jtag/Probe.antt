-- ===== src/Jtag/Probe.antt =====
-- A line to look at: what cmsis-dap/jtag.c does to the pins, read as the levels of TMS and TDI at
-- each rising edge of the clock, and devices that answer on TDO by a given sequence of levels.
pub mod Shifted
pub mod Whole
pub mod Ir
pub mod Middle
pub mod Dr
pub mod Rounds
pub mod Delivered
use cherry_link.Bits.Lists.{bits}
use cherry_link.Base.{
  ℕ, ◌+◌, ◌-◌, ◌≡◌, Bool, true, false, if◌then◌else◌, Option, none, List, [], ◌∷◌, ◌++◌, replicate,
}
use cherry_link.Swd.Scope.{number}
use cherry_link.Wire.{
  Action, Wire, tck_to_app, tck_to_opp, tck_to_high, tck_to_low, tms_to_high, tms_to_low,
  tdi_to_app, tdi_to_opp, tdi_to_high, tdi_to_low,
}

pub record Probe : Type 0 where
  pub spi_clock : Bool
  pub spi_tdi : Bool
  pub clock : Bool
  pub tms : Bool
  pub tdi : Bool
  pub held : ℕ
  pub tms_edges : List Bool
  pub tdi_edges : List Bool
  pub count : ℕ
  pub target : ℕ → Bool

unfoldable pub act : Action → Probe → Probe
act tck_to_app s = record s { spi_clock = true }
act tck_to_opp s = record s { spi_clock = false }
act tdi_to_app s = record s { spi_tdi = true }
act tdi_to_opp s = record s { spi_tdi = false }
act tck_to_high s = if s.clock then s else record s {
  clock = true;
  tms_edges = s.tms_edges ++ (s.tms ∷ []);
  tdi_edges = s.tdi_edges ++ (s.tdi ∷ []);
  count = s.count + 1;
}
act tck_to_low s = record s { clock = false }
act tms_to_high s = record s { tms = true }
act tms_to_low s = record s { tms = false }
act tdi_to_high s = record s { tdi = true }
act tdi_to_low s = record s { tdi = false }
act _ s = s

unfoldable pub spi_write : ℕ → Probe → Probe
spi_write byte s =
    if s.spi_clock
    then record s {
      tms_edges = s.tms_edges ++ replicate 8 s.tms;
      tdi_edges = s.tdi_edges ++ (if s.spi_tdi then bits 8 byte else replicate 8 s.tdi);
      count = s.count + 8;
      held = number s.target s.count 8;
    }
    else s

-- The level on TDO holds from the falling edge of the clock to the next one.
unfoldable pub probe : Wire Probe
unfolding act spi_write
probe = record {
  act = act;
  tms_read = λ s. false;
  tdo_read = λ s. s.target (s.count - 1);
  spi_write = spi_write;
  spi_busy = λ s. (false, s);
  spi_read = λ s. (s.held, s);
  spi_polls = λ s. 0;
  get_cur_tick = λ s. s.count;
  gpio_init = λ s. s;
  io_reconfig = λ s. s;
  trans_init = λ s. s;
  gpio_deinit = λ s. s;
  trans_deinit = λ s. s;
  trans_interface_init = λ khz s. (none, s);
}

-- The line between two clocks, the port in charge of all pins.
unfoldable pub resting : (ℕ → Bool) → List Bool → List Bool → ℕ → ℕ → Bool → Bool → Probe
resting target tms_edges tdi_edges count held tms tdi = record {
  spi_clock = false;
  spi_tdi = false;
  clock = true;
  tms = tms;
  tdi = tdi;
  held = held;
  tms_edges = tms_edges;
  tdi_edges = tdi_edges;
  count = count;
  target = target;
}
