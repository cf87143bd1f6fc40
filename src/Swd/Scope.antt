-- ===== src/Swd/Scope.antt =====
-- A line to look at: what cmsis-dap/swd.c does to the pins, read as the levels of the data line at
-- each rising edge of the clock, and a target that answers by a given sequence of levels.
pub mod Words
pub mod Steps
pub mod Written
pub mod Answered
pub mod RoundTrip
use cherry_link.Bits.Lists.{bits}
use cherry_link.Base.{
  ℕ, zero, suc, ◌+◌, ◌*◌, ◌/◌, ◌%◌, ◌≡◌, refl, Bool, true, false, if◌then◌else◌, Option, none, some,
  List, [], ◌∷◌, ◌++◌, map, replicate, ◌==◌,
}
use cherry_link.Swd.Read.{bit}
use cherry_link.Wire.{
  Action, Wire, tck_to_app, tck_to_opp, tck_to_high, tck_to_low, mo_to_app, mo_to_opp, mo_to_ain,
  tms_to_out, tms_to_in, tms_to_high, tms_to_low, tdi_to_app, tdi_to_opp, tdi_to_high, tdi_to_low,
  nop,
}

-- What drives the output pin for the data line: the SPI, the port's register, or nothing.
pub data Mode : Type 0 where
  app opp ain : Mode

pub record Scope : Type 0 where
  pub spi_clock : Bool
  pub clock : Bool
  pub mode : Mode
  pub out : Bool
  pub level : Bool
  pub held : ℕ
  -- the level that the probe put on the line at each rising edge, if it drove the line
  pub edges : List (Option Bool)
  -- how many edges there were; `target` gives the level from the target before each
  pub count : ℕ
  pub target : ℕ → Bool

-- The number that `n` levels of the target from `k` on spell, the lowest bit first.
pub number : (ℕ → Bool) → ℕ → ℕ → ℕ
number target k zero = 0
number target k (suc n) = bit (target k) + 2 * number target (k + 1) n

-- what the port's register puts on the line
pub driven : Scope → Option Bool
driven s = if s.out then elim (s.mode) [ opp ↦ some s.level | _ ↦ none ] else none

-- what the SPI puts on the line with a byte
pub shifted : ℕ → Scope → List (Option Bool)
unfolding bits
shifted byte s =
    if s.out
    then elim (s.mode) [ app ↦ map some (bits 8 byte) | _ ↦ replicate 8 none ]
    else replicate 8 none

pub act : Action → Scope → Scope
unfolding driven
act tck_to_app s = record s { spi_clock = true }
act tck_to_opp s = record s { spi_clock = false }
act tck_to_high s =
    if s.clock
    then s
    else record s { clock = true; edges = s.edges ++ (driven s ∷ []); count = s.count + 1 }
act tck_to_low s = record s { clock = false }
act mo_to_app s = record s { mode = app }
act mo_to_opp s = record s { mode = opp }
act mo_to_ain s = record s { mode = ain }
act tms_to_out s = record s { out = true }
act tms_to_in s = record s { out = false }
act tms_to_high s = record s { level = true }
act tms_to_low s = record s { level = false }
act _ s = s

pub spi_write : ℕ → Scope → Scope
unfolding shifted number
spi_write byte s =
    if s.spi_clock
    then record s {
      edges = s.edges ++ shifted byte s;
      count = s.count + 8;
      held = number s.target s.count 8;
    }
    else s

-- The SPI is done when it is asked, and the routines of set-up have no effect here.
unfoldable pub scope : Wire Scope
unfolding act spi_write
scope = record {
  act = act;
  tms_read = λ s. s.target s.count;
  tdo_read = λ s. false;
  spi_write = spi_write;
  spi_busy = λ s. (false, s);
  spi_read = λ s. (s.held, s);
  spi_polls = λ s. 0;
  get_cur_tick = λ s. s.count;
  gpio_init = λ s. s;
  io_reconfig = λ s. s;
  trans_init = λ s. s;
  gpio_deinit = λ s. s;
  trans_deinit = λ s. s;
  trans_interface_init = λ khz s. (none, s);
}

-- The line between two transfers: released, the clock high.
unfoldable pub released : (ℕ → Bool) → List (Option Bool) → ℕ → ℕ → Bool → Scope
released target edges count held level = record {
  spi_clock = false;
  clock = true;
  mode = ain;
  out = false;
  level = level;
  held = held;
  edges = edges;
  count = count;
  target = target;
}
