-- ===== src/Jtag/Control.antt =====
-- The parameters of cmsis-dap/jtag.c, `jtag_control`, and what sets them.
use cherry_link.Base.{ℕ, Option, none, leb, u8, u16, if◌then◌else◌, has}
use cherry_link.Swd.Control.{Routines, unset, quick, slow}
use cherry_link.Wire.{Wire, ◌▷◌}

-- The two function pointers are set together; see the `Routines` of the other line driver.
pub record JtagControl (W : Type 0) : Type 0 where
  pub idle : ℕ
  pub retry_limit : ℕ
  pub dap_timestamp : ℕ
  pub routines : Routines
  pub jtag_delay : Option (W → W)

-- `jtag_control` and the state of the chip and the target.
pub record Chain (W : Type 0) : Type 0 where
  pub control : JtagControl W
  pub wire : W

module _ {W : Type 0} (b : Wire W) where
  -- `dap_jtag_init`
  unfoldable pub dap_jtag_init : Chain W → Chain W
  dap_jtag_init l = record {
    control = record {
      idle = 0;
      retry_limit = 0;
      dap_timestamp = 0;
      routines = unset;
      jtag_delay = none;
    };
    wire = l.wire ▷ b.gpio_init ▷ b.io_reconfig ▷ b.trans_init;
  }

  -- `dap_jtag_deinit`
  unfoldable pub dap_jtag_deinit : Chain W → Chain W
  dap_jtag_deinit l = record l { wire = l.wire ▷ b.gpio_deinit ▷ b.trans_deinit }

  -- `dap_jtag_config`: the speed and the retries are `uint16_t`, the idle cycles `uint8_t`
  unfoldable pub dap_jtag_config : ℕ → ℕ → ℕ → Chain W → Chain W
  dap_jtag_config khz retry idle l =
      let (delay, wire') = b.trans_interface_init (u16 khz) l.wire in
      record {
        control = record (l.control) {
          idle = u8 idle;
          retry_limit = u16 retry;
          jtag_delay = delay;
          routines = if leb 3000 (u16 khz) then quick else slow;
        };
        wire = wire';
      }

  -- `if (request & DAP_TRANSFER_TIMESTAMP) jtag_control.dap_timestamp = dap_get_cur_tick();`
  unfoldable pub jtag_stamp : ℕ → Chain W → Chain W
  jtag_stamp request l =
      if has request 128
      then record l { control = record (l.control) { dap_timestamp = b.get_cur_tick l.wire } }
      else l

-- `jtag_get_timestamp`
unfoldable pub jtag_get_timestamp : {W : Type 0} → Chain W → ℕ
jtag_get_timestamp l = l.control.dap_timestamp
