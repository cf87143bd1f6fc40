-- ===== src/Swd/Control.antt =====
-- The parameters of cmsis-dap/swd.c, `swd_control`, and what sets them.
use cherry_link.Base.{ℕ, Bool, false, if◌then◌else◌, Option, none, leb, u8, u16, ◌*◌, has}
use cherry_link.Wire.{Wire, ◌▷◌}

-- The four function pointers of `swd_control_t` are set together, to the quick routines or to the
-- slow ones, or hold null after `dap_swd_init`.
pub data Routines : Type 0 where
  unset quick slow : Routines

pub record Control (W : Type 0) : Type 0 where
  pub idle : ℕ
  pub trn : ℕ
  pub data_force : Bool
  pub retry_limit : ℕ
  pub dap_timestamp : ℕ
  pub routines : Routines
  pub swd_delay : Option (W → W)

-- `swd_control` and the state of the chip and the target.
pub record Line (W : Type 0) : Type 0 where
  pub control : Control W
  pub wire : W

module _ {W : Type 0} where
  -- `rt_memset(&swd_control, 0, ...)`
  unfoldable pub cleared : Control W
  cleared = record {
    idle = 0;
    trn = 0;
    data_force = false;
    retry_limit = 0;
    dap_timestamp = 0;
    routines = unset;
    swd_delay = none;
  }

  module _ (b : Wire W) where
    -- `dap_swd_init`
    unfoldable pub dap_swd_init : Line W → Line W
    unfolding cleared
    dap_swd_init l = record {
      control = cleared;
      wire = l.wire ▷ b.gpio_init ▷ b.io_reconfig ▷ b.trans_init;
    }

    -- `dap_swd_deinit`
    unfoldable pub dap_swd_deinit : Line W → Line W
    dap_swd_deinit l = record l { wire = l.wire ▷ b.gpio_deinit ▷ b.trans_deinit }

    -- `dap_swd_config`: the speed and the retries are `uint16_t`, the others `uint8_t`
    unfoldable pub dap_swd_config : ℕ → ℕ → ℕ → ℕ → Bool → Line W → Line W
    dap_swd_config khz retry idle trn data_force l =
        let (delay, wire') = b.trans_interface_init (u16 khz) l.wire in
        record {
          control = record (l.control) {
            idle = if leb (u8 idle) (32 * 6) then u8 idle else 32 * 6;
            trn = if leb (u8 trn) 14 then u8 trn else 14;
            data_force = data_force;
            retry_limit = u16 retry;
            swd_delay = delay;
            routines = if leb 6000 (u16 khz) then quick else slow;
          };
          wire = wire';
        }

    -- `if (request & DAP_TRANSFER_TIMESTAMP) swd_control.dap_timestamp = dap_get_cur_tick();`
    unfoldable pub stamp : ℕ → Line W → Line W
    stamp request l =
        if has request 128
        then record l { control = record (l.control) { dap_timestamp = b.get_cur_tick l.wire } }
        else l

  -- `swd_get_timestamp`
  unfoldable pub swd_get_timestamp : Line W → ℕ
  swd_get_timestamp l = l.control.dap_timestamp
