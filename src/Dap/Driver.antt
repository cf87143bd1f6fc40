-- ===== src/Dap/Driver.antt =====
-- What cmsis-dap/dap_main.c calls outside itself: the SWD and JTAG line drivers, the pins, the
-- lights, the clock and the backup register, and what the USB thread may do meanwhile.
-- `W` is the state behind these calls.
use cherry_link.Base.{ℕ, Bool, Option, List, Memory}

-- What a read of a register gives: its acknowledge, and the word stored through the pointer, if
-- the line driver came to store one.
pub record Reply (W : Type 0) : Type 0 where
  pub ack : ℕ
  pub word : Option ℕ
  pub world : W

pub data Pin : Type 0 where
  swclk_tck swdio_tms tdi tdo n_trst n_reset : Pin

pub data Light : Type 0 where
  connected running : Light

-- The modes that a command gives to a pin.
pub data Mode : Type 0 where
  output_push_pull input_floating : Mode

pub record Driver (W : Type 0) : Type 0 where
  pub swd_init : W → W
  pub swd_deinit : W → W
  pub swd_io_reconfig : W → W
  -- speed, retries, idle cycles, turnaround, data phase
  pub swd_config : ℕ → ℕ → ℕ → ℕ → ℕ → W → W
  pub swd_read : ℕ → W → Reply W
  pub swd_write : ℕ → ℕ → W → Reply W
  pub swd_seqout : Memory → ℕ → W → W
  pub swd_seqin : ℕ → W → List ℕ × W
  pub swd_get_timestamp : W → ℕ
  pub jtag_init : W → W
  pub jtag_deinit : W → W
  pub jtag_io_reconfig : W → W
  -- speed, retries, idle cycles
  pub jtag_config : ℕ → ℕ → ℕ → W → W
  -- the count of bits, then the buffers for tms, tdi and tdo; gives tdo anew
  pub jtag_raw : ℕ → ℕ → ℕ → ℕ → W → ℕ × W
  pub jtag_ir : ℕ → ℕ → ℕ → ℕ → W → W
  -- request, data, devices before and after
  pub jtag_dr : ℕ → ℕ → ℕ → ℕ → W → Reply W
  pub jtag_get_timestamp : W → ℕ
  pub set_mode : Pin → Mode → W → W
  pub set_pin : Pin → Bool → W → W
  pub get_pin : Pin → W → ℕ
  pub set_light : Light → Bool → W → W
  pub gpio_init : W → W
  pub timestamp_init : W → W
  pub us_delay : ℕ → W → W
  pub get_cur_tick : W → ℕ
  -- `dap_wait_us_noblock`, and what else goes on during a round of the polling loop
  pub wait_us_noblock : ℕ → ℕ → W → Bool × W
  pub set_backup_data : ℕ → W → W
  pub get_backup_data : W → ℕ
  -- whether `dap_do_abort` was called since the command began
  pub abort_requested : W → Bool
