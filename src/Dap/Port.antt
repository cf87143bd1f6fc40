-- ===== src/Dap/Port.antt =====
-- The port of cmsis-dap/dap_main.c: `port_init`, `port_deinit`, `port_io_reconfig`, `dap_init`.
use cherry_link.Base.{ℕ, ◌/◌, Bool, true, false, ◌==◌, if◌then◌else◌}
use cherry_link.Dap.Driver.{Driver}
use cherry_link.Dap.Machine.{Machine, touch, set_info}
use cherry_link.Dap.Codes.{dap_port_swd, dap_port_jtag, dap_default_swj_clock}

-- `dap_do_abort`, which another thread calls
abbrev pub dap_do_abort : {W : Type 0} → Machine W → Machine W
dap_do_abort m = set_info (record (m.info) { do_abort = true }) m

module _ {W : Type 0} (d : Driver W) where
  open d use {swd_init, swd_deinit, swd_io_reconfig, swd_config}
  open d use {jtag_init, jtag_deinit, jtag_io_reconfig, jtag_config, gpio_init, timestamp_init}

  -- the calls of `dap_swd_config` and `dap_jtag_config`, which take their arguments from `dap_info`
  abbrev pub apply_swd_config : Machine W → Machine W
  apply_swd_config m =
      touch (swd_config i.speed_khz i.retry_count i.idle_cycles i.turnaround i.data_phase) m
    where
      open m use {info as i}

  abbrev pub apply_jtag_config : Machine W → Machine W
  apply_jtag_config m = touch (jtag_config i.speed_khz i.retry_count i.idle_cycles) m
    where
      open m use {info as i}

  abbrev pub need_reconfig : Bool → Machine W → Machine W
  need_reconfig b m = set_info (record i { port_io_need_reconfig = b }) m
    where
      open m use {info as i}

  unfoldable pub port_init : ℕ → Machine W → Machine W
  port_init port m = need_reconfig false (
      if port == dap_port_swd
      then (let m' = touch swd_init m in if m.info.speed_khz == 0 then m' else apply_swd_config m')
      else if port == dap_port_jtag
      then (let m' = touch jtag_init m in
          if m.info.speed_khz == 0 then m' else apply_jtag_config m')
      else m)

  unfoldable pub port_deinit : ℕ → Machine W → Machine W
  port_deinit port m = need_reconfig true (
      if port == dap_port_swd
      then touch swd_deinit m
      else if port == dap_port_jtag
      then touch jtag_deinit m
      else m)

  unfoldable pub port_io_reconfig : ℕ → Machine W → Machine W
  port_io_reconfig port m = need_reconfig false (
      if port == dap_port_swd
      then touch swd_io_reconfig m
      else if port == dap_port_jtag
      then touch jtag_io_reconfig m
      else m)

  -- `dap_init`; `port` is `DAP_PORT_SWD` when it tests it, so its other branch is never taken.
  -- The match buffers and the arrays of the JTAG chain keep what they hold.
  unfoldable pub dap_init : Machine W → Machine W
  unfolding port_init port_deinit
  dap_init m =
      let m1 = touch gpio_init (touch timestamp_init m) in
      let m2 =
        set_info
          (record (m.info) {
            port = dap_port_swd;
            do_abort = false;
            port_io_need_reconfig = true;
            speed_khz = dap_default_swj_clock / 1000;
            idle_cycles = 0;
            retry_count = 100;
            match_retry = 0;
            match_mask = 0;
            turnaround = 1;
            data_phase = 0;
            count = 0;
            index = 0;
          })
          m1 in
      port_init dap_port_swd (port_deinit dap_port_jtag m2)
