-- ===== src/Dap/Commands.antt =====
-- The short commands of cmsis-dap/dap_main.c, `dap_host_status` to `dap_swd_configure`, with
-- `dap_transfer_configure`. `request` is the memory that the request packet lies in.
use Prim.Native.Nat.{max}
use cherry_link.Base.{
  ℕ, ◌+◌, ◌/◌, bit_and, ◌==◌, if◌then◌else◌, u16, has, Memory, read_u16, read_u32,
}
use cherry_link.Dap.Driver.{Driver, Light}
use cherry_link.Dap.Machine.{Machine, advance_req, put, touch, set_info}
use cherry_link.Dap.Port.{apply_swd_config, apply_jtag_config, port_init, port_deinit}
use cherry_link.Dap.Codes.{
  dap_ok, dap_error, dap_port_disabled, dap_port_swd, dap_port_jtag, dap_default_port,
  dap_default_swj_clock,
}

module _ {W : Type 0} (d : Driver W) (request : Memory) where
  open d use {set_light, us_delay}

  unfoldable pub dap_host_status : Machine W → Machine W
  dap_host_status m =
      let status = request m.req_ptr in
      let m1 = advance_req 1 m in
      let on = has (request m1.req_ptr) 1 in
      if status == 0
      then put dap_ok (touch (set_light Light.connected on) (advance_req 1 m1))
      else if status == 1
      then put dap_ok (touch (set_light Light.running on) (advance_req 1 m1))
      else put dap_error m1

  -- The port asked for, with 0 read as the default one, and any other as disabled.
  unfoldable pub chosen_port : ℕ → ℕ
  chosen_port asked =
      let port = if asked == 0 then dap_default_port else asked in
      if port == dap_port_swd
      then dap_port_swd
      else if port == dap_port_jtag
      then dap_port_jtag
      else dap_port_disabled

  unfoldable pub dap_connect : Machine W → Machine W
  unfolding chosen_port
  dap_connect m =
      let port = chosen_port (request m.req_ptr) in
      let m1 = advance_req 1 m in
      let m2 =
        if port == dap_port_disabled
        then m1
        else port_init d port (port_deinit d m1.info.port m1) in
      put port (set_info (record (m2.info) { port = port }) m2)

  unfoldable pub dap_disconnect : Machine W → Machine W
  dap_disconnect m =
      let m1 = port_deinit d m.info.port m in
      put dap_ok (set_info (record (m1.info) { port = dap_port_disabled }) m1)

  unfoldable pub dap_delay : Machine W → Machine W
  dap_delay m = put dap_ok (touch (us_delay (read_u16 request m.req_ptr)) (advance_req 2 m))

  unfoldable pub dap_reset_target : Machine W → Machine W
  dap_reset_target m = put 0 (put dap_ok m)

  unfoldable pub dap_swj_clock : Machine W → Machine W
  dap_swj_clock m =
      let asked = read_u32 request m.req_ptr / 1000 in
      let speed = if asked == 0 then dap_default_swj_clock / 1000 else asked in
      let m1 = advance_req 4 m in
      let m2 = set_info (record (m1.info) { speed_khz = u16 speed }) m1 in
      if m2.info.port == dap_port_swd
      then put dap_ok (apply_swd_config d m2)
      else if m2.info.port == dap_port_jtag
      then put dap_ok (apply_jtag_config d m2)
      else put dap_error m2

  unfoldable pub dap_swd_configure : Machine W → Machine W
  dap_swd_configure m =
      let config = request m.req_ptr in
      let m1 = advance_req 1 m in
      let m2 =
        set_info
          (record (m1.info) {
            turnaround = bit_and config 3 + 1;
            data_phase = if has config 4 then 1 else 0;
          })
          m1 in
      put dap_ok (apply_swd_config d m2)

  unfoldable pub dap_transfer_configure : Machine W → Machine W
  dap_transfer_configure m =
      let m1 =
        set_info
          (record (m.info) {
            idle_cycles = request m.req_ptr;
            retry_count = max (read_u16 request (m.req_ptr + 1)) 255;
            match_retry = read_u16 request (m.req_ptr + 3);
          })
          m in
      let m2 = advance_req 5 m1 in
      if m2.info.port == dap_port_swd
      then put dap_ok (apply_swd_config d m2)
      else if m2.info.port == dap_port_jtag
      then put dap_ok (apply_jtag_config d m2)
      else put dap_error m2
