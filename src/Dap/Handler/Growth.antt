-- ===== src/Dap/Handler/Growth.antt =====
-- By how much each command of the packet moves the response index.
use Prim.Native.Nat.{min}
use cherry_link.Bits.{bit_and-le}
use cherry_link.Base.{
  ℕ, zero, suc, ◌+◌, ◌-◌, ◌*◌, ◌^◌, ◌≤◌, ◌<◌, ◌≡◌, refl, arith, ltb, if◌then◌else◌, get_or, u32,
  read_u32, Memory, IsBytes,
}
use cherry_link.Dap.Driver.{Driver}
use cherry_link.Dap.Machine.{Machine, advance_req, touch}
use cherry_link.Dap.Port.{port_init, port_deinit, port_io_reconfig}
use cherry_link.Dap.Commands.{
  dap_host_status, dap_connect, dap_disconnect, dap_delay, dap_reset_target, dap_swj_clock,
  dap_swd_configure, dap_transfer_configure,
}
use cherry_link.Dap.Sequences.{
  run_raw, rounds, swd_sequence_round, jtag_sequence_round, dap_swj_sequence, dap_swd_sequence,
  dap_jtag_sequence, sequence_start,
}
use cherry_link.Dap.Codes.{dap_port_swd, dap_port_jtag}
use cherry_link.Dap.Pins.{drive_pins, poll_pins, dap_swj_pin}
use cherry_link.Dap.Chain.{
  read_length, read_lengths, fill_one, fill_after, dap_jtag_configure, dap_jtag_idcode,
}
use cherry_link.Dap.Skip.{skip_request, skip_requests, dap_dummy_transfer}
use cherry_link.Dap.Blocks.{dap_write_abort}

-- The response index moves forward by at most `k`, if there is room for that below 2 ^ 16.
pub record Grows {W : Type 0} (k : ℕ) (m m' : Machine W) : Type 0 where
  pub forward : m.resp_ptr + k < 65536 → m.resp_ptr ≤ m'.resp_ptr
  pub bounded : m.resp_ptr + k < 65536 → m'.resp_ptr ≤ m.resp_ptr + k

module _ {W : Type 0} (d : Driver W) (request : Memory) where
  pub host_status-Grows : (m : Machine W) → Grows 1 m (dap_host_status d request m)
  unfolding dap_host_status
  host_status-Grows m = ground arith

  pub connect-Grows : (m : Machine W) → Grows 1 m (dap_connect d request m)
  unfolding dap_connect port_init port_deinit
  connect-Grows m = ground arith

  pub disconnect-Grows : (m : Machine W) → Grows 1 m (dap_disconnect d request m)
  unfolding dap_disconnect port_deinit
  disconnect-Grows m = ground arith

  pub delay-Grows : (m : Machine W) → Grows 1 m (dap_delay d request m)
  unfolding dap_delay
  delay-Grows m = ground arith

  pub reset_target-Grows : (m : Machine W) → Grows 2 m (dap_reset_target d request m)
  unfolding dap_reset_target
  reset_target-Grows m = ground arith

  pub swj_clock-Grows : (m : Machine W) → Grows 1 m (dap_swj_clock d request m)
  unfolding dap_swj_clock
  swj_clock-Grows m = ground arith

  pub swd_configure-Grows : (m : Machine W) → Grows 1 m (dap_swd_configure d request m)
  unfolding dap_swd_configure
  swd_configure-Grows m = ground arith

  pub transfer_configure-Grows : (m : Machine W) → Grows 1 m (dap_transfer_configure d request m)
  unfolding dap_transfer_configure
  transfer_configure-Grows m = ground arith

  pub swj_sequence-Grows : (m : Machine W) → Grows 1 m (dap_swj_sequence d request m)
  unfolding dap_swj_sequence port_io_reconfig run_raw
  swj_sequence-Grows m = ground arith

  poll_pins-resp_ptr :
      (fuel select value tick delay : ℕ) (m : Machine W)
      → (poll_pins d fuel select value tick delay m).resp_ptr ≡ m.resp_ptr
  unfolding poll_pins
  poll_pins-resp_ptr zero select value tick delay m = refl
  poll_pins-resp_ptr (suc fuel) select value tick delay m =
      let w = (d.wait_us_noblock tick delay m.world).1 in
      ground (arith, poll_pins-resp_ptr fuel select value tick delay (record m { world = w }))

  swd_sequence_round-Grows : (m : Machine W) → Grows 8 m (swd_sequence_round d request m)
  unfolding swd_sequence_round
  swd_sequence_round-Grows m = ground (arith, bit_and-le (request m.req_ptr) 0x3f)

  jtag_sequence_round-Grows : (m : Machine W) → Grows 8 m (jtag_sequence_round d request m)
  unfolding jtag_sequence_round run_raw
  jtag_sequence_round-Grows m = ground (arith, bit_and-le (request m.req_ptr) 0x3f)

module _ {W : Type 0} where
  pub rounds_grow :
      (body : Machine W → Machine W)
      → ((m : Machine W) → Grows 8 m (body m))
      → (n : ℕ) (m : Machine W) → Grows (8 * n) m (rounds body n m)
  unfolding rounds
  rounds_grow body one zero m = ground arith
  rounds_grow body one (suc n) m =
      let f = one m in
      let g = rounds_grow body one n (body m) in
      ground (arith, f.forward, f.bounded, g.forward, g.bounded)

module _ {W : Type 0} (d : Driver W) (request : Memory) where
  pub swd_sequence-Grows :
      (m : Machine W) → IsBytes request → Grows 2041 m (dap_swd_sequence d request m)
  unfolding dap_swd_sequence
  swd_sequence-Grows m b =
      let m1 = sequence_start d request dap_port_swd m in
      let n = request m.req_ptr in
      let f =
        rounds_grow (swd_sequence_round d request) (swd_sequence_round-Grows d request) n m1 in
      ground (arith, f.forward, f.bounded, b m.req_ptr)

  pub jtag_sequence-Grows :
      (m : Machine W) → IsBytes request → Grows 2041 m (dap_jtag_sequence d request m)
  unfolding dap_jtag_sequence
  jtag_sequence-Grows m b =
      let m1 = sequence_start d request dap_port_jtag m in
      let n = request m.req_ptr in
      let f =
        rounds_grow (jtag_sequence_round d request) (jtag_sequence_round-Grows d request) n m1 in
      ground (arith, f.forward, f.bounded, b m.req_ptr)

  pub swj_pin-Grows : (fuel : ℕ) (m : Machine W) → Grows 1 m (dap_swj_pin d request fuel m)
  unfolding dap_swj_pin
  swj_pin-Grows fuel m =
      let value = request m.req_ptr in
      let select = request (m.req_ptr + 1) in
      let asked = read_u32 request (m.req_ptr + 2) in
      let m1 = touch (drive_pins d select value) (advance_req 6 m) in
      let delay = if ltb 3000000 asked then 3000000 else asked in
      ground
        (arith, poll_pins-resp_ptr d request fuel select value (d.get_cur_tick m1.world) delay m1)

module _ {W : Type 0} where
  fill_after-resp_ptr :
      (left n bits : ℕ) (m : Machine W) → (fill_after left n bits m).resp_ptr ≡ m.resp_ptr
  unfolding fill_after fill_one
  fill_after-resp_ptr zero n bits m = refl
  fill_after-resp_ptr (suc left) n bits m =
      let bits' = u32 (bits + 2 ^ 32 - get_or m.info.ir_length n 0) in
      fill_after-resp_ptr left (n + 1) bits' (fill_one n bits' m)

module _ {W : Type 0} (d : Driver W) (request : Memory) where
  read_lengths-resp_ptr :
      (left n bits : ℕ) (m : Machine W)
      → (read_lengths request left n bits m).1.resp_ptr ≡ m.resp_ptr
  unfolding read_lengths read_length
  read_lengths-resp_ptr zero n bits m = refl
  read_lengths-resp_ptr (suc left) n bits m =
      read_lengths-resp_ptr left (n + 1) (u32 (bits + request m.req_ptr))
        (read_length request n bits m)

  pub jtag_configure-Grows : (m : Machine W) → Grows 1 m (dap_jtag_configure request m)
  unfolding dap_jtag_configure
  jtag_configure-Grows m =
      let n = request m.req_ptr in
      let m1 = advance_req 1 m in
      let m2 = record m1 { info = record (m1.info) { count = min n 4 } } in
      let r = read_lengths request n 0 0 m2 in
      ground (arith, read_lengths-resp_ptr n 0 0 m2, fill_after-resp_ptr n 0 r.0 r.1)

  pub jtag_idcode-Grows : (m : Machine W) → Grows 5 m (dap_jtag_idcode d request m)
  unfolding dap_jtag_idcode run_raw
  jtag_idcode-Grows m = ground arith

  pub write_abort-Grows : (m : Machine W) → Grows 1 m (dap_write_abort d request m)
  unfolding dap_write_abort
  write_abort-Grows m = ground arith

  skip_requests-resp_ptr :
      (n : ℕ) (m : Machine W) → (skip_requests request n m).resp_ptr ≡ m.resp_ptr
  unfolding skip_requests
  skip_requests-resp_ptr zero m = refl
  skip_requests-resp_ptr (suc n) m =
      ground (arith, skip_requests-resp_ptr n (skip_request request m))

  pub dummy_transfer-Grows : (m : Machine W) → Grows 2 m (dap_dummy_transfer request m)
  unfolding dap_dummy_transfer
  dummy_transfer-Grows m =
      ground (arith, skip_requests-resp_ptr (request (m.req_ptr + 1)) (advance_req 2 m))
