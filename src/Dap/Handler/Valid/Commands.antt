-- ===== src/Dap/Handler/Valid/Commands.antt =====
-- Every command keeps the settings valid.
use cherry_link.Bits.{bit_and-le}
use cherry_link.Base.{ℕ, zero, suc, ◌+◌, arith, Memory}
use cherry_link.Dap.Driver.{Driver}
use cherry_link.Dap.Machine.{Machine, advance_req}
use cherry_link.Dap.Port.{port_init, port_deinit, port_io_reconfig}
use cherry_link.Dap.Commands.{
  dap_host_status, dap_connect, dap_disconnect, dap_delay, dap_reset_target, dap_swj_clock,
  dap_swd_configure, dap_transfer_configure,
}
use cherry_link.Dap.Sequences.{run_raw, dap_swj_sequence}
use cherry_link.Dap.Chain.{dap_jtag_idcode}
use cherry_link.Dap.Skip.{skip_request, skip_requests, dap_dummy_transfer, dap_dummy_transfer_block}
use cherry_link.Dap.Blocks.{dap_write_abort}
use cherry_link.Dap.Handler.Valid.{Keeps, Keeps-refl, Keeps-trans}

module _ {W : Type 0} (d : Driver W) (request : Memory) where
  pub host_status-Keeps : (m : Machine W) → Keeps m (dap_host_status d request m)
  unfolding dap_host_status
  host_status-Keeps m = ground arith

  pub connect-Keeps : (m : Machine W) → Keeps m (dap_connect d request m)
  unfolding dap_connect port_init port_deinit
  connect-Keeps m = ground arith

  pub disconnect-Keeps : (m : Machine W) → Keeps m (dap_disconnect d request m)
  unfolding dap_disconnect port_deinit
  disconnect-Keeps m = ground arith

  pub delay-Keeps : (m : Machine W) → Keeps m (dap_delay d request m)
  unfolding dap_delay
  delay-Keeps m = ground arith

  pub reset_target-Keeps : (m : Machine W) → Keeps m (dap_reset_target d request m)
  unfolding dap_reset_target
  reset_target-Keeps m = ground arith

  pub swj_clock-Keeps : (m : Machine W) → Keeps m (dap_swj_clock d request m)
  unfolding dap_swj_clock
  swj_clock-Keeps m = ground arith

  pub swd_configure-Keeps : (m : Machine W) → Keeps m (dap_swd_configure d request m)
  unfolding dap_swd_configure
  swd_configure-Keeps m = ground (arith, bit_and-le (request m.req_ptr) 3)

  pub transfer_configure-Keeps : (m : Machine W) → Keeps m (dap_transfer_configure d request m)
  unfolding dap_transfer_configure
  transfer_configure-Keeps m = ground arith

  pub swj_sequence-Keeps : (m : Machine W) → Keeps m (dap_swj_sequence d request m)
  unfolding dap_swj_sequence port_io_reconfig run_raw
  swj_sequence-Keeps m = ground arith

  pub jtag_idcode-Keeps : (m : Machine W) → Keeps m (dap_jtag_idcode d request m)
  unfolding dap_jtag_idcode run_raw
  jtag_idcode-Keeps m = ground arith

  pub write_abort-Keeps : (m : Machine W) → Keeps m (dap_write_abort d request m)
  unfolding dap_write_abort
  write_abort-Keeps m = ground arith

  skip_request-Keeps : (m : Machine W) → Keeps m (skip_request request m)
  unfolding skip_request
  skip_request-Keeps m = ground arith

  skip_requests-Keeps : (n : ℕ) (m : Machine W) → Keeps m (skip_requests request n m)
  unfolding skip_requests
  skip_requests-Keeps zero m = Keeps-refl m
  skip_requests-Keeps (suc n) m =
      Keeps-trans (skip_request-Keeps m) (skip_requests-Keeps n (skip_request request m))

  pub dummy_transfer-Keeps : (m : Machine W) → Keeps m (dap_dummy_transfer request m)
  unfolding dap_dummy_transfer
  dummy_transfer-Keeps m =
      let k = skip_requests-Keeps (request (m.req_ptr + 1)) (advance_req 2 m) in
      record { valid = k.valid; undefined = k.undefined; polled = k.polled }

  pub dummy_transfer_block-Keeps : (m : Machine W) → Keeps m (dap_dummy_transfer_block request m)
  unfolding dap_dummy_transfer_block
  dummy_transfer_block-Keeps m = ground arith
