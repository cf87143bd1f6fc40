-- ===== src/Dap/Blocks.antt =====
-- `dap_swd_transfer_block`, `dap_jtag_transfer_block` and `dap_write_abort` of cmsis-dap/dap_main.c.
use cherry_link.Base.{
  ℕ, zero, suc, ◌+◌, ◌-◌, ◌%◌, ◌^◌, Bool, true, false, ◌&&◌, ◌==◌, leb, if◌then◌else◌, u16, has,
  Memory, read_u16, read_u32,
}
use cherry_link.Dap.Driver.{Driver}
use cherry_link.Dap.Machine.{Machine, advance_req, advance_resp, put, set_ack, set_info}
use cherry_link.Dap.Flow.{Flow, next, stop, ◌>>=◌, state_of}
use cherry_link.Dap.SwdTransfer.{swd_read_response, swd_read_nowhere}
use cherry_link.Dap.JtagTransfer.{request_ir, dr_response, dr_nowhere}
use cherry_link.Dap.Chain.{select_ir}
use cherry_link.Dap.Codes.{
  dap_ok, dap_error, dap_port_swd, dap_port_jtag, dap_jtag_dev_cnt, ap_n_dp, rn_w, transfer_ok,
  read_buffer, dp_abort, jtag_abort, jtag_dpacc,
}

module _ {W : Type 0} where
  -- `if (transfer->transfer_ack != DAP_TRANSFER_OK) return;`
  abbrev pub check_done : Machine W → Flow (Machine W)
  check_done m = if m.transfer_ack == transfer_ok then next m else stop m

  -- `transfer->transfer_cnt++`
  abbrev pub count_one : Machine W → Machine W
  count_one m = record m { transfer_cnt = u16 (m.transfer_cnt + 1) }

  -- The rounds, and whether they all passed, as the flow.
  unfoldable pub all_rounds : (Machine W → Flow (Machine W)) → ℕ → Machine W → Flow (Machine W)
  all_rounds round zero m = next m
  all_rounds round (suc n) m = elim (round m) [
    | next m' ↦ all_rounds round n m'
    | stop m' ↦ stop m'
  ]

-- The request of a round: the last word of an AP block comes from `DP_RDBUFF`.
abbrev pub block_request : ℕ → ℕ → ℕ → ℕ
block_request transfer_num q cnt =
    if (cnt == transfer_num - 1) && has q ap_n_dp then read_buffer else q

module _ {W : Type 0} (d : Driver W) (request : Memory) where
  open d use {swd_write, jtag_dr}

  unfoldable pub swd_block_read : ℕ → ℕ → Machine W → Flow (Machine W)
  unfolding swd_read_response
  swd_block_read transfer_num q m = do
    m1 ← check_done (swd_read_response d (block_request transfer_num q m.transfer_cnt) m)
    next (count_one (advance_resp 4 m1))

  unfoldable pub swd_block_write : ℕ → Machine W → Flow (Machine W)
  swd_block_write q m =
      let r = swd_write q (read_u32 request m.req_ptr) m.world in
      do m1 ← check_done (advance_req 4 (set_ack r.ack r.world m)); next (count_one m1)

  unfoldable pub dap_swd_transfer_block : Machine W → Machine W
  dap_swd_transfer_block m =
      let transfer_num = read_u16 request (m.req_ptr + 1) in
      let m1 = advance_resp 3 (advance_req 3 m) in
      if transfer_num == 0
      then m1
      else (let q = request m1.req_ptr in
          let m2 = record (advance_req 1 m1) { transfer_cnt = 0; transfer_ack = 0 } in
          state_of (
            if has q rn_w
            then (do
              m3 ← if has q ap_n_dp then check_done (swd_read_nowhere d q m2) else next m2
              all_rounds (swd_block_read transfer_num q) transfer_num m3)
            else (do
              m3 ← all_rounds (swd_block_write q) transfer_num m2
              next (swd_read_nowhere d read_buffer m3))))

  -- The last word comes from `DP_RDBUFF`, with the DP bank selected for it.
  unfoldable pub jtag_block_read : ℕ → ℕ → Machine W → Flow (Machine W)
  unfolding dr_response
  jtag_block_read transfer_num q m =
      let last = m.transfer_cnt == transfer_num - 1 in
      let m1 = if last && has q ap_n_dp then select_ir d jtag_dpacc m else m in
      do
        m2 ← check_done (dr_response d (if last then read_buffer else q) m1)
        next (count_one (advance_resp 4 m2))

  unfoldable pub jtag_block_write : ℕ → Machine W → Flow (Machine W)
  unfolding dr_nowhere
  jtag_block_write q m = do
    m1 ← check_done (advance_req 4 (dr_nowhere d q (read_u32 request m.req_ptr) m))
    next (count_one m1)

  -- The Boolean is false for the return of -1.
  unfoldable pub dap_jtag_transfer_block : Machine W → Bool × Machine W
  dap_jtag_transfer_block m =
      let index = request m.req_ptr in
      let m1 = set_info (record (m.info) { index = index }) m in
      if leb m1.info.count index
      then (false, m1)
      else (let transfer_num = read_u16 request (m1.req_ptr + 1) in
          let m2 = record (advance_resp 3 (advance_req 3 m1)) {
            transfer_cnt = 0;
            transfer_ack = 0;
          } in
          if transfer_num == 0
          then (true, m2)
          else (let q = request m2.req_ptr in
              let m3 = select_ir d (request_ir q) (advance_req 1 m2) in
              (
                true,
                state_of (
                    if has q rn_w
                    then (do
                      m4 ← check_done (dr_nowhere d q 0 m3)
                      all_rounds (jtag_block_read transfer_num q) transfer_num m4)
                    else (do
                      m4 ← all_rounds (jtag_block_write q) transfer_num m3
                      let m5 = if has q ap_n_dp then select_ir d jtag_dpacc m4 else m4
                      check_done (dr_nowhere d read_buffer (read_u32 request m5.req_ptr) m5))),
              )))

  unfoldable pub dap_write_abort : Machine W → Machine W
  dap_write_abort m =
      if m.info.port == dap_port_swd
      then (let r = swd_write dp_abort (read_u32 request (m.req_ptr + 1)) m.world in
          put dap_ok (advance_req 5 (record m { world = r.world })))
      else if m.info.port == dap_port_jtag
      then (let index = request m.req_ptr in
          if leb dap_jtag_dev_cnt index
          then put dap_error (advance_req 5 m)
          else (let m1 = set_info (record (m.info) { index = index }) (advance_req 1 m) in
              let m2 = select_ir d jtag_abort m1 in
              let r =
                jtag_dr 0 (read_u32 request m2.req_ptr) index
                  ((m2.info.count + 2 ^ 32 - index - 1) % 2 ^ 32) m2.world in
              let m3 = advance_req 4 (record m2 { world = r.world }) in
              if r.ack == transfer_ok then put dap_ok m3 else put dap_error m3))
      else put dap_error (advance_req 5 m)
