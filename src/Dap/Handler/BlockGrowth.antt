-- ===== src/Dap/Handler/BlockGrowth.antt =====
-- By how much the transfer commands move the response index.
use cherry_link.Base.{ℕ, zero, suc, ◌+◌, ◌*◌, arith, read_u16, Memory}
use cherry_link.Dap.Driver.{Driver}
use cherry_link.Dap.Machine.{Machine, advance_req, advance_resp}
use cherry_link.Dap.Flow.{Flow, next, stop, state_of}
use cherry_link.Dap.Chain.{select_ir}
use cherry_link.Dap.SwdTransfer.{swd_read_nowhere}
use cherry_link.Dap.JtagTransfer.{request_ir, dr_nowhere}
use cherry_link.Dap.Blocks.{
  swd_block_read, swd_block_write, all_rounds, dap_swd_transfer_block, jtag_block_read,
  jtag_block_write, dap_jtag_transfer_block,
}
use cherry_link.Dap.Handler.Growth.{Grows}

module _ {W : Type 0} where
  all_rounds_grow :
      (round : Machine W → Flow (Machine W))
      → ((m : Machine W) → Grows 4 m (state_of (round m)))
      → (n : ℕ) (m : Machine W) → Grows (4 * n) m (state_of (all_rounds round n m))
  unfolding all_rounds
  all_rounds_grow round one zero m = ground arith
  all_rounds_grow round one (suc n) m =
      split (round m) (one m) (λ m1. all_rounds_grow round one n m1)
    where
      split :
          (f : Flow (Machine W))
          → Grows 4 m (state_of f)
          → ((m1 : Machine W) → Grows (4 * n) m1 (state_of (all_rounds round n m1)))
          → Grows
              (4 * suc n)
              m
              (state_of (elim f [ next m1 ↦ all_rounds round n m1 | stop m1 ↦ stop m1 ]))
      split (next m1) f g =
          let g1 = g m1 in ground (arith, f.forward, f.bounded, g1.forward, g1.bounded)
      split (stop m1) f g = ground (arith, f.forward, f.bounded)

module _ {W : Type 0} (d : Driver W) (request : Memory) where
  swd_block_read-Grows :
      (n q : ℕ) (m : Machine W) → Grows 4 m (state_of (swd_block_read d request n q m))
  unfolding swd_block_read
  swd_block_read-Grows n q m = ground arith

  swd_block_write-Grows :
      (q : ℕ) (m : Machine W) → Grows 4 m (state_of (swd_block_write d request q m))
  unfolding swd_block_write
  swd_block_write-Grows q m = ground arith

  pub swd_block-Grows :
      (m : Machine W)
      → Grows (3 + 4 * read_u16 request (m.req_ptr + 1)) m (dap_swd_transfer_block d request m)
  unfolding dap_swd_transfer_block swd_read_nowhere
  swd_block-Grows m =
      let n = read_u16 request (m.req_ptr + 1) in
      let m1 = advance_resp 3 (advance_req 3 m) in
      let q = request m1.req_ptr in
      let m2 = record (advance_req 1 m1) { transfer_cnt = 0; transfer_ack = 0 } in
      let reads = all_rounds_grow (swd_block_read d request n q) (swd_block_read-Grows n q) n in
      let f = reads (swd_read_nowhere d q m2) in
      let f' = reads m2 in
      let g = all_rounds_grow (swd_block_write d request q) (swd_block_write-Grows q) n m2 in
      ground (arith, f.forward, f.bounded, f'.forward, f'.bounded, g.forward, g.bounded)

  jtag_block_read-Grows :
      (n q : ℕ) (m : Machine W) → Grows 4 m (state_of (jtag_block_read d request n q m))
  unfolding jtag_block_read
  jtag_block_read-Grows n q m = ground arith

  jtag_block_write-Grows :
      (q : ℕ) (m : Machine W) → Grows 4 m (state_of (jtag_block_write d request q m))
  unfolding jtag_block_write
  jtag_block_write-Grows q m = ground arith

  pub jtag_block-Grows :
      (m : Machine W)
      → Grows (3 + 4 * read_u16 request (m.req_ptr + 1)) m (dap_jtag_transfer_block d request m).1
  unfolding dap_jtag_transfer_block dr_nowhere
  jtag_block-Grows m =
      let n = read_u16 request (m.req_ptr + 1) in
      let m1 = record m { info = record (m.info) { index = request m.req_ptr } } in
      let m2 = record (advance_resp 3 (advance_req 3 m1)) { transfer_cnt = 0; transfer_ack = 0 } in
      let q = request m2.req_ptr in
      let m3 = select_ir d (request_ir q) (advance_req 1 m2) in
      let f =
        all_rounds_grow (jtag_block_read d request n q) (jtag_block_read-Grows n q) n
          (dr_nowhere d q 0 m3) in
      let g = all_rounds_grow (jtag_block_write d request q) (jtag_block_write-Grows q) n m3 in
      ground (arith, f.forward, f.bounded, g.forward, g.bounded)
