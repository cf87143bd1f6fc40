-- ===== src/Dap/Handler/Advance.antt =====
-- A round of the loop of `dap_request_handler` moves the response index on.
use cherry_link.Base.{
  ℕ, suc, ◌+◌, ◌-◌, ◌*◌, ◌≤◌, ◌<◌, ◌≡◌, refl, Bool, true, false, ◌&&◌, Option, none, some, arith,
  leb, ◌==◌, if◌then◌else◌, Bool-cases, inl, inr, u16, read_u16, Memory, IsBytes,
}
use cherry_link.Dap.Driver.{Driver}
use cherry_link.Dap.Machine.{Machine, advance_req, put}
use cherry_link.Dap.Info.{length-get_dap_info}
use cherry_link.Dap.Skip.{dap_dummy_transfer_block}
use cherry_link.Dap.SwdTransfer.Count.{dap_swd_transfer-Frame}
use cherry_link.Dap.JtagTransfer.{dap_jtag_transfer}
use cherry_link.Dap.JtagTransfer.Count.{dap_jtag_transfer-Frame}
use cherry_link.Dap.Vendor.{dap_vendor_request_handler}
use cherry_link.Dap.Handler.{
  Next, more, transfer_command, transfer_block_command, info_command, vendor_command, plain_command,
  or_invalid, handler_round,
}
use cherry_link.Dap.Handler.Growth.{
  Grows, host_status-Grows, connect-Grows, disconnect-Grows, delay-Grows, reset_target-Grows,
  swj_clock-Grows, swd_configure-Grows, transfer_configure-Grows, swj_sequence-Grows,
  swd_sequence-Grows, jtag_sequence-Grows, swj_pin-Grows, jtag_configure-Grows, jtag_idcode-Grows,
  write_abort-Grows, dummy_transfer-Grows,
}
use cherry_link.Dap.Handler.BlockGrowth.{swd_block-Grows, jtag_block-Grows}

-- Wherever the byte of a block command may stand in the packet, the count behind it is at most
-- 16000 words, so that the answer stays below the 64 KiB that the response index counts.
abbrev pub BlocksFit : Memory → Type 0
BlocksFit request = (p : ℕ) → request p ≡ 6 → read_u16 request (u16 (p + 1) + 1) ≤ 16000

-- What a command that is not refused has of the response index.
record Kept {W : Type 0} (p : ℕ) (o : Option (Machine W)) : Type 0 where
  holds : (m' : Machine W) → o ≡ some m' → p ≤ m'.resp_ptr

-- What a round after which the loop goes on has of the response index.
pub record Advances {W : Type 0} (p : ℕ) (x : Next W) : Type 0 where
  pub moves : (left : ℕ) (m' : Machine W) → x ≡ more left m' → p < m'.resp_ptr

module _ {W : Type 0} where
  Kept-some :
      {k : ℕ} {m m' : Machine W} → m.resp_ptr + k < 65536 → Grows k m m' → Kept m.resp_ptr (some m')
  Kept-some room g = record { holds = λ m'' e. ground (arith, g.forward) }

  Kept-if :
      (p : ℕ) (b : Bool) (x y : Option (Machine W))
      → (b ≡ true → Kept p x)
      → Kept p y
      → Kept p (if b then x else y)
  Kept-if p true x y s t = s refl
  Kept-if p false x y s t = t

  or_invalid-Advances :
      {p : ℕ} (left : ℕ) (m : Machine W) {o : Option (Machine W)}
      → p < m.resp_ptr
      → Kept m.resp_ptr o
      → Advances p (or_invalid left m o)
  or_invalid-Advances left m {o = none} h k = record { moves = λ left' m' e. ground arith }
  or_invalid-Advances left m {o = some m1} h k = record {
    moves = λ left' m' e. ground (arith, k.holds m1 refl);
  }

  Advances-if :
      (p : ℕ) (b : Bool) (x y : Next W)
      → Advances p x
      → Advances p y
      → Advances p (if b then x else y)
  Advances-if p true x y s t = s
  Advances-if p false x y s t = t

  Kept-none : (p : ℕ) → Kept {W = W} p none
  Kept-none p = record { holds = λ m' e. cc }

module _ {W : Type 0} (d : Driver W) (request : Memory) where
  unknown_device :
      (m : Machine W) → m.info.count ≤ request m.req_ptr → (dap_jtag_transfer d request m).0 ≡ false
  unfolding dap_jtag_transfer
  unknown_device m h = ground arith

  transfer-Grows : (m : Machine W) → IsBytes request → Grows 4086 m (transfer_command d request m)
  unfolding transfer_command
  transfer-Grows m b =
      let m1 = record m { info = record (m.info) { do_abort = false } } in
      let swd = dap_swd_transfer-Frame d request m1 b in
      let r = dap_jtag_transfer d request m1 in
      let dummy =
        dummy_transfer-Grows d request
          (record (r.1) { req_ptr = m.req_ptr; resp_ptr = m.resp_ptr }) in
      let dummy' = dummy_transfer-Grows d request m1 in
      elim (Bool-cases (leb m.info.count (request m.req_ptr))) [
        | inl e ↦
            let u = unknown_device m1 (ground arith) in
            ground (
              arith,
              swd.forward,
              swd.bounded,
              dummy.forward,
              dummy.bounded,
              dummy'.forward,
              dummy'.bounded,
              b (m.req_ptr + 1),
            )
        | inr e ↦
            let f = dap_jtag_transfer-Frame d request m1 b (ground arith) in
            ground (
              arith,
              swd.forward,
              swd.bounded,
              f.1.forward,
              f.1.bounded,
              dummy'.forward,
              dummy'.bounded,
              b (m.req_ptr + 1),
              b (u16 (m.req_ptr + 1)),
            )
      ]

  transfer_block-Grows :
      (m : Machine W)
      → Grows (4 + 4 * read_u16 request (m.req_ptr + 1)) m (transfer_block_command d request m)
  unfolding transfer_block_command dap_dummy_transfer_block
  transfer_block-Grows m =
      let f = swd_block-Grows d request m in
      let g = jtag_block-Grows d request m in
      ground (arith, f.forward, f.bounded, g.forward, g.bounded)

  -- A command of the switch never moves the response index back.
  plain_command-Kept :
      (fuel cmd_id : ℕ) (m : Machine W)
      → IsBytes request
      → (cmd_id ≡ 6 → read_u16 request (m.req_ptr + 1) ≤ 16000)
      → m.resp_ptr ≤ 513
      → Kept m.resp_ptr (plain_command d request fuel cmd_id m)
  unfolding plain_command
  plain_command-Kept fuel cmd_id m b fits room =
      let p = m.resp_ptr in
      Kept-if p _ _ _ (λ _. Kept-some (omega arith) (host_status-Grows d request m))
        (Kept-if p _ _ _ (λ _. Kept-some (omega arith) (connect-Grows d request m))
          (Kept-if p _ _ _ (λ _. Kept-some (omega arith) (disconnect-Grows d request m))
            (Kept-if p _ _ _ (λ _. Kept-some (omega arith) (delay-Grows d request m))
              (Kept-if p _ _ _ (λ _. Kept-some (omega arith) (reset_target-Grows d request m))
                (Kept-if p _ _ _ (λ _. Kept-some (omega arith) (swj_pin-Grows d request fuel m))
                  (Kept-if p _ _ _ (λ _. Kept-some (omega arith) (swj_clock-Grows d request m))
                    (Kept-if p _ _ _ (λ _. Kept-some (omega arith) (swj_sequence-Grows d request m))
                      (Kept-if p _ _ _
                        (λ _. Kept-some (omega arith) (swd_configure-Grows d request m))
                        (Kept-if p _ _ _
                          (λ _. Kept-some (omega arith) (swd_sequence-Grows d request m b))
                          (Kept-if p _ _ _
                            (λ _. Kept-some (omega arith) (jtag_sequence-Grows d request m b))
                            (Kept-if p _ _ _
                              (λ _. Kept-some (omega arith) (jtag_configure-Grows d request m))
                              (Kept-if p _ _ _
                                (λ _. Kept-some (omega arith) (jtag_idcode-Grows d request m))
                                (Kept-if p _ _ _
                                  (λ _.
                                    Kept-some (omega arith) (transfer_configure-Grows d request m))
                                  (Kept-if p _ _ _
                                    (λ _. Kept-some (omega arith) (transfer-Grows m b))
                                    (Kept-if p (cmd_id == 6) _ _
                                      (λ e.
                                        Kept-some (ground (arith, fits)) (transfer_block-Grows m))
                                      (Kept-if p _ _ _
                                        (λ _.
                                          Kept-some (omega arith) (write_abort-Grows d request m))
                                        (Kept-none p)))))))))))))))))

  info_command-Advances :
      (p pkt_size left : ℕ) (m : Machine W)
      → m.resp_ptr ≡ suc p
      → p < 512
      → Advances p (info_command d request pkt_size left m)
  unfolding info_command
  info_command-Advances p pkt_size left m h room =
      ground (arith, length-get_dap_info (request m.req_ptr))

  vendor_command-Advances :
      (p cmd_id left : ℕ) (m : Machine W)
      → m.resp_ptr ≡ suc p
      → p < 512
      → Advances p (vendor_command d request cmd_id left m)
  unfolding vendor_command dap_vendor_request_handler
  vendor_command-Advances p cmd_id left m h room = ground arith

  -- A round after which the loop goes on has answered at least one byte.
  pub handler_round-Advances :
      (pkt_size fuel left : ℕ) (m : Machine W)
      → IsBytes request
      → BlocksFit request
      → m.resp_ptr < 512
      → Advances m.resp_ptr (handler_round d request pkt_size fuel left m)
  unfolding handler_round
  handler_round-Advances pkt_size fuel left m b fits room =
      let p = m.resp_ptr in
      let cmd_id = request m.req_ptr in
      let m1 = put cmd_id (advance_req 1 m) in
      Advances-if p (leb 0x80 cmd_id && leb cmd_id 0x9f) _ _
        (vendor_command-Advances p cmd_id (left - 1) m1 (omega arith) room)
        (Advances-if p (cmd_id == 0x7f) _ _ (ground arith) (
          Advances-if p (cmd_id == 0x00) _ _
            (info_command-Advances p pkt_size (left - 1) m1 (omega arith) room)
            (or_invalid-Advances (left - 1) m1 (omega arith)
              (plain_command-Kept fuel cmd_id m1 b (λ e. fits m.req_ptr e) (omega arith)))))
