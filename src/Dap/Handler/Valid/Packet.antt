-- ===== src/Dap/Handler/Valid/Packet.antt =====
-- A packet keeps the settings valid.
use cherry_link.Base.{
  ℕ, zero, suc, ◌-◌, ◌≡◌, refl, Bool, true, false, not, ◌&&◌, Option, none, some, arith, leb, ltb,
  ◌==◌, if◌then◌else◌, Memory, IsBytes,
}
use cherry_link.Dap.Driver.{Driver}
use cherry_link.Dap.Machine.{Machine, advance_req, put}
use cherry_link.Dap.Pins.Polling.{PollsEnd}
use cherry_link.Dap.JtagTransfer.{dap_jtag_transfer}
use cherry_link.Dap.Blocks.{dap_jtag_transfer_block}
use cherry_link.Dap.Vendor.{dap_vendor_request_handler}
use cherry_link.Dap.Handler.{
  Next, more, invalid, restarted, transfer_command, transfer_block_command, info_command,
  vendor_command, plain_command, or_invalid, mark_invalid, handler_round, handler_loop,
}
use cherry_link.Dap.Handler.Valid.{Keeps, Keeps-refl, Keeps-trans}
use cherry_link.Dap.Handler.Valid.Commands.{
  host_status-Keeps, connect-Keeps, disconnect-Keeps, delay-Keeps, reset_target-Keeps,
  swj_clock-Keeps, swd_configure-Keeps, transfer_configure-Keeps, swj_sequence-Keeps,
  jtag_idcode-Keeps, write_abort-Keeps, dummy_transfer-Keeps, dummy_transfer_block-Keeps,
}
use cherry_link.Dap.Handler.Valid.Loops.{
  swd_sequence-Keeps, jtag_sequence-Keeps, swj_pin-Keeps, jtag_configure-Keeps, swd_transfer-Keeps,
  jtag_transfer-Keeps, swd_transfer_block-Keeps, jtag_transfer_block-Keeps,
}

module _ {W : Type 0} where
  machine_of : Next W → Machine W
  machine_of (more left m) = m
  machine_of (invalid m) = m
  machine_of (restarted m) = m

  -- what a command of the switch keeps, if there is one
  record Carries (m : Machine W) (o : Option (Machine W)) : Type 0 where
    keeps : (left : ℕ) → Keeps m (machine_of (or_invalid left m o))

  Carries-some : {m m' : Machine W} → Keeps m m' → Carries m (some m')
  unfolding machine_of
  Carries-some k = record { keeps = λ left. k }

  Carries-if :
      {m : Machine W} (b : Bool) {x y : Option (Machine W)}
      → Carries m x
      → Carries m y
      → Carries m (if b then x else y)
  Carries-if true s t = s
  Carries-if false s t = t

  Carries-none : (m : Machine W) → Carries m none
  unfolding machine_of
  Carries-none m = record { keeps = λ left. Keeps-refl m }

  -- what a round of the loop keeps
  record Leads (m : Machine W) (x : Next W) : Type 0 where
    keeps : Keeps m (machine_of x)

  Leads-if :
      {m : Machine W} (b : Bool) {x y : Next W}
      → Leads m x
      → Leads m y
      → Leads m (if b then x else y)
  Leads-if true s t = s
  Leads-if false s t = t

  Leads-trans : {m m1 : Machine W} {x : Next W} → Keeps m m1 → Leads m1 x → Leads m x
  Leads-trans k l = record { keeps = Keeps-trans k l.keeps }

  same_machine : (m m' : Machine W) → some m ≡ some m' → Keeps m m'
  same_machine m m' e = record {
    valid = λ v. ground arith;
    undefined = λ u. ground arith;
    polled = ground arith;
  }

  rest_or_stop :
      (c : Bool) (o : Option (Machine W)) (m m' : Machine W)
      → (o ≡ some m' → Keeps m m')
      → (if c then o else some m) ≡ some m'
      → Keeps m m'
  rest_or_stop true o m m' ih e = ih e
  rest_or_stop false o m m' ih e = same_machine m m' e

module _ {W : Type 0} (d : Driver W) (request : Memory) where
  transfer-Keeps : (m : Machine W) → IsBytes request → Keeps m (transfer_command d request m)
  unfolding transfer_command
  transfer-Keeps m b =
      let m1 = record m { info = record (m.info) { do_abort = false } } in
      let swd = swd_transfer-Keeps d request m1 b in
      let jtag = jtag_transfer-Keeps d request m1 b in
      let r = dap_jtag_transfer d request m1 in
      let dummy =
        dummy_transfer-Keeps d request
          (record (r.1) { req_ptr = m.req_ptr; resp_ptr = m.resp_ptr }) in
      let dummy' = dummy_transfer-Keeps d request m1 in
      ground (
        arith, swd.valid, jtag.valid, dummy.valid, dummy'.valid, swd.undefined, jtag.undefined,
        dummy.undefined, dummy'.undefined,
      )

  transfer_block-Keeps : (m : Machine W) → Keeps m (transfer_block_command d request m)
  unfolding transfer_block_command
  transfer_block-Keeps m =
      let f = swd_transfer_block-Keeps d request m in
      let g = jtag_transfer_block-Keeps d request m in
      let r = dap_jtag_transfer_block d request m in
      let dummy = dummy_transfer_block-Keeps d request r.1 in
      let dummy' = dummy_transfer_block-Keeps d request m in
      ground (
        arith, f.valid, g.valid, dummy.valid, dummy'.valid, f.undefined, g.undefined,
        dummy.undefined, dummy'.undefined,
      )

  plain_command-Carries :
      (fuel c : ℕ) (m : Machine W)
      → PollsEnd d fuel
      → IsBytes request
      → Carries m (plain_command d request fuel c m)
  unfolding plain_command
  plain_command-Carries fuel c m ends b =
      Carries-if (c == 0x01) (Carries-some (host_status-Keeps d request m)) (
        Carries-if (c == 0x02) (Carries-some (connect-Keeps d request m)) (
          Carries-if (c == 0x03) (Carries-some (disconnect-Keeps d request m)) (
            Carries-if (c == 0x09) (Carries-some (delay-Keeps d request m)) (
              Carries-if (c == 0x0a) (Carries-some (reset_target-Keeps d request m)) (
                Carries-if (c == 0x10) (Carries-some (swj_pin-Keeps d request fuel m ends)) (
                  Carries-if (c == 0x11) (Carries-some (swj_clock-Keeps d request m)) (
                    Carries-if (c == 0x12) (Carries-some (swj_sequence-Keeps d request m)) (
                      Carries-if (c == 0x13) (Carries-some (swd_configure-Keeps d request m)) (
                        Carries-if (c == 0x1d) (Carries-some (swd_sequence-Keeps d request m)) (
                          Carries-if (c == 0x14) (Carries-some (jtag_sequence-Keeps d request m)) (
                            Carries-if (c == 0x15) (Carries-some (jtag_configure-Keeps d request m))
                              (Carries-if (c == 0x16) (Carries-some (jtag_idcode-Keeps d request m))
                                (Carries-if (c == 0x04)
                                  (Carries-some (transfer_configure-Keeps d request m))
                                  (Carries-if (c == 0x05) (Carries-some (transfer-Keeps m b)) (
                                    Carries-if (c == 0x06) (Carries-some (transfer_block-Keeps m)) (
                                      Carries-if (c == 0x08)
                                        (Carries-some (write_abort-Keeps d request m))
                                        (Carries-none m)))))))))))))))))

  info_command-Leads :
      (pkt_size left : ℕ) (m : Machine W) → Leads m (info_command d request pkt_size left m)
  unfolding info_command machine_of
  info_command-Leads pkt_size left m = ground arith

  vendor_command-Leads : (c left : ℕ) (m : Machine W) → Leads m (vendor_command d request c left m)
  unfolding vendor_command dap_vendor_request_handler machine_of
  vendor_command-Leads c left m = ground arith

  handler_round-Leads :
      (pkt_size fuel left : ℕ) (m : Machine W)
      → PollsEnd d fuel
      → IsBytes request
      → Leads m (handler_round d request pkt_size fuel left m)
  unfolding handler_round machine_of
  handler_round-Leads pkt_size fuel left m ends b =
      let c = request m.req_ptr in
      let m1 = put c (advance_req 1 m) in
      let start : Keeps m m1 = record { valid = λ v. v; undefined = λ u. u; polled = refl } in
      Leads-if (leb 0x80 c && leb c 0x9f) (Leads-trans start (vendor_command-Leads c (left - 1) m1))
        (Leads-if (c == 0x7f)
          (record { keeps = record { valid = λ v. v; undefined = λ u. u; polled = refl } })
          (Leads-if (c == 0x00) (Leads-trans start (info_command-Leads pkt_size (left - 1) m1)) (
            Leads-trans start
              (record { keeps = (plain_command-Carries fuel c m1 ends b).keeps (left - 1) }))))

  pub handler_loop-Keeps :
      (n pkt_size fuel left : ℕ) (m m' : Machine W)
      → PollsEnd d fuel
      → IsBytes request
      → handler_loop d request n pkt_size fuel left m ≡ some m'
      → Keeps m m'
  unfolding handler_loop machine_of
  handler_loop-Keeps zero pkt_size fuel left m m' ends b e = absurd (ground arith)
  handler_loop-Keeps (suc n) pkt_size fuel left m m' ends b e =
      split (handler_round d request pkt_size fuel left m)
        (handler_round-Leads pkt_size fuel left m ends b)
        (λ left' m1. handler_loop-Keeps n pkt_size fuel left' m1 m' ends b) e
    where
      split :
          (x : Next W)
          → Leads m x
          → ((left' : ℕ) (m1 : Machine W)
              → handler_loop d request n pkt_size fuel left' m1 ≡ some m'
              → Keeps m1 m')
          → (elim x [
            | more left' m1 ↦
                let rest = handler_loop d request n pkt_size fuel left' m1 in
                if not (left' == 0) && ltb m1.resp_ptr pkt_size then rest else some m1
            | invalid m1 ↦ some (mark_invalid m1)
            | restarted m1 ↦ some m1
          ])
            ≡ some m'
          → Keeps m m'
      split (more left' m1) l ih e = Keeps-trans l.keeps (rest_or_stop _ _ m1 m' (ih left' m1) e)
      split (invalid m1) l ih e =
          let k = same_machine (mark_invalid m1) m' e in
          Keeps-trans l.keeps
            (record { valid = k.valid; undefined = k.undefined; polled = k.polled })
      split (restarted m1) l ih e = Keeps-trans l.keeps (same_machine m1 m' e)
