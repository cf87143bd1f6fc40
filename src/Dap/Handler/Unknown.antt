-- ===== src/Dap/Handler/Unknown.antt =====
-- What `dap_request_handler` answers to a command that it does not know.
use mathlib.Core.Path.{subst}
use cherry_link.Base.{
  ℕ, zero, suc, ◌-◌, ◌<◌, ◌≡◌, refl, sym, Bool, false, not, ◌&&◌, ◌||◌, none, some, List, [], ◌∷◌,
  arith, ◌==◌, ltb, if◌then◌else◌, u8, write, Memory,
}
use cherry_link.Dap.Driver.{Driver}
use cherry_link.Dap.Machine.{Machine, advance_req, put}
use cherry_link.Dap.Vendor.{dap_vendor_request_handler}
use cherry_link.Dap.Handler.{
  more, invalid, restarted, vendor_command, plain_command, mark_invalid, handler_round,
  handler_loop, dap_request_handler,
}

-- The commands of CMSIS-DAP that the probe carries out, with two of its own.
unfoldable pub commands : List ℕ
commands =
    0x00 ∷ 0x01 ∷ 0x02 ∷ 0x03 ∷ 0x04 ∷ 0x05 ∷ 0x06 ∷ 0x08 ∷ 0x09 ∷ 0x0a ∷ 0x10 ∷ 0x11 ∷ 0x12 ∷ 0x13
    ∷ 0x14 ∷ 0x15 ∷ 0x16 ∷ 0x1d ∷ 0x7f ∷ 0x80 ∷ 0x81 ∷ []

unfoldable pub is_among : ℕ → List ℕ → Bool
is_among c [] = false
is_among c (x ∷ xs) = (c == x) || is_among c xs

module _ {W : Type 0} (d : Driver W) (request : Memory) where
  plain_command-none :
      (fuel c : ℕ) (m : Machine W)
      → is_among c commands ≡ false
      → plain_command d request fuel c m ≡ none
  unfolding plain_command is_among commands
  plain_command-none fuel c m unknown = ground arith

  vendor_command-invalid :
      (c left : ℕ) (m : Machine W)
      → is_among c commands ≡ false
      → m.reset ≡ false
      → vendor_command d request c left m ≡ invalid m
  unfolding vendor_command dap_vendor_request_handler is_among commands
  vendor_command-invalid c left m unknown no_reset = ground arith

  handler_round-invalid :
      (pkt_size fuel left : ℕ) (m : Machine W)
      → is_among (request m.req_ptr) commands ≡ false
      → m.reset ≡ false
      → handler_round d request pkt_size fuel left m
        ≡ invalid (put (request m.req_ptr) (advance_req 1 m))
  unfolding handler_round is_among commands
  handler_round-invalid pkt_size fuel left m unknown no_reset =
      let c = request m.req_ptr in
      let m1 = put c (advance_req 1 m) in
      let vendor = vendor_command-invalid c (left - 1) m1 unknown no_reset in
      let plain = plain_command-none fuel c m1 unknown in ground arith

  handler_loop-invalid :
      (n pkt_size fuel left : ℕ) (m m' : Machine W)
      → handler_round d request pkt_size fuel left m ≡ invalid m'
      → handler_loop d request (suc n) pkt_size fuel left m ≡ some (mark_invalid m')
  unfolding handler_loop
  handler_loop-invalid n pkt_size fuel left m m' e =
      subst
        (λ x.
          (elim x [
            | more left' m1 ↦
                let rest = handler_loop d request n pkt_size fuel left' m1 in
                if not (left' == 0) && ltb m1.resp_ptr pkt_size then rest else some m1
            | invalid m1 ↦ some (mark_invalid m1)
            | restarted m1 ↦ some m1
          ])
          ≡ some (mark_invalid m'))
        (sym e) refl

  -- A packet whose first command is unknown is answered by the one byte `ID_DAP_Invalid`, and
  -- neither the settings nor the target change.
  pub dap_request_handler-invalid :
      (rounds fuel pkt_size : ℕ) (m : Machine W)
      → 0 < rounds
      → is_among (request 0) commands ≡ false
      → m.reset ≡ false
      → dap_request_handler d request rounds fuel pkt_size m
        ≡ some (record m {
          req_ptr = 1;
          resp_ptr = 1;
          transfer_cnt = 0;
          transfer_ack = 0;
          response = write (write m.response 0 (u8 (request 0))) 0 0xff;
        })
  unfolding dap_request_handler
  dap_request_handler-invalid zero fuel pkt_size m some_rounds unknown no_reset =
      absurd (omega arith)
  dap_request_handler-invalid (suc n) fuel pkt_size m some_rounds unknown no_reset =
      let m0 = record m { req_ptr = 0; resp_ptr = 0; transfer_cnt = 0; transfer_ack = 0 } in
      handler_loop-invalid n pkt_size fuel 1 m0 _
        (handler_round-invalid pkt_size fuel 1 m0 unknown no_reset)
