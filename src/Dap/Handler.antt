-- ===== src/Dap/Handler.antt =====
-- `dap_request_handler` of cmsis-dap/dap_main.c: the loop over the commands of a packet.
pub mod Growth
pub mod BlockGrowth
pub mod Advance
pub mod Total
pub mod Valid
pub mod Unknown
use cherry_link.Base.{
  ℕ, zero, suc, ◌+◌, ◌-◌, ◌%◌, ◌^◌, Bool, true, false, not, ◌&&◌, Option, none, some, List, length,
  ◌==◌, ltb, leb, if◌then◌else◌, u8, u16, Memory, write, write_u16,
}
use cherry_link.Dap.Driver.{Driver}
use cherry_link.Dap.Machine.{Info, Machine, advance_req, advance_resp, put, set_info, write_list}
use cherry_link.Dap.Info.{get_dap_info}
use cherry_link.Dap.Commands.{
  dap_host_status, dap_connect, dap_disconnect, dap_delay, dap_reset_target, dap_swj_clock,
  dap_swd_configure, dap_transfer_configure,
}
use cherry_link.Dap.Sequences.{dap_swj_sequence, dap_swd_sequence, dap_jtag_sequence}
use cherry_link.Dap.Pins.{dap_swj_pin}
use cherry_link.Dap.Chain.{dap_jtag_configure, dap_jtag_idcode}
use cherry_link.Dap.Skip.{dap_dummy_transfer, dap_dummy_transfer_block}
use cherry_link.Dap.SwdTransfer.{dap_swd_transfer}
use cherry_link.Dap.JtagTransfer.{dap_jtag_transfer}
use cherry_link.Dap.Blocks.{dap_swd_transfer_block, dap_jtag_transfer_block, dap_write_abort}
use cherry_link.Dap.Vendor.{dap_vendor_request_handler}
use cherry_link.Dap.Codes.{dap_port_swd, dap_port_jtag}

-- How a command ends: the loop goes on with so many commands left, or `goto fault`, or the chip
-- is restarted.
pub data Next (W : Type 0) : Type 0 where
  more : ℕ → Machine W → Next W
  invalid : Machine W → Next W
  restarted : Machine W → Next W

module _ {W : Type 0} where
  abbrev pub or_invalid : ℕ → Machine W → Option (Machine W) → Next W
  or_invalid cmd_num m none = invalid m
  or_invalid cmd_num m (some m') = more cmd_num m'

  -- `response[dap_transfer.resp_ptr - 1] = ID_DAP_Invalid`
  abbrev pub mark_invalid : Machine W → Machine W
  mark_invalid m = record m { response = write m.response (m.resp_ptr - 1) 0xff }

module _ {W : Type 0} (d : Driver W) (request : Memory) where
  -- `case ID_DAP_Transfer`
  unfoldable pub transfer_command : Machine W → Machine W
  transfer_command m =
      let m1 = set_info (record (m.info) { do_abort = false }) m in
      if m1.info.port == dap_port_swd
      then status m (dap_swd_transfer d request m1)
      else if m1.info.port == dap_port_jtag
      then (let (accepted, m2) = dap_jtag_transfer d request m1 in
          if accepted
          then status m m2
          else dap_dummy_transfer request
              (record m2 { req_ptr = m.req_ptr; resp_ptr = m.resp_ptr }))
      else dap_dummy_transfer request m1
    where
      status : Machine W → Machine W → Machine W
      status m m2 = record m2 {
        response =
            write (write m2.response m.resp_ptr (u8 m2.transfer_cnt)) (u16 (m.resp_ptr + 1))
              (u8 m2.transfer_ack);
      }

  -- `case ID_DAP_TransferBlock`
  unfoldable pub transfer_block_command : Machine W → Machine W
  transfer_block_command m =
      if m.info.port == dap_port_swd
      then (let m1 = dap_swd_transfer_block d request m in
          status m1.transfer_cnt m1.transfer_ack m m1)
      else if m.info.port == dap_port_jtag
      then (let (accepted, m1) = dap_jtag_transfer_block d request m in
          if accepted
          then status m1.transfer_cnt m1.transfer_ack m m1
          else status 0 0 m (dap_dummy_transfer_block request m1))
      else status 0 0 m (dap_dummy_transfer_block request m)
    where
      status : ℕ → ℕ → Machine W → Machine W → Machine W
      status cnt ack m m1 = record m1 {
        response = write (write_u16 m1.response m.resp_ptr cnt) (m.resp_ptr + 2) (u8 ack);
      }

  -- `case ID_DAP_Info`; the answer must fit the packet.
  unfoldable pub info_command : ℕ → ℕ → Machine W → Next W
  info_command pkt_size cmd_num m =
      let answer = get_dap_info (request m.req_ptr) in
      let num = length answer in
      let m1 = advance_req 1 m in
      if leb (m1.resp_ptr + num + 1) pkt_size
      then more cmd_num (
          advance_resp (num + 1) (record m1 {
            response = write (write_list m1.response (m1.resp_ptr + 1) answer) m1.resp_ptr num;
          }))
      else invalid m1

  -- The vendor commands; a result of zero is a fault.
  unfoldable pub vendor_command : ℕ → ℕ → Machine W → Next W
  vendor_command cmd_id cmd_num m =
      let r = dap_vendor_request_handler d request cmd_id m in
      if r.machine.reset
      then restarted r.machine
      else if (r.read == 0) && (r.answered == 0)
      then invalid r.machine
      else more cmd_num (advance_resp r.answered (advance_req r.read r.machine))

  -- The other cases of the switch; `none` is `default`. `fuel` is for the polling of the pins.
  unfoldable pub plain_command : ℕ → ℕ → Machine W → Option (Machine W)
  plain_command fuel cmd_id m =
      if cmd_id == 0x01
      then some (dap_host_status d request m)
      else if cmd_id == 0x02
      then some (dap_connect d request m)
      else if cmd_id == 0x03
      then some (dap_disconnect d request m)
      else if cmd_id == 0x09
      then some (dap_delay d request m)
      else if cmd_id == 0x0a
      then some (dap_reset_target d request m)
      else if cmd_id == 0x10
      then some (dap_swj_pin d request fuel m)
      else if cmd_id == 0x11
      then some (dap_swj_clock d request m)
      else if cmd_id == 0x12
      then some (dap_swj_sequence d request m)
      else if cmd_id == 0x13
      then some (dap_swd_configure d request m)
      else if cmd_id == 0x1d
      then some (dap_swd_sequence d request m)
      else if cmd_id == 0x14
      then some (dap_jtag_sequence d request m)
      else if cmd_id == 0x15
      then some (dap_jtag_configure request m)
      else if cmd_id == 0x16
      then some (dap_jtag_idcode d request m)
      else if cmd_id == 0x04
      then some (dap_transfer_configure d request m)
      else if cmd_id == 0x05
      then some (transfer_command m)
      else if cmd_id == 0x06
      then some (transfer_block_command m)
      else if cmd_id == 0x08
      then some (dap_write_abort d request m)
      else none

  -- A round of the loop, with the number of commands left before it.
  unfoldable pub handler_round : ℕ → ℕ → ℕ → Machine W → Next W
  handler_round pkt_size fuel cmd_num m =
      let left = cmd_num - 1 in
      let cmd_id = request m.req_ptr in
      let m1 = put cmd_id (advance_req 1 m) in
      if leb 0x80 cmd_id && leb cmd_id 0x9f
      then vendor_command cmd_id left m1
      else if cmd_id == 0x7f
      then (let num = request m1.req_ptr in more num (put num (advance_req 1 m1)))
      else if cmd_id == 0x00
      then info_command pkt_size left m1
      else or_invalid left m1 (plain_command fuel cmd_id m1)

  -- The loop; `none` tells that the fuel of the first argument ran out.
  unfoldable pub handler_loop : ℕ → ℕ → ℕ → ℕ → Machine W → Option (Machine W)
  handler_loop zero pkt_size fuel cmd_num m = none
  handler_loop (suc n) pkt_size fuel cmd_num m = elim (handler_round pkt_size fuel cmd_num m) [
    | more left m' ↦
        let rest = handler_loop n pkt_size fuel left m' in
        if not (left == 0) && ltb m'.resp_ptr pkt_size then rest else some m'
    | invalid m' ↦ some (mark_invalid m')
    | restarted m' ↦ some m'
  ]

  -- The length that it returns is the `resp_ptr` of the machine.
  unfoldable pub dap_request_handler : ℕ → ℕ → ℕ → Machine W → Option (Machine W)
  dap_request_handler rounds fuel pkt_size m =
      handler_loop rounds pkt_size fuel 1
        (record m { req_ptr = 0; resp_ptr = 0; transfer_cnt = 0; transfer_ack = 0 })
