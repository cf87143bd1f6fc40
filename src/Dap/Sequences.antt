-- ===== src/Dap/Sequences.antt =====
-- The commands of cmsis-dap/dap_main.c that clock bits out and in: `dap_swj_sequence`,
-- `dap_swd_sequence`, `dap_jtag_sequence`.
use Prim.Native.Nat.{min}
use cherry_link.Base.{
  ℕ, zero, suc, ◌+◌, ◌-◌, ◌*◌, ◌/◌, ◌^◌, List, [], ◌∷◌, bit_and, ◌==◌, if◌then◌else◌, u8, shr, has,
  Memory, at,
}
use cherry_link.Dap.Driver.{Driver}
use cherry_link.Dap.Machine.{Machine, advance_req, advance_resp, put, touch, set_info, write_list}
use cherry_link.Dap.Port.{port_io_reconfig}
use cherry_link.Dap.Codes.{dap_ok, dap_error, dap_port_swd, dap_port_jtag}

-- `(bitlen + 7) >> 3`
abbrev pub bytes_of : ℕ → ℕ
bytes_of bitlen = shr (bitlen + 7) 3

-- `memcpy(&buf, p, n)` over a 64-bit number that lies in memory lowest byte first: the `n` low
-- bytes are those of `p`, the others stay.
unfoldable pub low_bytes : Memory → ℕ → ℕ
low_bytes p zero = 0
low_bytes p (suc n) = p 0 + 256 * low_bytes (at p 1) n

abbrev pub copy_into : ℕ → Memory → ℕ → ℕ
copy_into buf p n = low_bytes p n + 256 ^ n * (buf / 256 ^ n)

-- the bytes of a number, lowest first, as `memcpy(p, &buf, n)` stores them
unfoldable pub bytes_from : ℕ → ℕ → List ℕ
bytes_from zero buf = []
bytes_from (suc n) buf = u8 buf ∷ bytes_from n (buf / 256)

abbrev pub all_ones : ℕ
all_ones = 2 ^ 64 - 1

module _ {W : Type 0} where
  -- `dap_jtag_raw` on the three buffers of `dap_info`
  unfoldable pub run_raw : Driver W → ℕ → Machine W → Machine W
  run_raw d bitlen m =
      let (tdo, w) = d.jtag_raw bitlen m.info.buf_tms m.info.buf_tdi m.info.buf_tdo m.world in
      record m { info = record (m.info) { buf_tdo = tdo }; world = w }

  -- `while (transfer->transfer_cnt < transfer_num)`, by the rounds left
  unfoldable pub rounds : (Machine W → Machine W) → ℕ → Machine W → Machine W
  rounds body zero m = m
  rounds body (suc n) m = rounds body n (body m)

module _ {W : Type 0} (d : Driver W) (request : Memory) where
  open d use {swd_seqout, swd_seqin}

  unfoldable pub dap_swj_sequence : Machine W → Machine W
  unfolding low_bytes
  dap_swj_sequence m =
      let asked = request m.req_ptr in
      let m0 = advance_req 1 m in
      let m1 = if m0.info.port_io_need_reconfig then port_io_reconfig d m0.info.port m0 else m0 in
      let bitlen = if asked == 0 then 256 else asked in
      if m1.info.port == dap_port_swd
      then put dap_ok
          (advance_req (bytes_of bitlen) (touch (swd_seqout (at request m1.req_ptr) bitlen) m1))
      else if m1.info.port == dap_port_jtag
      then (let bits = min bitlen 64 in
          let bytes = bytes_of bits in
          let tms = copy_into m1.info.buf_tms (at request m1.req_ptr) bytes in
          let m2 =
            set_info (record (m1.info) { buf_tms = tms; buf_tdi = all_ones })
              (advance_req bytes m1) in
          put dap_ok (run_raw d bits m2))
      else put dap_error (advance_req (bytes_of bitlen) m1)

  -- One round of `dap_swd_sequence`.
  unfoldable pub swd_sequence_round : Machine W → Machine W
  swd_sequence_round m =
      let info = request m.req_ptr in
      let m1 = advance_req 1 m in
      let asked = bit_and info 0x3f in
      let bitlen = if asked == 0 then 64 else asked in
      let bytes = bytes_of bitlen in
      let m2 =
        if has info 0x80
        then (let (got, w) = swd_seqin bitlen m1.world in
            advance_resp bytes
              (record m1 { response = write_list m1.response m1.resp_ptr got; world = w }))
        else advance_req bytes (touch (swd_seqout (at request m1.req_ptr) bitlen) m1) in
      record m2 { transfer_cnt = m2.transfer_cnt + 1 }

  -- One round of `dap_jtag_sequence`.
  unfoldable pub jtag_sequence_round : Machine W → Machine W
  unfolding low_bytes bytes_from
  jtag_sequence_round m =
      let info = request m.req_ptr in
      let m1 = advance_req 1 m in
      let asked = bit_and info 0x3f in
      let bitlen = if asked == 0 then 64 else asked in
      let bytes = bytes_of bitlen in
      let tms = if has info 0x40 then all_ones else 0 in
      let tdi = copy_into m1.info.buf_tdi (at request m1.req_ptr) bytes in
      let m2 =
        advance_req bytes (set_info (record (m1.info) { buf_tms = tms; buf_tdi = tdi }) m1) in
      let m3 = run_raw d bitlen m2 in
      let m4 =
        if has info 0x80
        then advance_resp bytes (record m3 {
          response = write_list m3.response m3.resp_ptr (bytes_from bytes m3.info.buf_tdo);
        })
        else m3 in
      record m4 { transfer_cnt = m4.transfer_cnt + 1 }

  -- what stands before the loop: the status, then the count of rounds
  abbrev pub sequence_start : ℕ → Machine W → Machine W
  sequence_start port m =
      record (advance_req 1 (if m.info.port == port then put dap_ok m else put dap_error m)) {
        transfer_cnt = 0;
      }

  unfoldable pub dap_swd_sequence : Machine W → Machine W
  dap_swd_sequence m = rounds swd_sequence_round (request m.req_ptr) (sequence_start dap_port_swd m)

  unfoldable pub dap_jtag_sequence : Machine W → Machine W
  dap_jtag_sequence m =
      rounds jtag_sequence_round (request m.req_ptr) (sequence_start dap_port_jtag m)
