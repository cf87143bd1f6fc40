-- ===== src/Dap/Chain.antt =====
-- The JTAG chain in cmsis-dap/dap_main.c: `dap_jtag_configure`, `dap_jtag_idcode`.
pub mod Layout
pub mod Overrun
use Prim.Native.Nat.{min}
use cherry_link.Base.{
  ℕ, zero, suc, ◌+◌, ◌-◌, ◌/◌, ◌%◌, ◌^◌, Bool, true, false, ◌&&◌, ◌||◌, ◌==◌, ltb, leb,
  if◌then◌else◌, u8, u16, u32, shr, Memory, get_or, set,
}
use cherry_link.Dap.Driver.{Driver}
use cherry_link.Dap.Machine.{Info, Machine, advance_req, put, put_word, touch, set_info}
use cherry_link.Dap.Sequences.{run_raw}
use cherry_link.Dap.Codes.{dap_ok, dap_error, dap_port_jtag, dap_jtag_dev_cnt, jtag_idcode}

-- An access past the last of the `DAP_JTAG_DEV_CNT` places is a fault.
abbrev pub beyond : ℕ → Bool
beyond n = leb dap_jtag_dev_cnt n

-- The arguments that `dap_jtag_ir` is given for the device at `index`.
abbrev pub select_ir : {W : Type 0} → Driver W → ℕ → Machine W → Machine W
select_ir d ir m =
    touch
      (d.jtag_ir ir (get_or i.ir_length i.index 0) (get_or i.ir_before i.index 0)
        (get_or i.ir_after i.index 0))
      (record m { fault = m.fault || beyond i.index })
  where
    open m use {info as i}

module _ {W : Type 0} where
  -- A round of the second loop: device `n`, with `bits` the bits of the devices after.
  unfoldable pub fill_one : ℕ → ℕ → Machine W → Machine W
  fill_one n bits m = record m {
    info = record (m.info) { ir_after = set m.info.ir_after n (u16 bits) };
    fault = m.fault || beyond n;
  }

  unfoldable pub fill_after : ℕ → ℕ → ℕ → Machine W → Machine W
  fill_after zero n bits m = m
  fill_after (suc left) n bits m =
      let bits' = u32 (bits + 2 ^ 32 - get_or m.info.ir_length n 0) in
      fill_after left (n + 1) bits' (fill_one n bits' m)

module _ {W : Type 0} (request : Memory) where
  -- A round of the first loop: device `n`, with `bits` the bits of the devices before.
  unfoldable pub read_length : ℕ → ℕ → Machine W → Machine W
  read_length n bits m = record m {
    info = record (m.info) {
      ir_length = set m.info.ir_length n (request m.req_ptr);
      ir_before = set m.info.ir_before n (u16 bits);
    };
    req_ptr = u16 (m.req_ptr + 1);
    fault = m.fault || beyond n;
  }

  -- The first loop, from device `n` with `left` to go.
  unfoldable pub read_lengths : ℕ → ℕ → ℕ → Machine W → ℕ × Machine W
  read_lengths zero n bits m = (bits, m)
  read_lengths (suc left) n bits m =
      read_lengths left (n + 1) (u32 (bits + request m.req_ptr)) (read_length n bits m)

  unfoldable pub dap_jtag_configure : Machine W → Machine W
  dap_jtag_configure m =
      let n = request m.req_ptr in
      let m1 = advance_req 1 m in
      let m2 = set_info (record (m1.info) { count = min n dap_jtag_dev_cnt }) m1 in
      let (bits, m3) = read_lengths n 0 0 m2 in put dap_ok (fill_after n 0 bits m3)

-- `0x3 << (bitlen - 1)` shifts an `int` by 34 or more, which C leaves undefined: it is a fault,
-- and nothing is added to `buf_tms`.
unfoldable pub dap_jtag_idcode : {W : Type 0} → Driver W → Memory → Machine W → Machine W
unfolding run_raw
dap_jtag_idcode d request m =
    let index = request m.req_ptr in
    let m1 = advance_req 1 m in
    let m2 = set_info (record (m1.info) { index = index }) m1 in
    if (m2.info.port == dap_port_jtag) && ltb index dap_jtag_dev_cnt
    then (let m3 = select_ir d jtag_idcode m2 in
        let m4 = set_info (record (m3.info) { buf_tdi = 0; buf_tdo = 0; buf_tms = 1 }) m3 in
        let m5 = run_raw d (3 + index + 32 + 2) (record m4 { fault = true }) in
        put_word (u32 (shr m5.info.buf_tdo (3 + index))) (put dap_ok m5))
    else put dap_error m2
