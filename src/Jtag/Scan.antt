-- ===== src/Jtag/Scan.antt =====
-- The bits that `dap_jtag_ir` and `dap_jtag_dr` of cmsis-dap/jtag.c gather in their buffers.
pub mod Layout
pub mod Ir
pub mod Dr
use cherry_link.Base.{
  ℕ, Bool, true, false, if◌then◌else◌, Option, none, some, List, ◌+◌, ◌-◌, ◌*◌, ◌^◌, ◌/◌, ◌%◌, ◌==◌,
  ◌&&◌, leb, ltb, bit_and, bit_or, shr, shl, u8, u64, has, Memory,
}

-- `bitlen`, `buf_tms` and `buf_tdi`.
pub record Scan : Type 0 where
  pub bitlen : ℕ
  pub tms : ℕ
  pub tdi : ℕ

-- `buf |= (uint64_t)value << k`
unfoldable pub or_shifted : ℕ → ℕ → ℕ → ℕ
or_shifted buf value k = bit_or buf (u64 (shl value k))

-- `(uint8_t *)&buf`
unfoldable pub bytes_of_u64 : ℕ → Memory
bytes_of_u64 buf i = u8 (shr buf (8 * i))

-- `((uint64_t)0x1 << n) - 1`
abbrev pub ones_below : ℕ → ℕ
ones_below n = 2 ^ n - 1

-- Ones for devices in bypass: before data, and, less one, after data
unfoldable pub bypass_ones : ℕ → Scan → Scan
unfolding or_shifted
bypass_ones count s =
    if count == 0
    then s
    else record s { tdi = or_shifted s.tdi (ones_below count) s.bitlen; bitlen = s.bitlen + count }

-- Set IR bitlen
unfoldable pub ir_bits : ℕ → ℕ → Scan → Scan
unfolding or_shifted
ir_bits ir length s = if length == 0 then s else record s {
  tdi = or_shifted s.tdi (bit_and ir (ones_below length)) s.bitlen;
  bitlen = s.bitlen + length;
}

-- The last clock of the shift.
unfoldable pub leave_shift : ℕ → Scan → Scan
unfolding or_shifted
leave_shift tdi_bit s = record {
  tms = or_shifted s.tms 1 s.bitlen;
  tdi = or_shifted s.tdi tdi_bit s.bitlen;
  bitlen = s.bitlen + 1;
}

-- Bypass after data, with the last bit of the register; that bit is shifted as a `uint32_t`
unfoldable pub ir_bypass_after : ℕ → ℕ → ℕ → Scan → Scan
unfolding or_shifted bypass_ones leave_shift
ir_bypass_after ir length after s =
    let last = bit_and (shr ir length) 1 in
    if after == 0
    then leave_shift last s
    else leave_shift 1 (
        bypass_ones (after - 1)
          (record s { tdi = or_shifted s.tdi last s.bitlen; bitlen = s.bitlen + 1 }))

-- Exit1-IR, Update-IR, idle
unfoldable pub ir_update : Scan → Scan
unfolding or_shifted
ir_update s = record {
  tms = or_shifted s.tms 1 s.bitlen;
  tdi = or_shifted s.tdi 1 (s.bitlen + 1);
  bitlen = s.bitlen + 1 + 1;
}

-- The buffers of `dap_jtag_ir`; `lr_length--` comes first.
unfoldable pub ir_scan : ℕ → ℕ → ℕ → ℕ → Scan
unfolding bypass_ones ir_bits ir_bypass_after ir_update
ir_scan ir lr_length ir_before ir_after = ir_update (
    ir_bypass_after ir (lr_length - 1) ir_after (
      ir_bits ir (lr_length - 1)
        (bypass_ones ir_before (record { bitlen = 4; tms = 0x3; tdi = 0 }))))

-- Where C defines all of this: the register has between 1 and 32 bits, its last bit stays within
-- the 32 of its type, and the scan within the 64 of its buffers.
unfoldable pub ir_defined : ℕ → ℕ → ℕ → Bool
ir_defined lr_length ir_before ir_after =
    leb 1 lr_length
    && (leb lr_length 32
        && (ltb (4 + ir_before + (lr_length - 1)) 32
            && leb (4 + ir_before + lr_length + ir_after + 2) 64))

-- The buffers of `dap_jtag_dr`, and `dma_bytes`.
pub record DrScan : Type 0 where
  pub scan : Scan
  pub dma_bytes : ℕ

unfoldable pub dr_scan : ℕ → ℕ → ℕ → ℕ → ℕ → DrScan
unfolding or_shifted
dr_scan idle request dr dr_before dr_after =
    let bitlen1 = 3 + dr_before in
    let tdi1 = or_shifted 0 (bit_and (shr request 1) 7) bitlen1 in
    let bitlen2 = bitlen1 + 3 in
    let tdi2 = if has request 2 then tdi1 else or_shifted tdi1 dr bitlen2 in
    let bitlen3 = bitlen2 + (31 + dr_after) in
    let tms3 = or_shifted 0x1 1 bitlen3 in
    let bitlen4 = bitlen3 + 1 in
    let tms4 = or_shifted tms3 1 bitlen4 in
    let bitlen5 = bitlen4 + (1 + idle) in
    record {
      scan = record { tms = tms4; tdi = or_shifted tdi2 1 bitlen5; bitlen = bitlen5 + 1 };
      dma_bytes = shr (bitlen3 - 8) 3;
    }
