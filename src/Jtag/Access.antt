-- ===== src/Jtag/Access.antt =====
-- `dap_jtag_raw`, `dap_jtag_ir` and `dap_jtag_dr` of cmsis-dap/jtag.c. `none` stands for the call of
-- a null pointer, before `dap_jtag_config`, and for what C leaves undefined.
use cherry_link.Base.{
  ℕ, zero, suc, if◌then◌else◌, Option, none, some, List, ◌+◌, ◌-◌, ◌*◌, ◌==◌, leb, bit_and, bit_or,
  shr, shl, u32, Memory,
}
use cherry_link.Dap.Driver.{Reply}
use cherry_link.Jtag.Control.{Chain, jtag_stamp}
use cherry_link.Jtag.Scan.{bytes_of_u64, ir_scan, ir_defined, dr_scan}
use cherry_link.Jtag.Shift.{jtag_rw_quick, jtag_rw_slow, jtag_rw_dr_quick, jtag_rw_dr_slow}
use cherry_link.Swd.Control.{unset, quick, slow}
use cherry_link.Wire.{Wire, little_endian}

-- `ack = (ack & 0x4) | ((ack & 0x2) >> 1) | ((ack & 0x1) << 1)`
unfoldable pub turn_ack : ℕ → ℕ
turn_ack ack = bit_or (bit_or (bit_and ack 4) (shr (bit_and ack 2) 1)) (shl (bit_and ack 1) 1)

module _ {W : Type 0} (b : Wire W) where
  -- `dap_jtag_raw`: the bytes for `tdo`, and what follows
  unfoldable pub dap_jtag_raw : ℕ → Memory → Memory → Chain W → Option (List ℕ × Chain W)
  unfolding jtag_rw_quick jtag_rw_slow
  dap_jtag_raw bitlen tms tdi l =
      let (tdo, w) = jtag_rw_quick b l.control.jtag_delay bitlen tms tdi l.wire in
      let (tdo', w') = jtag_rw_slow b l.control.jtag_delay bitlen tms tdi l.wire in
      elim (l.control.routines) [
        | quick ↦ some (tdo, record l { wire = w })
        | slow ↦ some (tdo', record l { wire = w' })
        | unset ↦ none
      ]

  -- `dap_jtag_ir`
  unfoldable pub dap_jtag_ir : ℕ → ℕ → ℕ → ℕ → Chain W → Option (Chain W)
  unfolding ir_scan ir_defined bytes_of_u64 dap_jtag_raw
  dap_jtag_ir ir lr_length ir_before ir_after l =
      let s = ir_scan ir lr_length ir_before ir_after in
      if ir_defined lr_length ir_before ir_after
      then elim (dap_jtag_raw s.bitlen (bytes_of_u64 s.tms) (bytes_of_u64 s.tdi) l) [
        | some (_, l') ↦ some l'
        | none ↦ none
      ]
      else none

  -- the call through `jtag_control.jtag_rw_dr`: `buf_tdo`, as far as it is written, and what follows
  unfoldable pub rw_dr : ℕ → ℕ → ℕ → ℕ → Chain W → Option (ℕ × Chain W)
  unfolding jtag_rw_dr_quick jtag_rw_dr_slow bytes_of_u64 little_endian
  rw_dr dma_bytes bits_tail buf_tms buf_tdi l =
      let tms = bytes_of_u64 buf_tms in
      let tdi = bytes_of_u64 buf_tdi in
      let (tdo, w) = jtag_rw_dr_quick b l.control.jtag_delay dma_bytes bits_tail tms tdi l.wire in
      let (tdo', w') = jtag_rw_dr_slow b l.control.jtag_delay dma_bytes bits_tail tms tdi l.wire in
      elim (l.control.routines) [
        | quick ↦ some (little_endian tdo, record l { wire = w })
        | slow ↦ some (little_endian tdo', record l { wire = w' })
        | unset ↦ none
      ]

  -- `do ... while (retry++ < jtag_control.retry_limit)`, by the retries left: the acknowledge,
  -- `buf_tdo` and what follows
  unfoldable pub dr_rounds :
      ℕ → (Chain W → Option (ℕ × Chain W)) → ℕ → Chain W → Option (ℕ × ℕ × Chain W)
  unfolding turn_ack
  dr_rounds zero transfer dr_before l = elim (transfer l) [
    | some (buf_tdo, l') ↦ some (turn_ack (bit_and (shr buf_tdo (dr_before + 3)) 7), buf_tdo, l')
    | none ↦ none
  ]
  dr_rounds (suc left) transfer dr_before l = elim (transfer l) [
    | some (buf_tdo, l') ↦
        let ack = turn_ack (bit_and (shr buf_tdo (dr_before + 3)) 7) in
        let again = dr_rounds left transfer dr_before l' in
        if ack == 2 then again else some (ack, buf_tdo, l')
    | none ↦ none
  ]

  -- `dap_jtag_dr`; the word is the one that goes through the pointer, if there is one
  unfoldable pub dap_jtag_dr : ℕ → ℕ → ℕ → ℕ → Chain W → Option (Reply (Chain W))
  unfolding dr_scan jtag_stamp rw_dr dr_rounds
  dap_jtag_dr request dr dr_before dr_after l =
      let s = dr_scan l.control.idle request dr dr_before dr_after in
      let bits_tail = s.scan.bitlen - 8 - 8 * s.dma_bytes in
      let transfer = rw_dr s.dma_bytes bits_tail s.scan.tms s.scan.tdi in
      if leb s.scan.bitlen 64
      then elim (dr_rounds l.control.retry_limit transfer dr_before (jtag_stamp b request l)) [
        | some (ack, buf_tdo, l') ↦
            some (record { ack = ack; word = some (u32 (shr buf_tdo (dr_before + 6))); world = l' })
        | none ↦ none
      ]
      else none
