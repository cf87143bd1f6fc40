-- ===== src/Swd/Bits.antt =====
-- Bits and bytes outside of a transfer: `swd_read_io_quick`, `swd_read_io_slow`,
-- `swd_write_io_quick`, `swd_write_io_slow`, `dap_swd_seqout` and `dap_swd_seqin` of
-- cmsis-dap/swd.c.
use cherry_link.Base.{
  ℕ, zero, suc, Bool, if◌then◌else◌, Option, none, some, List, [], ◌∷◌, ◌++◌, ◌+◌, ◌-◌, ◌^◌, ◌==◌,
  bit_and, bit_or, shr, u8, u32, has, Memory,
}
use cherry_link.Swd.Control.{Line, unset, quick, slow}
use cherry_link.Wire.{
  Wire, ◌▷◌, call, exchange, tck_to_app, tck_to_opp, tck_to_high, tck_to_low, mo_to_app, mo_to_opp,
  mo_to_ain, tms_to_out, tms_to_in, tms_to_high, tms_to_low, nop,
}

-- `uint8_t pos = 8 - bits`
abbrev pub low_end : ℕ → ℕ
low_end bits = u8 (8 + 2 ^ 32 - u32 bits)

-- A level as `DAP_SWD_TMS_READ_0x80` gives it.
abbrev pub top_bit : Bool → ℕ
top_bit level = if level then 0x80 else 0

module _ {W : Type 0} (b : Wire W) where
  -- `while (bits--)` of a read: `byte` is filled from the top
  unfoldable pub read_bits_quick : ℕ → Option (W → W) → ℕ → W → ℕ × W
  unfolding call
  read_bits_quick zero delay byte w = (byte, w)
  read_bits_quick (suc bits) delay byte w =
      let w0 = b.act tck_to_low w in
      read_bits_quick bits delay (bit_or (shr byte 1) (top_bit (b.tms_read w0)))
        (w0 ▷ b.act tck_to_high ▷ b.act nop ▷ call delay)

  unfoldable pub read_bits_slow : ℕ → Option (W → W) → ℕ → W → ℕ × W
  unfolding call
  read_bits_slow zero delay byte w = (byte, w)
  read_bits_slow (suc bits) delay byte w =
      let w0 = w ▷ b.act tck_to_low ▷ call delay in
      read_bits_slow bits delay (bit_or (shr byte 1) (top_bit (b.tms_read w0)))
        (w0 ▷ b.act tck_to_high ▷ call delay)

  -- the byte stored and what follows
  unfoldable pub swd_read_io_quick : ℕ → Line W → ℕ × Line W
  unfolding read_bits_quick
  swd_read_io_quick bits l =
      let (byte, w) = read_bits_quick bits l.control.swd_delay 0 l.wire in
      (shr byte (low_end bits), record l { wire = w })

  unfoldable pub swd_read_io_slow : ℕ → Line W → ℕ × Line W
  unfolding read_bits_slow
  swd_read_io_slow bits l =
      let (byte, w) = read_bits_slow bits l.control.swd_delay 0 l.wire in
      (shr byte (low_end bits), record l { wire = w })

  -- `if (byte & 0x1) DAP_SWD_TMS_TO_HIGH(); else DAP_SWD_TMS_TO_LOW();`
  unfoldable pub put_level : ℕ → W → W
  put_level byte w = b.act (if has byte 1 then tms_to_high else tms_to_low) w

  unfoldable pub write_bits_quick : ℕ → Option (W → W) → ℕ → W → W
  unfolding call put_level
  write_bits_quick zero delay byte w = w
  write_bits_quick (suc bits) delay byte w =
      write_bits_quick bits delay (shr byte 1)
        (w ▷ put_level byte ▷ b.act tck_to_low ▷ call delay ▷ b.act tck_to_high)

  unfoldable pub write_bits_slow : ℕ → Option (W → W) → ℕ → W → W
  unfolding call put_level
  write_bits_slow zero delay byte w = w
  write_bits_slow (suc bits) delay byte w =
      write_bits_slow bits delay (shr byte 1)
        (w ▷ put_level byte ▷ b.act tck_to_low ▷ call delay ▷ b.act tck_to_high ▷ call delay)

  unfoldable pub swd_write_io_quick : ℕ → ℕ → Line W → Line W
  unfolding write_bits_quick
  swd_write_io_quick byte bits l = record l {
    wire =
        l.wire
        ▷ b.act mo_to_opp
        ▷ b.act tms_to_out
        ▷ write_bits_quick bits l.control.swd_delay byte
        ▷ b.act mo_to_ain
        ▷ b.act tms_to_in;
  }

  unfoldable pub swd_write_io_slow : ℕ → ℕ → Line W → Line W
  unfolding write_bits_slow
  swd_write_io_slow byte bits l = record l {
    wire =
        l.wire
        ▷ b.act mo_to_opp
        ▷ b.act tms_to_out
        ▷ write_bits_slow bits l.control.swd_delay byte
        ▷ b.act mo_to_ain
        ▷ b.act tms_to_in;
  }

  -- the call through `swd_control.swd_write_io`
  unfoldable pub write_io : ℕ → ℕ → Line W → Option (Line W)
  unfolding swd_write_io_quick swd_write_io_slow
  write_io byte bits l = elim (l.control.routines) [
    | quick ↦ some (swd_write_io_quick byte bits l)
    | slow ↦ some (swd_write_io_slow byte bits l)
    | unset ↦ none
  ]

  -- the call through `swd_control.swd_read_io`
  unfoldable pub read_io : ℕ → Line W → Option (ℕ × Line W)
  unfolding swd_read_io_quick swd_read_io_slow
  read_io bits l = elim (l.control.routines) [
    | quick ↦ some (swd_read_io_quick bits l)
    | slow ↦ some (swd_read_io_slow bits l)
    | unset ↦ none
  ]

  -- `do ... while (bytes)` of a write: `i` is how far `data` has gone
  unfoldable pub send_bytes : ℕ → ℕ → Memory → W → W
  unfolding exchange
  send_bytes zero i buffer w = w
  send_bytes (suc bytes) i buffer w = send_bytes bytes (i + 1) buffer (exchange b (buffer i) w).1

  -- `dap_swd_seqout`
  unfoldable pub dap_swd_seqout : Memory → ℕ → Line W → Option (Line W)
  unfolding send_bytes write_io
  dap_swd_seqout buffer bitlen l =
      let bytes = shr bitlen 3 in
      let sent =
        l.wire
        ▷ b.act tck_to_app
        ▷ b.act mo_to_app
        ▷ b.act tms_to_out
        ▷ send_bytes bytes 0 buffer
        ▷ b.act tck_to_opp
        ▷ b.act mo_to_ain
        ▷ b.act tms_to_in in
      let l' = if bytes == 0 then l else record l { wire = sent } in
      if bit_and bitlen 7 == 0 then some l' else write_io (buffer bytes) (bit_and bitlen 7) l'

  -- `do ... while (bytes)` of a read
  unfoldable pub receive_bytes : ℕ → W → List ℕ × W
  unfolding exchange
  receive_bytes zero w = ([], w)
  receive_bytes (suc bytes) w =
      let (byte, w') = exchange b 0xff w in
      let (rest, w'') = receive_bytes bytes w' in (u8 byte ∷ rest, w'')

  -- the whole bytes of `dap_swd_seqin`
  unfoldable pub seqin_bytes : ℕ → Line W → List ℕ × Line W
  unfolding receive_bytes
  seqin_bytes bytes l =
      let (received, w) = receive_bytes bytes (b.act tck_to_app l.wire) in
      if bytes == 0 then ([], l) else (received, record l { wire = b.act tck_to_opp w })

  -- the odd bits of `dap_swd_seqin`, behind the bytes received
  unfoldable pub seqin_rest : ℕ → List ℕ → Line W → Option (List ℕ × Line W)
  unfolding read_io
  seqin_rest bits received l = if bits == 0 then some (received, l) else elim (read_io bits l) [
    | some (byte, l') ↦ some (received ++ (byte ∷ []), l')
    | none ↦ none
  ]

  -- `dap_swd_seqin`: the bytes stored from `data` on
  unfoldable pub dap_swd_seqin : ℕ → Line W → Option (List ℕ × Line W)
  unfolding seqin_bytes seqin_rest
  dap_swd_seqin bitlen l =
      let (received, l') = seqin_bytes (shr bitlen 3) l in seqin_rest (bit_and bitlen 7) received l'
