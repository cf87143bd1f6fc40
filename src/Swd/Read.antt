-- ===== src/Swd/Read.antt =====
-- `swd_read_quick`, `swd_read_slow` and `dap_swd_read` of cmsis-dap/swd.c.
use cherry_link.Base.{
  ℕ, zero, suc, Bool, true, false, if◌then◌else◌, Option, none, some, List, [], ◌∷◌, ◌==◌, ◌||◌,
  ◌&&◌, ◌+◌, bit_or, shl, u8,
}
use cherry_link.Dap.Driver.{Reply}
use cherry_link.Swd.Control.{Control, Line, unset, quick, slow, stamp}
use cherry_link.Swd.Parity.{get_parity_32bit, request_header}
use cherry_link.Wire.{
  Wire, ◌▷◌, repeat, call, exchange, little_endian, tck_to_app, tck_to_opp, tck_to_high, tck_to_low,
  mo_to_app, mo_to_ain, tms_to_out, tms_to_in, nop,
}

-- One pass through the body below `SYNC_READ_RESTART`: the value of `temp` at its end, the word put
-- through the pointer, and whether the pass came to test for a retry.
pub record Pass (W : Type 0) : Type 0 where
  pub temp : ℕ
  pub word : Option ℕ
  pub asked : Bool
  pub line : Line W

-- A level as the pin's bit, shifted to the right.
abbrev pub bit : Bool → ℕ
bit level = if level then 1 else 0

module _ {W : Type 0} (b : Wire W) where
  -- the request, up to the release of the line; the pointer aside, a read and a write share it
  unfoldable pub send_request : ℕ → W → W
  unfolding request_header exchange
  send_request request w =
      (w
        ▷ b.act tck_to_app
        ▷ b.act mo_to_app
        ▷ b.act tms_to_out
        ▷ exchange b (request_header request)).1
      ▷ b.act tck_to_opp
      ▷ b.act mo_to_ain
      ▷ b.act tms_to_in

  -- a clock of the quick routines
  unfoldable pub clock_quick : Option (W → W) → W → W
  unfolding call
  clock_quick delay w = w ▷ b.act tck_to_low ▷ b.act nop ▷ call delay ▷ b.act tck_to_high

  -- a clock of the quick turnaround before the acknowledge
  unfoldable pub turn_quick : Option (W → W) → W → W
  unfolding clock_quick
  turn_quick delay w = w ▷ clock_quick delay ▷ b.act nop

  -- a clock of the slow routines
  unfoldable pub clock_slow : Option (W → W) → W → W
  unfolding call
  clock_slow delay w = w ▷ b.act tck_to_low ▷ call delay ▷ b.act tck_to_high ▷ call delay

  -- the three bits of the acknowledge
  unfoldable pub ack_quick : Option (W → W) → W → ℕ × W
  unfolding call
  ack_quick delay w =
      let w0 = w ▷ b.act nop ▷ b.act tck_to_low in
      let w1 = w0 ▷ b.act tck_to_high ▷ call delay ▷ b.act tck_to_low in
      let w2 = w1 ▷ b.act nop ▷ b.act tck_to_high ▷ call delay ▷ b.act tck_to_low in
      (
        bit_or (bit_or (bit_or 0 (shl (bit (b.tms_read w0)) 0)) (shl (bit (b.tms_read w1)) 1))
            (shl (bit (b.tms_read w2)) 2),
        b.act tck_to_high w2,
      )

  unfoldable pub ack_slow : Option (W → W) → W → ℕ × W
  unfolding call
  ack_slow delay w =
      let w0 = w ▷ b.act tck_to_low ▷ call delay in
      let w1 = w0 ▷ b.act tck_to_high ▷ call delay ▷ b.act tck_to_low ▷ call delay in
      let w2 = w1 ▷ b.act tck_to_high ▷ call delay ▷ b.act tck_to_low ▷ call delay in
      (
        bit_or (bit_or (bit (b.tms_read w0)) (shl (bit (b.tms_read w1)) 1))
            (shl (bit (b.tms_read w2)) 2),
        w2 ▷ b.act tck_to_high ▷ call delay,
      )

  -- the request and its acknowledge, in the quick routines
  unfoldable pub acknowledge_quick : ℕ → Control W → W → ℕ × W
  unfolding send_request turn_quick ack_quick repeat
  acknowledge_quick request c w =
      w ▷ send_request request ▷ repeat c.trn (turn_quick c.swd_delay) ▷ ack_quick c.swd_delay

  -- the request and its acknowledge, in the slow routines
  unfoldable pub acknowledge_slow : ℕ → Control W → W → ℕ × W
  unfolding send_request clock_slow ack_slow repeat
  acknowledge_slow request c w =
      w ▷ send_request request ▷ repeat c.trn (clock_slow c.swd_delay) ▷ ack_slow c.swd_delay

  -- `for (temp = 0; temp < 4; temp++)`, by the rounds left: the bytes that come in
  unfoldable pub read_bytes : ℕ → W → List ℕ × W
  unfolding exchange
  read_bytes zero w = ([], w)
  read_bytes (suc left) w =
      let (byte, w') = exchange b 0xff w in
      let (bytes, w'') = read_bytes left w' in (u8 byte ∷ bytes, w'')

  -- `do ... while (temp)`: the bytes are dropped, and `temp` counts them down
  unfoldable pub dummy_bytes : ℕ → W → ℕ × W
  unfolding exchange
  dummy_bytes zero w = (0, w)
  dummy_bytes (suc temp) w = dummy_bytes temp (exchange b 0xff w).1

  -- the end of a read that was acknowledged
  unfoldable pub read_result : ℕ → List ℕ → Bool → Line W → Pass W
  unfolding stamp little_endian get_parity_32bit
  read_result request bytes parity l = record {
    temp = if bit parity == get_parity_32bit (little_endian bytes) then 1 else bit_or 1 16;
    word = some (little_endian bytes);
    asked = false;
    line = stamp b request l;
  }

  unfoldable pub read_ok_quick : ℕ → Control W → W → Pass W
  unfolding read_bytes read_result clock_quick repeat
  read_ok_quick request c w =
      let (bytes, w0) = read_bytes 4 (b.act tck_to_app w) in
      let w1 = w0 ▷ b.act tck_to_opp ▷ b.act tck_to_low in
      let w2 = w1 ▷ b.act tck_to_high ▷ repeat (c.trn + c.idle) (clock_quick c.swd_delay) in
      read_result request bytes (b.tms_read w1) (record { control = c; wire = w2 })

  unfoldable pub read_ok_slow : ℕ → Control W → W → Pass W
  unfolding read_bytes read_result clock_slow repeat call
  read_ok_slow request c w =
      let (bytes, w0) = read_bytes 4 (b.act tck_to_app w) in
      let w1 = w0 ▷ b.act tck_to_opp ▷ b.act tck_to_low ▷ call c.swd_delay in
      let w2 =
        w1
        ▷ b.act tck_to_high
        ▷ call c.swd_delay
        ▷ repeat (c.trn + c.idle) (clock_slow c.swd_delay) in
      read_result request bytes (b.tms_read w1) (record { control = c; wire = w2 })

  -- A wait or a fault. With a data phase `temp` is the count of its bytes, and ends at 0.
  unfoldable pub read_refused : (W → W) → ℕ → Control W → W → Pass W
  unfolding dummy_bytes repeat
  read_refused clock temp c w =
      if c.data_force
      then (let (temp', w') = dummy_bytes 4 (b.act tck_to_app w) in
          record {
            temp = temp';
            word = none;
            asked = true;
            line = record { control = c; wire = w' ▷ b.act tck_to_opp ▷ repeat (1 + c.trn) clock };
          })
      else record {
        temp = temp;
        word = none;
        asked = true;
        line = record { control = c; wire = repeat c.trn clock w };
      }

  -- Any other acknowledge: `temp` is the count of the bytes here too.
  unfoldable pub refused_otherwise : (W → W) → Control W → W → Pass W
  unfolding dummy_bytes
  refused_otherwise clock c w =
      let (temp, w') = dummy_bytes 4 (b.act tck_to_app w) in
      record {
        temp = temp;
        word = none;
        asked = false;
        line = record { control = c; wire = w' ▷ b.act tck_to_opp ▷ clock };
      }

  -- the clock for a parity bit that is written, and after an acknowledge out of the protocol
  unfoldable pub parity_clock : Option (W → W) → W → W
  unfolding call
  parity_clock delay w = w ▷ b.act tck_to_low ▷ call delay ▷ b.act tck_to_high

  -- the branches of `swd_read_quick` on the acknowledge
  unfoldable pub read_answered_quick : ℕ → Control W → ℕ → W → Pass W
  unfolding clock_quick read_ok_quick read_refused refused_otherwise
  read_answered_quick request c temp w =
      if temp == 1
      then read_ok_quick request c w
      else if temp == 2 || temp == 4
      then read_refused (clock_quick c.swd_delay) temp c w
      else refused_otherwise (clock_quick c.swd_delay) c w

  -- `swd_read_quick` from `SYNC_READ_RESTART`
  unfoldable pub read_pass_quick : ℕ → Line W → Pass W
  unfolding acknowledge_quick read_answered_quick
  read_pass_quick request l =
      let c = l.control in
      let (temp, w) = acknowledge_quick request c l.wire in read_answered_quick request c temp w

  -- the branches of `swd_read_slow` on the acknowledge
  unfoldable pub read_answered_slow : ℕ → Control W → ℕ → W → Pass W
  unfolding clock_slow parity_clock read_ok_slow read_refused refused_otherwise
  read_answered_slow request c temp w =
      if temp == 1
      then read_ok_slow request c w
      else if temp == 2 || temp == 4
      then read_refused (clock_slow c.swd_delay) temp c w
      else refused_otherwise (parity_clock c.swd_delay) c w

  -- `swd_read_slow` from `SYNC_READ_RESTART`
  unfoldable pub read_pass_slow : ℕ → Line W → Pass W
  unfolding acknowledge_slow read_answered_slow
  read_pass_slow request l =
      let c = l.control in
      let (temp, w) = acknowledge_slow request c l.wire in read_answered_slow request c temp w

module _ {W : Type 0} where
  -- the return of `temp`
  unfoldable pub reply : Pass W → Reply (Line W)
  reply p = record { ack = p.temp; word = p.word; world = p.line }

  -- `if ((temp == DAP_TRANSFER_WAIT) && (retry++ < swd_control.retry_limit)) goto ...`, by the
  -- retries left
  unfoldable pub retrying : (Line W → Pass W) → ℕ → Line W → Reply (Line W)
  unfolding reply
  retrying pass zero l = reply (pass l)
  retrying pass (suc left) l =
      let p = pass l in
      let again = retrying pass left p.line in if p.asked && p.temp == 2 then again else reply p

  module _ (b : Wire W) where
    unfoldable pub swd_read_quick : ℕ → Line W → Reply (Line W)
    unfolding retrying read_pass_quick
    swd_read_quick request l = retrying (read_pass_quick b request) l.control.retry_limit l

    unfoldable pub swd_read_slow : ℕ → Line W → Reply (Line W)
    unfolding retrying read_pass_slow
    swd_read_slow request l = retrying (read_pass_slow b request) l.control.retry_limit l

    -- `dap_swd_read`; before `dap_swd_config` it calls a null pointer, which is `none` here
    unfoldable pub dap_swd_read : ℕ → Line W → Option (Reply (Line W))
    unfolding swd_read_quick swd_read_slow
    dap_swd_read request l = elim (l.control.routines) [
      | quick ↦ some (swd_read_quick request l)
      | slow ↦ some (swd_read_slow request l)
      | unset ↦ none
    ]
