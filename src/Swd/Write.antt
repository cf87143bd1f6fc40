-- ===== src/Swd/Write.antt =====
-- `swd_write_quick`, `swd_write_slow` and `dap_swd_write` of cmsis-dap/swd.c.
use cherry_link.Base.{
  ℕ, true, false, if◌then◌else◌, Option, none, some, List, [], ◌∷◌, ◌==◌, ◌||◌, u8, shr,
}
use cherry_link.Dap.Driver.{Reply}
use cherry_link.Swd.Control.{Control, Line, unset, quick, slow, stamp}
use cherry_link.Swd.Parity.{get_parity_32bit}
use cherry_link.Swd.Read.{
  Pass, acknowledge_quick, acknowledge_slow, clock_quick, clock_slow, parity_clock, dummy_bytes,
  refused_otherwise, retrying,
}
use cherry_link.Wire.{
  Wire, ◌▷◌, repeat, exchange, tck_to_app, tck_to_opp, mo_to_app, mo_to_opp, mo_to_ain, tms_to_out,
  tms_to_in, tms_to_high, tms_to_low,
}

-- The four bytes behind `w_data`, for a word in memory.
unfoldable pub word_bytes : ℕ → List ℕ
word_bytes word = u8 word ∷ u8 (shr word 8) ∷ u8 (shr word 16) ∷ u8 (shr word 24) ∷ []

module _ {W : Type 0} (b : Wire W) where
  -- `for (temp = 0; temp < 4; temp++)`
  unfoldable pub write_bytes : List ℕ → W → W
  unfolding exchange
  write_bytes [] w = w
  write_bytes (byte ∷ bytes) w = write_bytes bytes (exchange b byte w).1

  -- the 32 bits of data, up to the level of the parity bit
  unfoldable pub write_word : ℕ → W → W
  unfolding write_bytes word_bytes get_parity_32bit
  write_word word w =
      w
      ▷ b.act tck_to_app
      ▷ b.act mo_to_app
      ▷ b.act tms_to_out
      ▷ write_bytes (word_bytes word)
      ▷ b.act tck_to_opp
      ▷ b.act mo_to_opp
      ▷ b.act (if get_parity_32bit word == 0 then tms_to_low else tms_to_high)

  -- The write that was acknowledged, with the clock of its turnaround and idle cycles and the clock
  -- of its parity bit.
  unfoldable pub write_ok : (W → W) → (W → W) → ℕ → ℕ → Control W → W → Pass W
  unfolding write_word repeat stamp
  write_ok clock parity request word c w = record {
    temp = 1;
    word = none;
    asked = false;
    line = stamp b request (record {
      control = c;
      wire =
          w
          ▷ repeat c.trn clock
          ▷ write_word word
          ▷ parity
          ▷ repeat c.idle clock
          ▷ b.act mo_to_ain
          ▷ b.act tms_to_in;
    });
  }

  -- A wait or a fault. With a data phase `temp` is the count of its bytes, and ends at 0.
  unfoldable pub write_refused : (W → W) → ℕ → Control W → W → Pass W
  unfolding dummy_bytes repeat
  write_refused clock temp c w =
      let turned = repeat c.trn clock w in
      if c.data_force
      then (let (temp', w') = dummy_bytes b 4 (b.act tck_to_app turned) in
          record {
            temp = temp';
            word = none;
            asked = true;
            line = record { control = c; wire = w' ▷ b.act tck_to_opp ▷ clock };
          })
      else record {
        temp = temp;
        word = none;
        asked = true;
        line = record { control = c; wire = turned };
      }

  -- the branches of `swd_write_quick` on the acknowledge
  unfoldable pub write_answered_quick : ℕ → ℕ → Control W → ℕ → W → Pass W
  unfolding clock_quick parity_clock write_ok write_refused refused_otherwise
  write_answered_quick request word c temp w =
      if temp == 1
      then write_ok (clock_quick b c.swd_delay) (parity_clock b c.swd_delay) request word c w
      else if temp == 2 || temp == 4
      then write_refused (clock_quick b c.swd_delay) temp c w
      else refused_otherwise b (clock_quick b c.swd_delay) c w

  -- `swd_write_quick` from `SYNC_READ_RESTART`
  unfoldable pub write_pass_quick : ℕ → ℕ → Line W → Pass W
  unfolding acknowledge_quick write_answered_quick
  write_pass_quick request word l =
      let c = l.control in
      let (temp, w) = acknowledge_quick b request c l.wire in
      write_answered_quick request word c temp w

  -- the branches of `swd_write_slow` on the acknowledge
  unfoldable pub write_answered_slow : ℕ → ℕ → Control W → ℕ → W → Pass W
  unfolding clock_slow parity_clock write_ok write_refused refused_otherwise
  write_answered_slow request word c temp w =
      if temp == 1
      then write_ok (clock_slow b c.swd_delay) (clock_slow b c.swd_delay) request word c w
      else if temp == 2 || temp == 4
      then write_refused (clock_slow b c.swd_delay) temp c w
      else refused_otherwise b (parity_clock b c.swd_delay) c w

  -- `swd_write_slow` from `SYNC_READ_RESTART`
  unfoldable pub write_pass_slow : ℕ → ℕ → Line W → Pass W
  unfolding acknowledge_slow write_answered_slow
  write_pass_slow request word l =
      let c = l.control in
      let (temp, w) = acknowledge_slow b request c l.wire in
      write_answered_slow request word c temp w

  unfoldable pub swd_write_quick : ℕ → ℕ → Line W → Reply (Line W)
  unfolding retrying write_pass_quick
  swd_write_quick request word l = retrying (write_pass_quick request word) l.control.retry_limit l

  unfoldable pub swd_write_slow : ℕ → ℕ → Line W → Reply (Line W)
  unfolding retrying write_pass_slow
  swd_write_slow request word l = retrying (write_pass_slow request word) l.control.retry_limit l

  -- `dap_swd_write`; before `dap_swd_config` it calls a null pointer, which is `none` here
  unfoldable pub dap_swd_write : ℕ → ℕ → Line W → Option (Reply (Line W))
  unfolding swd_write_quick swd_write_slow
  dap_swd_write request word l = elim (l.control.routines) [
    | quick ↦ some (swd_write_quick request word l)
    | slow ↦ some (swd_write_slow request word l)
    | unset ↦ none
  ]
