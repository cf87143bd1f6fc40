-- ===== src/Wire.antt =====
-- The pins, the SPI and the clock that cmsis-dap/swd.c and cmsis-dap/jtag.c drive: the register
-- macros of board/ch32f205_dap.h. The registers themselves are hardware, so `W`, the state of the
-- chip and of the target, and what each access does to it are parameters.
use cherry_link.Base.{ℕ, zero, suc, Bool, if◌then◌else◌, Option, none, some}
use cherry_link.Base.{List, [], ◌∷◌, ◌+◌, ◌*◌}

-- A write to a configuration or data register of a pin, or the `__NOP` between two of them. `tck`,
-- `tdi` and `tms` are the pins, `mo` is the mode of the `tms` output and `tms_to_out`,
-- `tms_to_in` turn its level shifter.
pub data Action : Type 0 where
  tck_to_app tck_to_opp tck_to_high tck_to_low : Action
  mo_to_app mo_to_opp mo_to_ain tms_to_out tms_to_in tms_to_high tms_to_low : Action
  tdi_to_app tdi_to_opp tdi_to_high tdi_to_low : Action
  nop : Action

pub record Wire (W : Type 0) : Type 0 where
  pub act : Action → W → W
  -- the level of an input, which the macros shift to 0x01 or to 0x80
  pub tms_read : W → Bool
  pub tdo_read : W → Bool
  -- the data register of the SPI, and its busy flag
  pub spi_write : ℕ → W → W
  pub spi_busy : W → Bool × W
  pub spi_read : W → ℕ × W
  -- how many polls see the busy flag set
  pub spi_polls : W → ℕ
  pub get_cur_tick : W → ℕ
  -- `gpio_init`, `io_reconfig`, `trans_init` and their opposites
  pub gpio_init : W → W
  pub io_reconfig : W → W
  pub trans_init : W → W
  pub gpio_deinit : W → W
  pub trans_deinit : W → W
  -- the choice of a clock gives the routine that makes half a period last, or none
  pub trans_interface_init : ℕ → W → Option (W → W) × W

infixl 1 ◌▷◌
abbrev pub ◌▷◌ {ℓ κ} : {A : Type ℓ} {B : Type κ} → A → (A → B) → B
x ▷ f = f x

module _ {W : Type 0} where
  -- `while (n--)`
  unfoldable pub repeat : ℕ → (W → W) → W → W
  repeat zero body w = w
  repeat (suc n) body w = repeat n body (body w)

  -- `if (delay) delay()`
  unfoldable pub call : Option (W → W) → W → W
  call none w = w
  call (some delay) w = delay w

  module _ (b : Wire W) where
    -- `while (SWD_WAIT_BUSY());`, with as many rounds as polls see the flag set
    unfoldable pub wait : ℕ → W → W
    wait zero w = (b.spi_busy w).1
    wait (suc polls) w =
        let (busy, w') = b.spi_busy w in let rest = wait polls w' in if busy then rest else w'

    -- a byte out and the byte that came in
    unfoldable pub exchange : ℕ → W → ℕ × W
    unfolding wait
    exchange byte w = let w' = b.spi_write byte w in b.spi_read (wait (b.spi_polls w') w')

-- A word from bytes, the lowest first: `__UNALIGNED_UINT32_READ` of four.
unfoldable pub little_endian : List ℕ → ℕ
little_endian [] = 0
little_endian (x ∷ xs) = x + 256 * little_endian xs
