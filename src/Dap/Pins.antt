-- ===== src/Dap/Pins.antt =====
-- `dap_swj_pin` of cmsis-dap/dap_main.c.
pub mod Polling
use cherry_link.Base.{
  ℕ, zero, suc, ◌+◌, ◌^◌, Bool, true, not, ◌&&◌, ◌||◌, bit_and, bit_or, bit_xor, ◌==◌, ltb,
  if◌then◌else◌, shr, shl, has, Memory, read_u32,
}
use cherry_link.Dap.Driver.{Driver, Pin, Mode}
use cherry_link.Dap.Machine.{Machine, advance_req, put, touch}
use cherry_link.Dap.Port.{need_reconfig}

-- `DAP_SWJ_*`: the bit of a pin in `value`, `select` and the answer
abbrev pub bit_of : Pin → ℕ
bit_of Pin.swclk_tck = 0
bit_of Pin.swdio_tms = 1
bit_of Pin.tdi = 2
bit_of Pin.tdo = 3
bit_of Pin.n_trst = 5
bit_of Pin.n_reset = 7

abbrev pub chosen : ℕ → Pin → Bool
chosen mask p = has mask (2 ^ bit_of p)

module _ {W : Type 0} (d : Driver W) where
  open d use {set_mode, set_pin, get_pin, get_cur_tick, wait_us_noblock}

  -- A selected pin becomes an output, and `driven` is set. The code names another pin to drive in
  -- one case.
  unfoldable pub drive : ℕ → ℕ → Pin → Pin → W → W
  drive select value p driven w =
      if chosen select p
      then set_pin driven (chosen value p) (set_mode p Mode.output_push_pull w)
      else w

  unfoldable pub drive_pins : ℕ → ℕ → W → W
  unfolding drive
  drive_pins select value w =
      let w1 = drive select value Pin.swclk_tck Pin.swclk_tck w in
      let w2 = drive select value Pin.swdio_tms Pin.swdio_tms w1 in
      let w3 = drive select value Pin.n_reset Pin.n_reset w2 in
      let w4 = drive select value Pin.tdi Pin.tdi w3 in drive select value Pin.n_trst Pin.n_reset w4

  unfoldable pub differs : ℕ → ℕ → Pin → W → Bool
  differs select value p w =
      chosen select p && not (bit_xor (bit_and (shr value (bit_of p)) 1) (get_pin p w) == 0)

  unfoldable pub any_differs : ℕ → ℕ → W → Bool
  unfolding differs
  any_differs select value w =
      differs select value Pin.swclk_tck w
      || differs select value Pin.swdio_tms w
      || differs select value Pin.tdi w
      || differs select value Pin.n_trst w
      || differs select value Pin.n_reset w

  -- The polling loop: a round in which a pin differs goes on if `dap_wait_us_noblock` says so.
  unfoldable pub poll_pins : ℕ → ℕ → ℕ → ℕ → ℕ → Machine W → Machine W
  poll_pins zero select value tick delay m = record m { hung = true }
  poll_pins (suc fuel) select value tick delay m =
      let (more, w) = wait_us_noblock tick delay m.world in
      let rest = poll_pins fuel select value tick delay (record m { world = w }) in
      if any_differs select value m.world
      then (if more then rest else record m { world = w })
      else m

  abbrev pub sampled : Pin → W → ℕ
  sampled p w = if get_pin p w == 0 then 0 else shl 1 (bit_of p)

  abbrev pub sample_pins : W → ℕ
  sample_pins w =
      bit_or
        (bit_or
          (bit_or
            (bit_or (bit_or (sampled Pin.swclk_tck w) (sampled Pin.swdio_tms w))
              (sampled Pin.tdi w))
            (sampled Pin.tdo w))
          (sampled Pin.n_trst w))
        (sampled Pin.n_reset w)

  -- `fuel` bounds the rounds of the polling loop.
  unfoldable pub dap_swj_pin : Memory → ℕ → Machine W → Machine W
  dap_swj_pin request fuel m =
      let value = request m.req_ptr in
      let select = request (m.req_ptr + 1) in
      let asked = read_u32 request (m.req_ptr + 2) in
      let m1 = touch (drive_pins select value) (advance_req 6 m) in
      let delay = if ltb 3000000 asked then 3000000 else asked in
      let polled = poll_pins fuel select value (get_cur_tick m1.world) delay m1 in
      let m2 = if asked == 0 then m1 else polled in
      let m3 = need_reconfig d true (touch (set_mode Pin.tdo Mode.input_floating) m2) in
      put (sample_pins m3.world) m3
