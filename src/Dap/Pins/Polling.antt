-- ===== src/Dap/Pins/Polling.antt =====
-- When the polling loop of `dap_swj_pin` in cmsis-dap/dap_main.c ends.
use cherry_link.Base.{ℕ, zero, suc, ◌≡◌, Bool, true, false, if◌then◌else◌}
use cherry_link.Dap.Driver.{Driver}

module _ {W : Type 0} (d : Driver W) where
  -- One of the next `n` calls of `dap_wait_us_noblock`, one after the other, says to stop.
  unfoldable pub stops_within : ℕ → ℕ → ℕ → W → Bool
  stops_within zero tick delay w = false
  stops_within (suc n) tick delay w =
      let (more, w') = d.wait_us_noblock tick delay w in
      let rest = stops_within n tick delay w' in if more then rest else true

  -- Calls from the tick of their start on say to stop within `fuel` of them, whatever the delay.
  abbrev pub PollsEnd : ℕ → Type 0
  PollsEnd fuel = (delay : ℕ) (w : W) → stops_within fuel (d.get_cur_tick w) delay w ≡ true
