-- ===== src/Boot/Checked/Ends.antt =====
-- Where an update ends.
use cherry_link.Base.{◌≡◌, refl, ap}
use cherry_link.Boot.Loader.{idle, write_flash, end, Loader, Chip}
use cherry_link.Boot.Update.{boot_update_main}
use cherry_link.Boot.Steps.{Step, received, was_sent, round, connected, Reach, here, after}
use cherry_link.Boot.Checked.{
  is_busy, is_replying, is_writing, is_send_wait, is_end, Whole, Passed, IsSound, quiet,
}
use cherry_link.Boot.Checked.Rounds.{update_in-IsSound}
use cherry_link.Boot.Checked.Arrivals.{received-IsSound, was_sent-IsSound}

module _ {W : Type 0} (chip : Chip W) (start : Loader W) where
  Step-IsSound :
      {b b' : Loader W}
      → Reach chip start b
      → Step chip b b'
      → IsSound chip start b
      → IsSound chip start b'
  unfolding boot_update_main is_busy is_replying is_send_wait is_end
  Step-IsSound r (received b p nbytes q) i = received-IsSound chip start nbytes b p q i
  Step-IsSound r (was_sent b nbytes q) i = was_sent-IsSound chip start nbytes b i
  Step-IsSound r (round b) i = update_in-IsSound chip start b.state b refl r i
  Step-IsSound r (connected b) i = quiet chip start _ refl refl refl refl

  Reach-IsSound : {b : Loader W} → start.state ≡ idle → Reach chip start b → IsSound chip start b
  unfolding is_busy is_replying is_send_wait is_end
  Reach-IsSound e here =
      quiet chip start start (ap is_busy e) (ap is_replying e) (ap is_send_wait e) (ap is_end e)
  Reach-IsSound e (after r s sound) = Step-IsSound r s (Reach-IsSound e r)

  -- The update comes to its end only if the CRC of the flash matched: however packets, completions,
  -- connections and rounds of the main loop follow one another from an idle start, as long as none
  -- stores past `page_cur_buffer`, for each state `BOOT_END` that is reached there was, with the same
  -- last packet, a state of the CRC check in which the first word of the packet's data was the value
  -- that the CRC unit gives, after a reset, for the words of as many pages as the packet counts, from
  -- the start of the application on and in order.
  pub end-Passed :
      {b : Loader W} → start.state ≡ idle → Reach chip start b → b.state ≡ end → Passed chip start b
  unfolding is_end
  end-Passed idle_start r e = IsSound.ended (Reach-IsSound idle_start r) (ap is_end e)

  -- A page goes to the flash only as a whole: in every state `BOOT_WRITE_FLASH` that is reached
  -- from an idle start without a store past `page_cur_buffer`, the last packet was marked as the first and as the last of its page and
  -- gave its length as at least the page size.
  pub write_flash-Whole :
      {b : Loader W} → start.state ≡ idle → Reach chip start b → b.state ≡ write_flash → Whole b
  unfolding is_writing
  write_flash-Whole idle_start r e = IsSound.whole (Reach-IsSound idle_start r) (ap is_writing e)
