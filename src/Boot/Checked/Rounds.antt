-- ===== src/Boot/Checked/Rounds.antt =====
-- The rounds of the main loop.
use cherry_link.Base.{zero, suc, ◌+◌, ◌≡◌, refl, ap, ◌||◌, ◌*◌, u32, ◌==◌, arith}
use cherry_link.Boot.Loader.{
  State, idle, send_page_size, send_reply, write_flash, crc_verification, send_wait, reve_wait,
  timeout, end, Wait, wait_forever, wait_for, Loader, Chip, chip_app_start,
}
use cherry_link.Boot.Update.{write_page, verify_crc, tell_page_size, wait_round, update_in, retry}
use cherry_link.Board.Flash.{flash_erase_256byte, flash_program_256byte}
use cherry_link.Boot.Checked.Crc.{matches-crc_fed}
use cherry_link.Boot.Steps.{Reach}
use cherry_link.Boot.Checked.{
  is_busy, is_replying, is_writing, is_send_wait, is_end, IsSound, kept, quiet, IsSound-if,
  no_check,
}

module _ {W : Type 0} (chip : Chip W) (start : Loader W) where
  verify_crc-IsSound :
      (b : Loader W)
      → b.state ≡ crc_verification
      → Reach chip start b
      → IsSound chip start b
      → IsSound chip start (verify_crc chip b)
  unfolding verify_crc is_busy is_replying is_send_wait is_end is_writing
  verify_crc-IsSound b e r i = record {
    busy = λ h. absurd (ground arith);
    replying = λ h. absurd (ground arith);
    waiting = λ h t. i.busy (ap is_busy e);
    passed = λ h t u. record {
      earlier = b;
      reached = r;
      checking = e;
      same = refl;
      matches = matches-crc_fed chip b (ground arith);
    };
    ended = λ h. absurd (ground arith);
    whole = λ h. absurd (ground arith);
  }

  wait_round-IsSound : (b : Loader W) → IsSound chip start b → IsSound chip start (wait_round b)
  unfolding wait_round is_busy is_replying is_send_wait is_end is_writing
  wait_round-IsSound b i = split b.usb_wait_cnt
    where
      split :
          (w : Wait)
          → IsSound chip start (elim w [
            | wait_forever ↦ b
            | wait_for zero ↦ record b { state = timeout }
            | wait_for (suc n) ↦ record b { usb_wait_cnt = wait_for n }
          ])
      split wait_forever = i
      split (wait_for zero) = quiet chip start _ refl refl refl refl
      split (wait_for (suc n)) = kept chip start b _ refl refl refl refl i

  write_page-IsSound :
      (b : Loader W)
      → b.state ≡ write_flash
      → IsSound chip start b
      → IsSound chip start (write_page chip b)
  unfolding write_page is_busy is_replying is_send_wait is_end is_writing
  write_page-IsSound b e i =
      let other : ¬ (b.send.type ≡ 0x30) = λ t. omega (arith, i.replying (ap is_replying e)) in
      let addr = u32 (chip_app_start chip + b.page_cur_page * 256) in
      let erased = retry (flash_erase_256byte chip.flash addr) 5 b.world in
      let programmed = retry (flash_program_256byte chip.flash addr b.page_cur_buffer) 5 erased.1 in
      IsSound-if chip start ((erased.0 == 0) || (programmed.0 == 0)) _ _
        (λ _. quiet chip start _ refl refl refl refl) (λ _. no_check chip start _ refl other)

  pub update_in-IsSound :
      (s : State) (b : Loader W)
      → b.state ≡ s
      → Reach chip start b
      → IsSound chip start b
      → IsSound chip start (update_in chip s b)
  unfolding update_in tell_page_size is_busy is_replying is_send_wait is_end is_writing
  update_in-IsSound idle b e r i =
      IsSound-if chip start b.usb_is_ok _ _ (λ _. quiet chip start _ refl refl refl refl) (λ _. i)
  update_in-IsSound send_page_size b e r i = no_check chip start _ refl (λ t. omega arith)
  update_in-IsSound send_reply b e r i =
      no_check chip start _ refl (λ t. omega (arith, i.replying (ap is_replying e)))
  update_in-IsSound write_flash b e r i = write_page-IsSound b e i
  update_in-IsSound crc_verification b e r i = verify_crc-IsSound b e r i
  update_in-IsSound send_wait b e r i = wait_round-IsSound b i
  update_in-IsSound reve_wait b e r i = wait_round-IsSound b i
  update_in-IsSound timeout b e r i = quiet chip start _ refl refl refl refl
  update_in-IsSound end b e r i = kept chip start b _ refl refl refl refl i
