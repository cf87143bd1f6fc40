-- ===== src/Boot/Refused.antt =====
-- What becomes of a page that is to be written, and of an update that comes to a halt.
use mathlib.Core.Path.{subst}
use cherry_link.Base.{
  ℕ, zero, suc, ◌+◌, ◌*◌, ◌<◌, ◌≡◌, refl, sym, ap, ◌∙◌, Bool, true, false, arith, u32,
}
use cherry_link.Board.Flash.{flash_erase_256byte, flash_program_256byte}
use cherry_link.Board.Flash.Reject.{flash_256byte_rejects}
use cherry_link.Boot.Loader.{
  State, write_flash, send_wait, reve_wait, timeout, Wait, wait_forever, wait_for, Loader, Chip,
  chip_app_start,
}
use cherry_link.Boot.Message.{Packet, cmd_firmware_data, cmd_reve_page_size}
use cherry_link.Boot.Callbacks.{boot_out_callback, take_packet}
use cherry_link.Boot.Update.{retry, write_page, wait_round, update_in, boot_update_main}

-- the states in which the main loop counts down
unfoldable pub is_waiting : State → Bool
is_waiting s = elim s [ send_wait ↦ true | reve_wait ↦ true | _ ↦ false ]

module _ {W : Type 0} where
  retry-refused : (op : W → ℕ × W) (n : ℕ) (w : W) → op w ≡ (1, w) → retry op n w ≡ (0, w)
  unfolding retry
  retry-refused op zero w e = refl
  retry-refused op (suc n) w e = rw e (retry-refused op n w e)

module _ {W : Type 0} (chip : Chip W) where
  -- No page is ever written: for every build whose boot loader fits the 128 KiB of the flash, and
  -- every page number, the round of `BOOT_WRITE_FLASH` ends in `BOOT_TIMEOUT`, leaves the chip as it
  -- is and sends no answer.
  pub boot_update_main-refused :
      (b : Loader W)
      → b.state ≡ write_flash
      → chip.boot_size < 0x20000
      → b.page_cur_page < 65536
      → let b' = boot_update_main chip b in
        (b'.state ≡ timeout) × (b'.world ≡ b.world) × (b'.writing ≡ b.writing)
  unfolding boot_update_main update_in write_page
  boot_update_main-refused b e small page =
      let addr = u32 (chip_app_start chip + b.page_cur_page * 256) in
      let no =
        flash_256byte_rejects chip.flash addr b.page_cur_buffer b.world (omega arith)
          (omega arith) in
      let erased = retry-refused (flash_erase_256byte chip.flash addr) 5 b.world no.0 in
      let programmed =
        retry-refused (flash_program_256byte chip.flash addr b.page_cur_buffer) 5 b.world no.1 in
      rw (e, erased, programmed) (refl, refl, refl)

module _ {W : Type 0} (chip : Chip W) where
  -- `n` rounds of the main loop, with no callback between them
  pub main_rounds : ℕ → Loader W → Loader W
  main_rounds zero b = b
  main_rounds (suc n) b = main_rounds n (boot_update_main chip b)

  waiting_round :
      (b : Loader W) → is_waiting b.state ≡ true → boot_update_main chip b ≡ wait_round b
  unfolding boot_update_main update_in is_waiting
  waiting_round b h = split b.state h
    where
      split : (s : State) → is_waiting s ≡ true → update_in chip s b ≡ wait_round b
      split send_wait h = refl
      split reve_wait h = refl
      split s h = absurd (ground arith)

  gives_up :
      (b : Loader W)
      → is_waiting b.state ≡ true
      → b.usb_wait_cnt ≡ wait_for 0
      → b.usb_is_ok ≡ true
      → let b' = main_rounds 3 b in
        (b'.state ≡ reve_wait) × (b'.reading ≡ true) × (b'.usb_wait_cnt ≡ wait_forever)
  unfolding main_rounds wait_round boot_update_main update_in
  gives_up b h e ok = rw (waiting_round b h, e, ok) (refl, refl, refl)

  counts_down :
      (n : ℕ) (b : Loader W)
      → is_waiting b.state ≡ true
      → b.usb_wait_cnt ≡ wait_for (suc n)
      → boot_update_main chip b ≡ record b { usb_wait_cnt = wait_for n }
  unfolding wait_round
  counts_down n b h e = rw (waiting_round b h, e) refl

  -- A wait that has an end is left: in a waiting state whose count is at `n`, and not without bound,
  -- with the USB connected, `n` rounds of the main loop and three more, with no callback between
  -- them, lead to the loader that waits without bound for a new packet, with a buffer given for it.
  pub main_rounds_recover :
      (n : ℕ) (b : Loader W)
      → is_waiting b.state ≡ true
      → b.usb_wait_cnt ≡ wait_for n
      → b.usb_is_ok ≡ true
      → let b' = main_rounds (suc (suc (suc n))) b in
        (b'.state ≡ reve_wait) × (b'.reading ≡ true) × (b'.usb_wait_cnt ≡ wait_forever)
  unfolding main_rounds
  main_rounds_recover zero b h e ok = gives_up b h e ok
  main_rounds_recover (suc n) b h e ok =
      let b1 = record b { usb_wait_cnt = wait_for n } in
      subst
        (λ x.
          let b' = main_rounds (suc (suc (suc n))) x in
          (b'.state ≡ reve_wait) × (b'.reading ≡ true) × (b'.usb_wait_cnt ≡ wait_forever))
        (sym (counts_down n b h e)) (main_rounds_recover n b1 h refl ok)

  stays_waiting : (b : Loader W) → b.usb_wait_cnt ≡ wait_forever → wait_round b ≡ b
  unfolding wait_round
  stays_waiting b f = split b.usb_wait_cnt f
    where
      split :
          (w : Wait)
          → w ≡ wait_forever
          → (elim w [
            | wait_forever ↦ b
            | wait_for zero ↦ record b { state = timeout }
            | wait_for (suc n) ↦ record b { usb_wait_cnt = wait_for n }
          ])
            ≡ b
      split wait_forever f = refl
      split (wait_for n) f = absurd (ground arith)

  waits_on :
      (n : ℕ) (b : Loader W)
      → b.state ≡ reve_wait
      → b.usb_wait_cnt ≡ wait_forever
      → main_rounds n b ≡ b
  unfolding main_rounds boot_update_main update_in wait_round
  waits_on zero b e f = refl
  waits_on (suc n) b e f =
      let same : boot_update_main chip b ≡ b = ap (λ s. update_in chip s b) e ∙ stays_waiting b f in
      ap (main_rounds n) same ∙ waits_on n b e f

  -- An unknown packet hangs the loader: in a wait without bound, a packet whose type is neither
  -- that of the firmware data nor that of the question for the page size uses up the buffer that was
  -- given for it, and however many rounds of the main loop follow, no new one is given, nothing is
  -- given to be sent, and the state stays as it is.
  pub main_rounds-unknown_packet :
      (n nbytes : ℕ) (b : Loader W) (p : Packet)
      → b.state ≡ reve_wait
      → b.usb_wait_cnt ≡ wait_forever
      → b.writing ≡ false
      → ¬ (p.header.type ≡ cmd_firmware_data)
      → ¬ (p.header.type ≡ cmd_reve_page_size)
      → let b' =
          main_rounds n (boot_out_callback nbytes (record b { rece = p; reading = false })) in
        (b'.state ≡ reve_wait)
        × (b'.usb_wait_cnt ≡ wait_forever)
        × (b'.reading ≡ false)
        × (b'.writing ≡ false)
        × (b'.world ≡ b.world)
  unfolding boot_out_callback take_packet
  main_rounds-unknown_packet n nbytes b p e f w not_data not_size =
      let b1 = record b { rece = p; reading = false } in
      let same : boot_out_callback nbytes b1 ≡ b1 = rw e (ground arith) in
      let stays : main_rounds n (boot_out_callback nbytes b1) ≡ b1 =
        ap (main_rounds n) same ∙ waits_on n b1 e f in
      rw stays (e, f, refl, w, refl)
