-- ===== src/Boot/Update.antt =====
-- `boot_update_main` of bootloader/usb_main.c.
use cherry_link.Base.{
  ℕ, zero, suc, ◌+◌, ◌*◌, ◌/◌, Bool, true, not, ◌||◌, ◌==◌, if◌then◌else◌, u32, read_u32,
}
use cherry_link.Board.Flash.{flash_lock, flash_unlock, flash_erase_256byte, flash_program_256byte}
use cherry_link.Boot.Message.{no_flags, cmd_send_page_size, cmd_crc_send}
use cherry_link.Boot.Loader.{
  State, idle, send_page_size, send_reply, write_flash, crc_verification, send_wait, reve_wait,
  timeout, end, wait_forever, wait_for, Loader, Chip, chip_app_start, crc_cal_data, usb_data_init,
  chip_flash_page_size, send_wait_time, write_wait_time,
}

module _ {W : Type 0} where
  -- `while (op) { usb_wait_cnt--; if (usb_wait_cnt == 0) { …; break; } }`, with what is left of
  -- `usb_wait_cnt`: zero if and only if the state became `BOOT_TIMEOUT`.
  unfoldable pub retry : (W → ℕ × W) → ℕ → W → ℕ × W
  retry op zero w = (0, w)
  retry op (suc left) w =
      let (failed, w') = op w in
      let rest = retry op left w' in if failed == 0 then (suc left, w') else rest

  -- The state is `BOOT_SEND_WAIT`, and a header goes out.
  abbrev pub send_now : Loader W → Loader W
  send_now b = record b {
    state = send_wait;
    usb_wait_cnt = wait_for send_wait_time;
    writing = true;
  }

  -- a round of the two waiting states
  unfoldable pub wait_round : Loader W → Loader W
  wait_round b = elim (b.usb_wait_cnt) [
    | wait_forever ↦ b
    | wait_for zero ↦ record b { state = timeout }
    | wait_for (suc n) ↦ record b { usb_wait_cnt = wait_for n }
  ]

module _ {W : Type 0} (chip : Chip W) where
  open chip use {flash, crc_reset}

  -- `case BOOT_WRITE_FLASH`
  unfoldable pub write_page : Loader W → Loader W
  unfolding retry
  write_page b =
      let addr = u32 (chip_app_start chip + b.page_cur_page * chip_flash_page_size) in
      let erased = retry (flash_erase_256byte flash addr) write_wait_time b.world in
      let programmed =
        retry (flash_program_256byte flash addr b.page_cur_buffer) write_wait_time erased.1 in
      if (erased.0 == 0) || (programmed.0 == 0)
      then record b { state = timeout; usb_wait_cnt = wait_for programmed.0; world = programmed.1 }
      else send_now (record b { reading = true; world = programmed.1 })

  -- What the CRC unit gives for the pages that the last packet counts, and the chip after it.
  unfoldable pub crc_of_pages : Loader W → ℕ × W
  crc_of_pages b =
      crc_cal_data chip (chip_app_start chip) (b.rece.header.value * chip_flash_page_size / 4)
        (crc_reset b.world)

  -- whether it is the value that the last packet holds
  unfoldable pub crc_matches : Loader W → Bool
  unfolding crc_of_pages
  crc_matches b = read_u32 b.rece.message_data 0 == (crc_of_pages b).0

  -- `case BOOT_CRC_VERIFICATION`
  unfoldable pub verify_crc : Loader W → Loader W
  unfolding crc_of_pages crc_matches
  verify_crc b = send_now (record b {
    send = record {
      type = cmd_crc_send;
      request = record no_flags { crc_unmatched = not (crc_matches b) };
      value = 0;
      index = 0;
      length = 0;
    };
    world = (crc_of_pages b).1;
  })

  -- `case BOOT_SEND_PAGE_SIZE`
  unfoldable pub tell_page_size : Loader W → Loader W
  tell_page_size b = send_now (record b {
    send = record {
      type = cmd_send_page_size;
      request = no_flags;
      value = chip_flash_page_size;
      index = 0;
      length = 0;
    };
    reading = true;
    world = flash_unlock flash b.world;
  })

  -- The switch, in the state given.
  unfoldable pub update_in : State → Loader W → Loader W
  unfolding write_page verify_crc tell_page_size wait_round
  update_in idle b =
      if b.usb_is_ok
      then record b { state = reve_wait; usb_wait_cnt = wait_forever; reading = true }
      else b
  update_in send_page_size b = tell_page_size b
  update_in send_reply b = send_now (record b { reading = true })
  update_in write_flash b = write_page b
  update_in crc_verification b = verify_crc b
  update_in send_wait b = wait_round b
  update_in reve_wait b = wait_round b
  update_in timeout b = usb_data_init b
  update_in end b = record b { world = flash_lock flash b.world }

  unfoldable pub boot_update_main : Loader W → Loader W
  unfolding update_in
  boot_update_main b = update_in b.state b
