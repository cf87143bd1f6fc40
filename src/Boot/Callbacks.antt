-- ===== src/Boot/Callbacks.antt =====
-- `boot_out_callback` and `boot_in_callback` of bootloader/usb_main.c.
use Prim.Native.Nat.{min}
use cherry_link.Base.{
  ℕ, zero, suc, ◌+◌, ◌%◌, true, not, ◌&&◌, ◌||◌, ◌==◌, leb, if◌then◌else◌, u16, write,
}
use cherry_link.Boot.Message.{
  no_flags, cmd_reve_page_size, cmd_firmware_data, cmd_firmware_data_reply, cmd_crc_send,
}
use cherry_link.Boot.Loader.{
  send_page_size, send_reply, write_flash, crc_verification, send_wait, reve_wait, timeout, end,
  wait_for, Loader, chip_flash_page_size, reve_wait_time,
}

module _ {W : Type 0} where
  -- `page_cur_buffer[page_cur_point++] = message_data[i]`
  abbrev pub copy_one : ℕ → Loader W → Loader W
  copy_one i b = record b {
    page_cur_buffer = write b.page_cur_buffer b.page_cur_point (b.rece.message_data i);
    page_cur_point = u16 (b.page_cur_point + 1);
    fault = b.fault || leb chip_flash_page_size b.page_cur_point;
  }

  -- the same for `n` bytes from number `i` on
  unfoldable pub copy_data : ℕ → ℕ → Loader W → Loader W
  copy_data zero i b = b
  copy_data (suc n) i b = copy_data n (i + 1) (copy_one i b)

  -- The answer to a packet that is not the first of its page.
  unfoldable pub ask_again : Loader W → Loader W
  ask_again b =
      let h = b.rece.header in
      record b {
        state = send_reply;
        send = record {
          type = cmd_firmware_data_reply;
          request = record no_flags {
            page_unmatched = not (b.page_cur_page == h.value);
            page_index_unmatched = not (b.page_cur_index + 1 == h.index);
          };
          value = b.page_cur_page;
          index = b.page_cur_index;
          length = 0;
        };
      }

  -- The first packet of a page, of `nbytes` bytes.
  unfoldable pub take_data : ℕ → Loader W → Loader W
  unfolding copy_data
  take_data nbytes b =
      let h = b.rece.header in
      let n = min nbytes h.length in
      let b1 = record b { page_cur_point = 0; page_cur_page = h.value; page_cur_index = h.index } in
      let b2 = copy_data n 0 b1 in
      let reply = record (b.send) {
        type = cmd_firmware_data_reply;
        request = no_flags;
        value = h.value;
        length = n;
      } in
      let acked = record reply { request = record no_flags { ack = true } } in
      let missed = record reply { request = record no_flags { page_subcontracting_miss = true } } in
      if h.request.page_index_end
      then (if b2.page_cur_point == chip_flash_page_size
          then record b2 { state = write_flash; send = acked }
          else record b2 { state = send_reply; send = missed })
      else record b2 { state = send_reply; send = acked }

  -- `boot_out_callback` while the state is `BOOT_REVE_WAIT`
  unfoldable pub take_packet : ℕ → Loader W → Loader W
  unfolding ask_again take_data
  take_packet nbytes b =
      let h = b.rece.header in
      if h.type == cmd_firmware_data
      then (if h.request.page_num_end
          then record b { state = crc_verification }
          else if h.request.page_index_start
          then take_data nbytes b
          else ask_again b)
      else if h.type == cmd_reve_page_size
      then record b { state = send_page_size }
      else b

  unfoldable pub boot_out_callback : ℕ → Loader W → Loader W
  boot_out_callback nbytes b = elim (b.state) [ reve_wait ↦ take_packet nbytes b | _ ↦ b ]

  -- `boot_in_callback` while the state is `BOOT_SEND_WAIT`
  unfoldable pub sent : Loader W → Loader W
  sent b =
      if b.send.type == cmd_crc_send
      then record b { state = if b.send.request.crc_unmatched then timeout else end }
      else record b { state = reve_wait; usb_wait_cnt = wait_for reve_wait_time }

  -- A full packet is followed by an empty one.
  unfoldable pub boot_in_callback : ℕ → Loader W → Loader W
  boot_in_callback nbytes b =
      if (nbytes % 512 == 0) && not (nbytes == 0)
      then record b { writing = true }
      else elim (b.state) [ send_wait ↦ sent b | _ ↦ b ]
