-- ===== src/Tests/Boot.antt =====
-- The theorems on bootloader/usb_main.c at concrete inputs.
use cherry_link.Base.{ℕ, ◌+◌, ◌==◌, if◌then◌else◌, ◌≡◌, refl, true, false, arith}
use cherry_link.Boot.Message.{Packet, no_flags, no_header, no_packet}
use cherry_link.Boot.Loader.{
  State, idle, write_flash, send_wait, reve_wait, timeout, end, Wait, wait_forever, wait_for,
  Loader, Chip, crc_cal_data, crc_feed_all,
}
use cherry_link.Boot.Callbacks.{
  boot_out_callback, boot_in_callback, take_packet, take_data, copy_data, sent,
}
use cherry_link.Boot.Update.{boot_update_main, crc_matches, crc_of_pages}
use cherry_link.Boot.Steps.{Reach, here, after, received, was_sent, round}
use cherry_link.Boot.Checked.{Passed, Whole}
use cherry_link.Boot.Checked.Ends.{end-Passed, write_flash-Whole}
use cherry_link.Boot.Refused.{
  is_waiting, boot_update_main-refused, main_rounds, main_rounds_recover,
  main_rounds-unknown_packet,
}

-- a flash that is always ready and empty; the CRC unit adds up what it is fed, in the world
abbrev chip : Chip ℕ
chip = record {
  boot_size = 0x5000;
  flash = record {
    ctlr_set = λ bits w. w;
    ctlr_clear = λ bits w. w;
    set_addr = λ addr w. w;
    set_key = λ key w. w;
    set_mode_key = λ key w. w;
    bsy = λ w. (false, w);
    wr_bsy = λ w. (false, w);
    store = λ addr v w. w;
  };
  load = λ addr w. 1;
  crc_reset = λ w. 0;
  crc_feed = λ v w. w + v;
  crc_value = λ w. w;
}

abbrev loader_in : State → Wait → Loader ℕ
loader_in state wait = record {
  state = state;
  usb_is_ok = true;
  usb_wait_cnt = wait;
  page_cur_page = 0;
  page_cur_index = 0;
  page_cur_point = 0;
  page_cur_buffer = λ i. 0;
  rece = no_packet;
  send = no_header;
  reading = false;
  writing = false;
  fault = false;
  world = 0;
}

abbrev start : Loader ℕ
start = loader_in idle wait_forever

-- the loader once it waits for its first packet
abbrev waiting_for_packet : Loader ℕ
waiting_for_packet = boot_update_main chip start

-- the closing packet of an update of one page, whose 64 words of one add up to 64
abbrev last_packet : Packet
last_packet = record {
  header = record {
    type = 0x21;
    request = record no_flags { page_num_end = true };
    value = 1;
    index = 0;
    length = 4;
  };
  message_data = λ i. if i == 0 then 64 else 0;
}

abbrev whole_page : Packet
whole_page = record {
  header = record {
    type = 0x21;
    request = record no_flags { page_index_start = true; page_index_end = true };
    value = 0;
    index = 0;
    length = 256;
  };
  message_data = λ i. 0;
}

is_reading : waiting_for_packet.reading ≡ true
unfolding boot_update_main
is_reading = refl

abbrev checking : Loader ℕ
checking = boot_out_callback 12 (record waiting_for_packet { rece = last_packet; reading = false })

abbrev answering : Loader ℕ
answering = boot_update_main chip checking

is_writing : answering.writing ≡ true
unfolding boot_update_main boot_out_callback take_packet
is_writing = refl

abbrev finished : Loader ℕ
finished = boot_in_callback 8 (record answering { writing = false })

finished_is_end : finished.state ≡ end
unfolding boot_update_main boot_in_callback boot_out_callback take_packet sent crc_matches
    crc_of_pages crc_cal_data crc_feed_all
finished_is_end = refl

Reach-finished : Reach chip start finished
unfolding boot_update_main boot_in_callback boot_out_callback take_packet sent crc_matches
    crc_of_pages crc_cal_data crc_feed_all
Reach-finished =
    after
      (after
        (after (after here (round start) refl)
          (received waiting_for_packet last_packet 12 is_reading) refl)
        (round checking) refl)
      (was_sent answering 8 is_writing) refl

end-Passed_example : Passed chip start finished
end-Passed_example = end-Passed chip start refl Reach-finished finished_is_end

abbrev page_taken : Loader ℕ
page_taken =
    boot_out_callback 264 (record waiting_for_packet { rece = whole_page; reading = false })

page_taken_is_write_flash : page_taken.state ≡ write_flash
unfolding boot_update_main boot_out_callback take_packet take_data
page_taken_is_write_flash = refl

Reach-page_taken : Reach chip start page_taken
unfolding boot_update_main boot_out_callback take_packet take_data copy_data
Reach-page_taken =
    after (after here (round start) refl) (received waiting_for_packet whole_page 264 is_reading)
      refl

write_flash-Whole_example : Whole page_taken
write_flash-Whole_example =
    write_flash-Whole chip start refl Reach-page_taken page_taken_is_write_flash

boot_update_main-refused_example :
    let b' = boot_update_main chip (loader_in write_flash wait_forever) in
    (b'.state ≡ timeout) × (b'.world ≡ 0) × (b'.writing ≡ false)
boot_update_main-refused_example =
    boot_update_main-refused chip (loader_in write_flash wait_forever) refl (omega arith)
      (omega arith)

main_rounds_recover_example :
    let b' = main_rounds chip 8 (loader_in send_wait (wait_for 5)) in
    (b'.state ≡ reve_wait) × (b'.reading ≡ true) × (b'.usb_wait_cnt ≡ wait_forever)
unfolding is_waiting
main_rounds_recover_example =
    main_rounds_recover chip 5 (loader_in send_wait (wait_for 5)) refl refl refl

main_rounds-unknown_packet_example :
    let b' = main_rounds chip 1000 (
      boot_out_callback 8 (record (record (loader_in reve_wait wait_forever) { reading = true }) {
        rece = no_packet;
        reading = false;
      })) in
    (b'.state ≡ reve_wait)
    × (b'.usb_wait_cnt ≡ wait_forever)
    × (b'.reading ≡ false)
    × (b'.writing ≡ false)
    × (b'.world ≡ 0)
main_rounds-unknown_packet_example =
    main_rounds-unknown_packet chip 1000 8
      (record (loader_in reve_wait wait_forever) { reading = true }) no_packet refl refl refl
      (λ e. omega arith) (λ e. omega arith)
