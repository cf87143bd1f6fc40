-- ===== src/Boot/Loader.antt =====
-- The state of bootloader/usb_main.c, and what it calls outside itself.
use cherry_link.Base.{ℕ, zero, suc, ◌+◌, Bool, true, u32, Memory}
use cherry_link.Board.Flash.{Controller}
use cherry_link.Boot.Message.{Header, Packet, no_header, no_packet}

-- `boot_main_state_t`
pub data State : Type 0 where
  idle send_page_size send_reply write_flash crc_verification send_wait reve_wait timeout end :
      State

-- `usb_wait_cnt`, with `wait_forever` for `BOOT_USB_WAIT_FOREVER`; it holds no other negative number
pub data Wait : Type 0 where
  wait_forever : Wait
  wait_for : ℕ → Wait

-- `reading` and `writing` tell that the USB stack was given a buffer to fill or to send. `fault` is
-- a store past `page_cur_buffer`. `world` is the chip.
pub record Loader (W : Type 0) : Type 0 where
  pub state : State
  pub usb_is_ok : Bool
  pub usb_wait_cnt : Wait
  pub page_cur_page : ℕ
  pub page_cur_index : ℕ
  pub page_cur_point : ℕ
  pub page_cur_buffer : Memory
  pub rece : Packet
  pub send : Header
  pub reading : Bool
  pub writing : Bool
  pub fault : Bool
  pub world : W

-- `boot_size` is what the build gives `CONFIG_BOOT_SIZE`; `load` reads a word of the flash, and the
-- others are the registers of the CRC unit.
pub record Chip (W : Type 0) : Type 0 where
  pub boot_size : ℕ
  pub flash : Controller W
  pub load : ℕ → W → ℕ
  pub crc_reset : W → W
  pub crc_feed : ℕ → W → W
  pub crc_value : W → ℕ

abbrev pub chip_flash_page_size : ℕ
chip_flash_page_size = 256

abbrev pub reve_wait_time : ℕ
reve_wait_time = 0xffff

abbrev pub send_wait_time : ℕ
send_wait_time = 0xffff

abbrev pub write_wait_time : ℕ
write_wait_time = 5

module _ {W : Type 0} (chip : Chip W) where
  open chip use {boot_size, load, crc_feed, crc_value}

  abbrev pub chip_app_start : ℕ
  chip_app_start = 0x08000000 + boot_size

  -- The words from `addr` on go through the CRC unit.
  unfoldable pub crc_feed_all : ℕ → ℕ → W → W
  crc_feed_all addr zero w = w
  crc_feed_all addr (suc len) w = crc_feed_all (addr + 4) len (crc_feed (load (u32 addr) w) w)

  unfoldable pub crc_cal_data : ℕ → ℕ → W → ℕ × W
  crc_cal_data addr len w = let w' = crc_feed_all addr len w in (crc_value w', w')

module _ {W : Type 0} where
  -- `usb_data_init`
  abbrev pub usb_data_init : Loader W → Loader W
  usb_data_init b = record b {
    state = idle;
    usb_wait_cnt = wait_forever;
    page_cur_page = 0;
    page_cur_index = 0;
    page_cur_point = 0;
    page_cur_buffer = λ i. 0;
    rece = no_packet;
    send = no_header;
  }

  abbrev pub usb_transfer_start : Loader W → Loader W
  usb_transfer_start b = record (usb_data_init b) { usb_is_ok = true }
