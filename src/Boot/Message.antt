-- ===== src/Boot/Message.antt =====
-- The messages of bootloader/usb_main.c.
use cherry_link.Base.{ℕ, Bool, false, Memory}

-- the bits of `message_header_t.request`
pub record Flags : Type 0 where
  pub ack : Bool
  pub page_index_start : Bool
  pub page_index_end : Bool
  pub page_num_end : Bool
  pub page_unmatched : Bool
  pub page_index_unmatched : Bool
  pub page_subcontracting_miss : Bool
  pub crc_unmatched : Bool

-- `request.byte = 0`
abbrev pub no_flags : Flags
no_flags = record {
  ack = false;
  page_index_start = false;
  page_index_end = false;
  page_num_end = false;
  page_unmatched = false;
  page_index_unmatched = false;
  page_subcontracting_miss = false;
  crc_unmatched = false;
}

-- `message_header_t`
pub record Header : Type 0 where
  pub type : ℕ
  pub request : Flags
  pub value : ℕ
  pub index : ℕ
  pub length : ℕ

-- `message_packert_t`
pub record Packet : Type 0 where
  pub header : Header
  pub message_data : Memory

-- memory of zeros
abbrev pub no_header : Header
no_header = record { type = 0; request = no_flags; value = 0; index = 0; length = 0 }

abbrev pub no_packet : Packet
no_packet = record { header = no_header; message_data = λ i. 0 }

-- `BOOT_CMD_*`
abbrev pub cmd_send_page_size : ℕ
cmd_send_page_size = 0x10

abbrev pub cmd_reve_page_size : ℕ
cmd_reve_page_size = 0x11

abbrev pub cmd_firmware_data : ℕ
cmd_firmware_data = 0x21

abbrev pub cmd_firmware_data_reply : ℕ
cmd_firmware_data_reply = 0x20

abbrev pub cmd_crc_send : ℕ
cmd_crc_send = 0x30
