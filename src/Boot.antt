-- ===== src/Boot.antt =====
-- The firmware update of bootloader/usb_main.c, with board/ch32f205_crc.c.
pub mod Message
pub mod Loader
pub mod Update
pub mod Callbacks
pub mod Steps
pub mod Checked
pub mod Refused
