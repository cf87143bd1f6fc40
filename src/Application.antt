-- ===== src/Application.antt =====
-- The threads of application/usb_main.c.
pub mod Ring
