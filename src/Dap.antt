-- ===== src/Dap.antt =====
-- cmsis-dap/dap_main.c and cmsis-dap/dap_vendor.c: the commands of the debug probe.
pub mod Driver
pub mod Machine
pub mod Codes
pub mod Info
pub mod Port
pub mod Commands
pub mod Sequences
pub mod Pins
pub mod Chain
pub mod Skip
pub mod Flow
pub mod Frame
pub mod SwdTransfer
pub mod JtagTransfer
pub mod Blocks
pub mod Vendor
pub mod Handler
