-- ===== src/Jtag.antt =====
-- cmsis-dap/jtag.c: the JTAG line protocol.
pub mod Control
pub mod Shift
pub mod Scan
pub mod Access
pub mod Pace
pub mod Tap
pub mod Probe
