-- ===== src/Swd.antt =====
-- cmsis-dap/swd.c: the SWD line protocol.
pub mod Parity
pub mod Control
pub mod Read
pub mod Write
pub mod Bits
pub mod Results
pub mod Rounds
pub mod Pace
pub mod Scope
pub mod Bounds
