-- ===== src/Tests.antt =====
-- The theorems at concrete inputs: a packet, a probe and a target.
mod Target
mod Board
mod Boot
mod Tools
mod Dap
mod Swd
mod SwdLine
mod Jtag
mod Rings
