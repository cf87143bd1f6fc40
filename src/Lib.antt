-- ===== src/Lib.antt =====
-- CherryLink is the firmware of a CMSIS-DAP debug probe on a CH32F205: a boot loader and an
-- application. The application takes command packets from USB, and `dap_request_handler` of
-- cmsis-dap/dap_main.c turns each into an answer packet while it drives the target over SWD or JTAG.
--
-- How the parts stand in these files:
--
-- - Base, Bits: the comparisons and the fixed widths of C on natural numbers, memory, lists, and the
--   digits of bit operations.
-- - Wire: the pins, the SPI and the clock as the line drivers use them. What a register access does
--   to the state `W` of chip and target is a parameter. A loop that waits for the SPI goes as often as
--   the parameter says that polls see it busy.
-- - Swd: cmsis-dap/swd.c. Swd/Control has `swd_control`, Swd/Read and Swd/Write the transfers, quick
--   and slow, Swd/Bits the sequences outside of transfers, Swd/Parity the parities and the header byte.
--   A pass through a transfer, up to the `goto` back, is one function; Swd/Rounds is about the passes,
--   Swd/Results about what they answer, Swd/Pace about quick and slow, Swd/Bounds about parameters.
-- - Swd/Scope: one instance of Wire, which records the data line at each rising edge of the clock.
-- - Jtag: cmsis-dap/jtag.c. Jtag/Scan has the bits gathered by `dap_jtag_ir` and `dap_jtag_dr`,
--   Jtag/Shift the routines that shift them, Jtag/Access the functions that other files call,
--   Jtag/Tap the states of a JTAG device, and Jtag/Pace is about quick and slow.
-- - Jtag/Probe: one instance of Wire, which records TMS and TDI at each rising edge of the clock, and
--   whose TDO is a given sequence of levels.
-- - Board/Flash: board/ch32f205_flash.c, with the flash controller as a parameter.
-- - Boot: the update over USB of bootloader/usb_main.c, and the CRC of board/ch32f205_crc.c.
--   Boot/Message has the packets, Boot/Loader the state, Boot/Callbacks and Boot/Update the functions,
--   and Boot/Steps puts them together as steps in any order, up to a store past a buffer. The USB
--   stack is two flags, for a buffer
--   that it was given to fill or to send. A callback does not interrupt a round of the main loop.
-- - Dap/Driver: what cmsis-dap/dap_main.c calls in other files (cmsis-dap/swd.c, cmsis-dap/jtag.c, the
--   pins, lights, clock and backup register of board/). It is a record of functions on a state `W`,
--   a parameter of all that follows, so that each theorem holds for every target and every wire.
-- - Dap/Machine: `dap_info`, `dap_transfer`, the answer packet and the flags. `req_ptr` and `resp_ptr`
--   wrap at 2 ^ 16 as their `uint16_t` does. The request packet is a function from offsets to bytes.
-- - Dap/Port, Dap/Commands, Dap/Info, Dap/Sequences, Dap/Pins, Dap/Chain: a function for each command
--   of cmsis-dap/dap_main.c, under the name that it has there.
-- - Dap/SwdTransfer, Dap/JtagTransfer: the loops of `dap_swd_transfer` and `dap_jtag_transfer`, with
--   one function for each stage of a round. A `break` is the `stop` of Dap/Flow.
-- - Dap/Skip, Dap/Blocks: the requests that are skipped, the block transfers, and the abort.
-- - Dap/Vendor: cmsis-dap/dap_vendor.c.
-- - Dap/Handler: `dap_request_handler`. Its loop runs on fuel; as many rounds as the packet size are
--   enough. The polling of the pins has fuel of its own, and says by `hung` when it ran out;
--   Dap/Pins/Polling says of a driver that so many rounds are enough.
-- - Dap/Handler/Valid says which settings are valid, and that commands keep them so.
-- - Dap/Frame, Dap/Handler/Growth, Dap/Handler/BlockGrowth and Dap/Handler/Advance hold what the stages
--   and commands leave alone and by how much they move the answer.
-- - Application/Ring: of application/usb_main.c, the functions on the fields of the ring buffers between
--   USB and the serial port, and a round of the thread that follows the DMA. The two lengths that
--   RT-Thread gives of a ring buffer are a parameter. Application/Ring/Contents has what a buffer holds,
--   and Application/Ring/Following is about the thread.
-- - Tools/Merge: tools/merge_bin.c. The disk is a map from names to bytes.
-- - Tests: the theorems at concrete inputs, with a target that acknowledges all.
--
-- What C leaves undefined is a flag, `fault`: an index past the arrays of the JTAG chain, a store past
-- the page buffer of the boot loader, a shift past the width. Once it is set, the state says nothing
-- more about the program. Accesses past the packets are not tracked. `do_abort`, which another thread
-- may set, is asked of the driver wherever the code reads it.
--
-- Not modelled: the time that delays take, the other registers of board/, the entry of the boot
-- loader, the other threads of application/, and the copies of RT-Thread, CherryUSB and CMSIS.
pub mod Application
pub mod Base
pub mod Bits
pub mod Board
pub mod Boot
pub mod Wire
pub mod Swd
pub mod Jtag
pub mod Tools
pub mod Tests
pub mod Dap
