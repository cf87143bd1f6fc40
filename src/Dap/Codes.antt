-- ===== src/Dap/Codes.antt =====
-- The numbers of cmsis-dap/dap_main.h and board/ch32f205_dap_config.h.
use cherry_link.Base.{ℕ}

abbrev pub dap_ok : ℕ
dap_ok = 0

abbrev pub dap_error : ℕ
dap_error = 0xff

abbrev pub dap_port_disabled : ℕ
dap_port_disabled = 0

abbrev pub dap_port_swd : ℕ
dap_port_swd = 1

abbrev pub dap_port_jtag : ℕ
dap_port_jtag = 2

abbrev pub dap_default_port : ℕ
dap_default_port = 1

abbrev pub dap_jtag_dev_cnt : ℕ
dap_jtag_dev_cnt = 4

abbrev pub dap_default_swj_clock : ℕ
dap_default_swj_clock = 4500000

abbrev pub dap_packet_size : ℕ
dap_packet_size = 512

abbrev pub dap_packet_count : ℕ
dap_packet_count = 4

abbrev pub timestamp_clock : ℕ
timestamp_clock = 144000000

-- `DAP_TRANSFER_*`: the flags of a transfer request
abbrev pub ap_n_dp : ℕ
ap_n_dp = 1

abbrev pub rn_w : ℕ
rn_w = 2

abbrev pub match_value_flag : ℕ
match_value_flag = 16

abbrev pub match_mask_flag : ℕ
match_mask_flag = 32

abbrev pub timestamp_flag : ℕ
timestamp_flag = 128

-- `DAP_TRANSFER_*`: the acknowledges
abbrev pub transfer_ok : ℕ
transfer_ok = 1

abbrev pub transfer_wait : ℕ
transfer_wait = 2

abbrev pub transfer_fault : ℕ
transfer_fault = 4

abbrev pub transfer_mismatch : ℕ
transfer_mismatch = 16

abbrev pub dp_abort : ℕ
dp_abort = 0

-- `DP_RDBUFF | DAP_TRANSFER_RnW`
abbrev pub read_buffer : ℕ
read_buffer = 0x0e

abbrev pub jtag_abort : ℕ
jtag_abort = 0x08

abbrev pub jtag_dpacc : ℕ
jtag_dpacc = 0x0a

abbrev pub jtag_apacc : ℕ
jtag_apacc = 0x0b

abbrev pub jtag_idcode : ℕ
jtag_idcode = 0x0e
