-- ===== src/Dap/Info.antt =====
-- `get_dap_info` of cmsis-dap/dap_main.c.
use cherry_link.Base.{ℕ, ◌+◌, ◌≤◌, List, [], ◌∷◌, arith, length, ◌==◌, if◌then◌else◌, u8, shr}
use cherry_link.Dap.Codes.{dap_packet_size, dap_packet_count, timestamp_clock}

-- The bytes of an answer; `get_dap_info` stores them and returns their number. `DAP_FW_Ver` is
-- "1.0.0" with its closing zero. What the switch does not name is empty.
unfoldable pub get_dap_info : ℕ → List ℕ
get_dap_info id =
    if id == 4
    then b'1' ∷ b'.' ∷ b'0' ∷ b'.' ∷ b'0' ∷ 0 ∷ []
    else if id == 0xf0
    then (1 + 2 + 16 + 32) ∷ []
    else if id == 0xf1
    then u8 timestamp_clock
      ∷ u8 (shr timestamp_clock 8)
      ∷ u8 (shr timestamp_clock 16)
      ∷ u8 (shr timestamp_clock 24)
      ∷ []
    else if id == 0xff
    then u8 dap_packet_size ∷ u8 (shr dap_packet_size 8) ∷ []
    else if id == 0xfe
    then dap_packet_count ∷ []
    else []

pub length-get_dap_info : (id : ℕ) → length (get_dap_info id) ≤ 6
unfolding get_dap_info
length-get_dap_info id = ground arith
