-- ===== src/Tests/Swd.antt =====
-- The theorems on cmsis-dap/swd.c at concrete inputs.
use cherry_link.Base.{◌≡◌, refl, arith}
use cherry_link.Swd.Parity.{
  get_parity_32bit, ones_parity, get_parity_32bit-eq-ones_parity, request_header, swd_header,
  request_header-eq-swd_header,
}

get_parity_32bit-eq-ones_parity_example : get_parity_32bit 0xdeadbeef ≡ ones_parity 32 0xdeadbeef
get_parity_32bit-eq-ones_parity_example = get_parity_32bit-eq-ones_parity 0xdeadbeef

odd_word : get_parity_32bit 7 ≡ 1
unfolding get_parity_32bit
odd_word = refl

request_header-eq-swd_header_example : request_header 0x0e ≡ swd_header 0x0e
request_header-eq-swd_header_example = request_header-eq-swd_header 0x0e (omega arith)
