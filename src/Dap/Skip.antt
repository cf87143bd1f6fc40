-- ===== src/Dap/Skip.antt =====
-- What cmsis-dap/dap_main.c does with the transfers that it does not carry out: the closing loops
-- of `dap_swd_transfer` and `dap_jtag_transfer`, `dap_dummy_transfer`, `dap_dummy_transfer_block`.
pub mod Laws
pub mod Encoded
use cherry_link.Base.{
  ℕ, zero, suc, ◌+◌, ◌-◌, ◌*◌, ◌%◌, ◌^◌, Bool, true, false, if◌then◌else◌, has, u16, Memory,
  read_u16,
}
use cherry_link.Dap.Machine.{Machine, advance_req, put}
use cherry_link.Dap.Codes.{rn_w, match_value_flag}

-- A read carries a word only if a value is to be matched; a write always does.
abbrev pub carries_word : ℕ → Bool
carries_word q = if has q rn_w then has q match_value_flag else true

module _ {W : Type 0} (request : Memory) where
  unfoldable pub skip_request : Machine W → Machine W
  skip_request m =
      let q = request m.req_ptr in
      let m1 = advance_req 1 m in if carries_word q then advance_req 4 m1 else m1

  -- `while (transfer->transfer_cnt < transfer_num)`, by the rounds left
  unfoldable pub skip_rounds : ℕ → Machine W → Machine W
  unfolding skip_request
  skip_rounds zero m = m
  skip_rounds (suc n) m =
      let m1 = skip_request m in
      skip_rounds n (record m1 { transfer_cnt = u16 (m1.transfer_cnt + 1) })

  abbrev pub skip_to : ℕ → Machine W → Machine W
  skip_to transfer_num m = skip_rounds (transfer_num - m.transfer_cnt) m

  -- `while (transfer_num--)`
  unfoldable pub skip_requests : ℕ → Machine W → Machine W
  unfolding skip_request
  skip_requests zero m = m
  skip_requests (suc n) m = skip_requests n (skip_request m)

  unfoldable pub dap_dummy_transfer : Machine W → Machine W
  dap_dummy_transfer m = put 0 (put 0 (skip_requests (request (m.req_ptr + 1)) (advance_req 2 m)))

  unfoldable pub dap_dummy_transfer_block : Machine W → Machine W
  dap_dummy_transfer_block m =
      if has (request (m.req_ptr + 3)) rn_w
      then advance_req 4 m
      else advance_req (4 + 4 * read_u16 request (m.req_ptr + 1)) m
