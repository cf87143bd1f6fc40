-- ===== src/Dap/Machine.antt =====
-- The state of cmsis-dap/dap_main.c: `dap_info`, `dap_transfer`, the response packet, the flag of
-- cmsis-dap/dap_vendor.c, and the world behind the drivers.
use cherry_link.Base.{
  ℕ, ◌+◌, Bool, Option, none, some, List, [], ◌∷◌, u16, u8, Memory, write, write_u32,
}

-- `dap_info_t`. The arrays `ir_length`, `ir_before` and `ir_after` have a place for each of the
-- `DAP_JTAG_DEV_CNT` devices.
pub record Info : Type 0 where
  pub port : ℕ
  pub do_abort : Bool
  pub port_io_need_reconfig : Bool
  pub speed_khz : ℕ
  pub idle_cycles : ℕ
  pub retry_count : ℕ
  pub match_retry : ℕ
  pub match_mask : ℕ
  pub turnaround : ℕ
  pub data_phase : ℕ
  pub count : ℕ
  pub index : ℕ
  pub ir_length : List ℕ
  pub ir_before : List ℕ
  pub ir_after : List ℕ
  pub buf_tdi : ℕ
  pub buf_tms : ℕ
  pub buf_tdo : ℕ

-- `dap_transfer_t`, the response packet, and what else a command can touch.
-- `fault` tells that an access went out of an array or a shift out of its width, which C leaves
-- undefined; `hung` that the polling of the pins took more rounds than the fuel; `reset` that the
-- chip was restarted.
pub record Machine (W : Type 0) : Type 0 where
  pub info : Info
  pub req_ptr : ℕ
  pub resp_ptr : ℕ
  pub transfer_cnt : ℕ
  pub transfer_ack : ℕ
  pub response : Memory
  pub update_flag : ℕ
  pub fault : Bool
  pub hung : Bool
  pub reset : Bool
  pub world : W

-- `memcpy` of a list of bytes into the response
abbrev pub write_list : Memory → ℕ → List ℕ → Memory
write_list r p [] = r
write_list r p (b ∷ bs) = write_list (write r p b) (p + 1) bs

module _ {W : Type 0} where
  -- `transfer->req_ptr += n`
  abbrev pub advance_req : ℕ → Machine W → Machine W
  advance_req n m = record m { req_ptr = u16 (m.req_ptr + n) }

  -- `transfer->resp_ptr += n`
  abbrev pub advance_resp : ℕ → Machine W → Machine W
  advance_resp n m = record m { resp_ptr = u16 (m.resp_ptr + n) }

  -- `response[transfer->resp_ptr++] = v`
  abbrev pub put : ℕ → Machine W → Machine W
  put v m = record m {
    response = write m.response m.resp_ptr (u8 v);
    resp_ptr = u16 (m.resp_ptr + 1);
  }

  -- a 32-bit word stored at `response + transfer->resp_ptr`
  abbrev pub store_word : ℕ → Machine W → Machine W
  store_word v m = record m { response = write_u32 m.response m.resp_ptr v }

  -- `__UNALIGNED_UINT32_WRITE(response + transfer->resp_ptr, v); transfer->resp_ptr += 4`
  abbrev pub put_word : ℕ → Machine W → Machine W
  put_word v m = advance_resp 4 (store_word v m)

  abbrev pub store_reply : Option ℕ → Machine W → Machine W
  store_reply none m = m
  store_reply (some v) m = store_word v m

  abbrev pub touch : (W → W) → Machine W → Machine W
  touch f m = record m { world = f m.world }

  abbrev pub set_info : Info → Machine W → Machine W
  set_info i m = record m { info = i }

  abbrev pub set_ack : ℕ → W → Machine W → Machine W
  set_ack a w m = record m { transfer_ack = u16 a; world = w }
