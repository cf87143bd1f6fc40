-- ===== src/Dap/SwdTransfer.antt =====
-- `dap_swd_transfer` of cmsis-dap/dap_main.c.
pub mod Count
use cherry_link.Base.{
  ℕ, zero, suc, ◌+◌, Bool, true, false, ◌&&◌, ◌||◌, Option, none, some, bit_and, bit_or, ◌==◌,
  if◌then◌else◌, u16, has, Memory, read_u32,
}
use cherry_link.Dap.Driver.{Driver, Reply}
use cherry_link.Dap.Machine.{
  Info, Machine, advance_req, advance_resp, put_word, store_reply, set_ack, set_info,
}
use cherry_link.Dap.Flow.{Flow, next, stop, ◌>>=◌, loop_rounds}
use cherry_link.Dap.Skip.{skip_to, skip_rounds}
use cherry_link.Dap.Codes.{
  ap_n_dp, rn_w, match_value_flag, match_mask_flag, timestamp_flag, transfer_ok, transfer_mismatch,
  read_buffer,
}

-- The machine and the local variables: `word` is `data`.
pub record SwdLoop (W : Type 0) : Type 0 where
  pub machine : Machine W
  pub post_read : Bool
  pub check_write : Bool
  pub word : ℕ

-- what a variable holds after a word may have been stored in it
abbrev pub word_or : ℕ → Option ℕ → ℕ
word_or old none = old
word_or old (some v) = v

module _ {W : Type 0} where
  abbrev pub on_machine : (Machine W → Machine W) → SwdLoop W → SwdLoop W
  on_machine f l = record l { machine = f l.machine }

  -- `if (transfer->transfer_ack != DAP_TRANSFER_OK) break;`
  abbrev pub check_ack : SwdLoop W → Flow (SwdLoop W)
  check_ack l = if l.machine.transfer_ack == transfer_ok then next l else stop l

  -- `transfer->transfer_ack = DAP_TRANSFER_OK` with the new `match_mask`
  unfoldable pub set_match_mask : Memory → Machine W → Machine W
  set_match_mask request m =
      let m1 = set_info (record (m.info) { match_mask = read_u32 request m.req_ptr }) m in
      record (advance_req 4 m1) { transfer_ack = transfer_ok }

module _ {W : Type 0} (d : Driver W) where
  open d use {swd_read, swd_get_timestamp, abort_requested}

  -- `dap_info.do_abort`, which `dap_do_abort` may set in another thread
  abbrev pub aborting : Machine W → Bool
  aborting m = m.info.do_abort || abort_requested m.world

  -- `dap_swd_read(q, response + transfer->resp_ptr)`
  unfoldable pub swd_read_response : ℕ → Machine W → Machine W
  swd_read_response q m = let r = swd_read q m.world in set_ack r.ack r.world (store_reply r.word m)

  -- `dap_swd_read(q, NULL)`
  unfoldable pub swd_read_nowhere : ℕ → Machine W → Machine W
  swd_read_nowhere q m = let r = swd_read q m.world in set_ack r.ack r.world m

  -- `dap_swd_read(q, &data)`
  unfoldable pub swd_read_word : ℕ → SwdLoop W → SwdLoop W
  swd_read_word q l =
      let r = swd_read q l.machine.world in
      record l { machine = set_ack r.ack r.world l.machine; word = word_or l.word r.word }

  unfoldable pub put_timestamp : ℕ → Machine W → Machine W
  put_timestamp q m = if has q timestamp_flag then put_word (swd_get_timestamp m.world) m else m

  -- The word of a posted read: by the next read of the same kind, or else from `DP_RDBUFF`.
  unfoldable pub swd_collect : ℕ → SwdLoop W → Flow (SwdLoop W)
  unfolding swd_read_response put_timestamp
  swd_collect q l =
      if l.post_read
      then (let again = bit_and q (ap_n_dp + match_value_flag) == ap_n_dp in
          let l1 =
            if again
            then on_machine (swd_read_response q) l
            else record (on_machine (swd_read_response read_buffer) l) { post_read = false } in
          do
            l2 ← check_ack l1
            let l3 = on_machine (advance_resp 4) l2
            next (if l3.post_read then on_machine (put_timestamp q) l3 else l3))
      else next l

  -- The `do … while` of a matched read, by the retries left.
  unfoldable pub swd_match_loop : ℕ → ℕ → ℕ → SwdLoop W → SwdLoop W
  unfolding swd_read_word
  swd_match_loop q value zero l = swd_read_word q l
  swd_match_loop q value (suc retry) l =
      let l1 = swd_read_word q l in
      let rest = swd_match_loop q value retry l1 in
      let m = l1.machine in
      if m.transfer_ack == transfer_ok
      then (if bit_and l1.word m.info.match_mask == value
          then l1
          else if aborting m
          then l1
          else rest)
      else l1

module _ {W : Type 0} (d : Driver W) (request : Memory) where
  open d use {swd_write}

  -- A read whose value is to be matched.
  unfoldable pub swd_match : ℕ → SwdLoop W → Flow (SwdLoop W)
  unfolding swd_match_loop swd_read_nowhere
  swd_match q l = do
    let value = read_u32 request l.machine.req_ptr
    let l1 = on_machine (advance_req 4) l
    l2 ← if has q ap_n_dp then check_ack (on_machine (swd_read_nowhere d q) l1) else next l1
    let l3 = swd_match_loop d q value l2.machine.info.match_retry l2
    let l4 =
        if bit_and l3.word l3.machine.info.match_mask == value
        then l3
        else on_machine (λ m. record m { transfer_ack = bit_or m.transfer_ack transfer_mismatch })
            l3
    check_ack l4

  -- A read whose value goes into the response: at once from a DP register, posted from an AP.
  unfoldable pub swd_plain_read : ℕ → SwdLoop W → Flow (SwdLoop W)
  unfolding swd_read_nowhere swd_read_word put_timestamp
  swd_plain_read q l =
      if has q ap_n_dp
      then (if l.post_read then next l else (do
        l1 ← check_ack (on_machine (swd_read_nowhere d q) l)
        next (record (on_machine (put_timestamp d q) l1) { post_read = true })))
      else (do
        l1 ← check_ack (swd_read_word d q l)
        next (on_machine (put_word l1.word) (on_machine (put_timestamp d q) l1)))

  unfoldable pub swd_read_round : ℕ → SwdLoop W → Flow (SwdLoop W)
  unfolding swd_collect swd_match swd_plain_read
  swd_read_round q l = do
    l1 ← swd_collect d q l
    l2 ← if has q match_value_flag then swd_match q l1 else swd_plain_read q l1
    next (record l2 { check_write = false })

  -- Before a write, the word of a posted read is taken from `DP_RDBUFF`.
  unfoldable pub swd_flush : SwdLoop W → Flow (SwdLoop W)
  unfolding swd_read_response
  swd_flush l =
      if l.post_read
      then (do
        l1 ← check_ack (on_machine (swd_read_response d read_buffer) l)
        next (record (on_machine (advance_resp 4) l1) { post_read = false }))
      else next l

  unfoldable pub swd_write_word : ℕ → SwdLoop W → Flow (SwdLoop W)
  unfolding put_timestamp
  swd_write_word q l =
      let m = l.machine in
      let r = swd_write q (read_u32 request m.req_ptr) m.world in
      do
        l1 ← check_ack (record l { machine = set_ack r.ack r.world (advance_req 4 m) })
        next (record (on_machine (put_timestamp d q) l1) { check_write = true })

  unfoldable pub swd_write_round : ℕ → SwdLoop W → Flow (SwdLoop W)
  unfolding swd_flush swd_write_word set_match_mask
  swd_write_round q l = do
    l1 ← swd_flush l
    if has q match_mask_flag
        then next (on_machine (set_match_mask request) l1)
        else swd_write_word q l1

  -- A round of the first loop.
  unfoldable pub swd_round : SwdLoop W → Flow (SwdLoop W)
  unfolding swd_read_round swd_write_round
  swd_round l = do
    let q = request l.machine.req_ptr
    let l1 =
        on_machine (λ m. advance_req 1 (record m { transfer_cnt = u16 (m.transfer_cnt + 1) })) l
    l2 ← if has q rn_w then swd_read_round q l1 else swd_write_round q l1
    if aborting d l2.machine then stop l2 else next l2

  -- What stands after the loops.
  unfoldable pub swd_finish : SwdLoop W → Machine W
  unfolding swd_read_response swd_read_nowhere
  swd_finish l =
      if l.machine.transfer_ack == transfer_ok
      then (if l.post_read
          then (let m = swd_read_response d read_buffer l.machine in
              if m.transfer_ack == transfer_ok then advance_resp 4 m else m)
          else if l.check_write
          then swd_read_nowhere d read_buffer l.machine
          else l.machine)
      else l.machine

  unfoldable pub dap_swd_transfer : Machine W → Machine W
  dap_swd_transfer m =
      let transfer_num = request (m.req_ptr + 1) in
      let m1 = record (advance_resp 2 (advance_req 2 m)) { transfer_cnt = 0; transfer_ack = 0 } in
      let l =
        loop_rounds swd_round transfer_num
          (record { machine = m1; post_read = false; check_write = false; word = 0 }) in
      swd_finish (on_machine (skip_to request transfer_num) l)
