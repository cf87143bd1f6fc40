-- ===== src/Dap/JtagTransfer.antt =====
-- `dap_jtag_transfer` of cmsis-dap/dap_main.c.
pub mod Count
use cherry_link.Base.{
  ℕ, zero, suc, ◌+◌, ◌-◌, ◌%◌, ◌^◌, Bool, true, false, not, ◌&&◌, ◌||◌, Option, none, some, bit_and,
  bit_or, ◌==◌, leb, if◌then◌else◌, u16, has, Memory, read_u32,
}
use cherry_link.Dap.Driver.{Driver, Reply}
use cherry_link.Dap.Machine.{
  Info, Machine, advance_req, advance_resp, put_word, store_word, store_reply, set_ack, set_info,
}
use cherry_link.Dap.Flow.{Flow, next, stop, ◌>>=◌, loop_rounds}
use cherry_link.Dap.Skip.{skip_to, skip_rounds}
use cherry_link.Dap.SwdTransfer.{aborting, set_match_mask, word_or}
use cherry_link.Dap.Chain.{select_ir}
use cherry_link.Dap.Codes.{
  ap_n_dp, rn_w, match_value_flag, match_mask_flag, timestamp_flag, transfer_ok, transfer_mismatch,
  read_buffer, jtag_dpacc, jtag_apacc,
}

-- The machine and the local variables: `ir` is `jtag_ir`, `word` is `data`.
pub record JtagLoop (W : Type 0) : Type 0 where
  pub machine : Machine W
  pub post_read : Bool
  pub ir : ℕ
  pub word : ℕ

abbrev pub request_ir : ℕ → ℕ
request_ir q = if has q ap_n_dp then jtag_apacc else jtag_dpacc

module _ {W : Type 0} where
  abbrev pub on_machine : (Machine W → Machine W) → JtagLoop W → JtagLoop W
  on_machine f l = record l { machine = f l.machine }

  abbrev pub check_ack : JtagLoop W → Flow (JtagLoop W)
  check_ack l = if l.machine.transfer_ack == transfer_ok then next l else stop l

module _ {W : Type 0} (d : Driver W) where
  open d use {jtag_dr, jtag_get_timestamp}

  -- `if (jtag_ir != ir) { jtag_ir = ir; dap_jtag_ir(…); }`
  unfoldable pub select : ℕ → JtagLoop W → JtagLoop W
  select ir l = if l.ir == ir then l else record l { machine = select_ir d ir l.machine; ir = ir }

  -- `dap_jtag_dr` with `dr_before` and `dr_after`, which the index and the count determine
  abbrev pub shift_dr : ℕ → ℕ → Machine W → Reply W
  shift_dr q value m = jtag_dr q value i.index (u16 (i.count + 2 ^ 16 - i.index - 1)) m.world
    where
      open m use {info as i}

  -- … `response + transfer->resp_ptr)`
  unfoldable pub dr_response : ℕ → Machine W → Machine W
  dr_response q m = let r = shift_dr q 0 m in set_ack r.ack r.world (store_reply r.word m)

  -- … `NULL)`
  unfoldable pub dr_nowhere : ℕ → ℕ → Machine W → Machine W
  dr_nowhere q value m = let r = shift_dr q value m in set_ack r.ack r.world m

  -- … `&data)`
  unfoldable pub dr_word : ℕ → ℕ → JtagLoop W → JtagLoop W
  dr_word q value l =
      let r = shift_dr q value l.machine in
      record l { machine = set_ack r.ack r.world l.machine; word = word_or l.word r.word }

  unfoldable pub put_jtag_timestamp : ℕ → Machine W → Machine W
  put_jtag_timestamp q m =
      if has q timestamp_flag then put_word (jtag_get_timestamp m.world) m else m

  -- The word of a posted read: by the next read of the same register bank, or else from `DP_RDBUFF`.
  unfoldable pub jtag_collect : ℕ → JtagLoop W → Flow (JtagLoop W)
  unfolding select dr_response put_jtag_timestamp
  jtag_collect q l =
      if l.post_read
      then (let again = (l.ir == request_ir q) && not (has q match_value_flag) in
          do
            l1 ← if again then check_ack (on_machine (dr_response q) l) else (do
              l1 ← check_ack (on_machine (dr_response read_buffer) (select jtag_dpacc l))
              next (record l1 { post_read = false }))
            let l2 = on_machine (advance_resp 4) l1
            next (if l2.post_read then on_machine (put_jtag_timestamp q) l2 else l2))
      else next l

  unfoldable pub jtag_match_loop : ℕ → ℕ → ℕ → JtagLoop W → JtagLoop W
  unfolding dr_word
  jtag_match_loop q value zero l = dr_word q 0 l
  jtag_match_loop q value (suc retry) l =
      let l1 = dr_word q 0 l in
      let rest = jtag_match_loop q value retry l1 in
      let m = l1.machine in
      if m.transfer_ack == transfer_ok
      then (if bit_and l1.word m.info.match_mask == value
          then l1
          else if aborting d m
          then l1
          else rest)
      else l1

module _ {W : Type 0} (d : Driver W) (request : Memory) where
  unfoldable pub jtag_match : ℕ → JtagLoop W → Flow (JtagLoop W)
  unfolding select dr_word jtag_match_loop
  jtag_match q l = do
    let value = read_u32 request l.machine.req_ptr
    let l1 = select d (request_ir q) (on_machine (advance_req 4) l)
    l2 ← check_ack (dr_word d q 0 l1)
    let l3 = jtag_match_loop d q value l2.machine.info.match_retry l2
    let l4 =
        if bit_and l3.word l3.machine.info.match_mask == value
        then l3
        else on_machine (λ m. record m { transfer_ack = bit_or m.transfer_ack transfer_mismatch })
            l3
    check_ack l4

  -- A posted read of either bank; a word that an earlier round collected needs no new one.
  unfoldable pub jtag_plain_read : ℕ → JtagLoop W → Flow (JtagLoop W)
  unfolding select dr_word put_jtag_timestamp
  jtag_plain_read q l = if l.post_read then next l else (do
    l1 ← check_ack (dr_word d q 0 (select d (request_ir q) l))
    next (on_machine (put_jtag_timestamp d q) (record l1 { post_read = true })))

  unfoldable pub jtag_read_round : ℕ → JtagLoop W → Flow (JtagLoop W)
  unfolding jtag_collect jtag_match jtag_plain_read
  jtag_read_round q l = do
    l1 ← jtag_collect d q l
    if has q match_value_flag then jtag_match q l1 else jtag_plain_read q l1

  unfoldable pub jtag_flush : JtagLoop W → Flow (JtagLoop W)
  unfolding select dr_response
  jtag_flush l =
      if l.post_read
      then (do
        l1 ← check_ack (on_machine (dr_response d read_buffer) (select d jtag_dpacc l))
        next (record (on_machine (advance_resp 4) l1) { post_read = false }))
      else next l

  unfoldable pub jtag_write_word : ℕ → JtagLoop W → Flow (JtagLoop W)
  unfolding select dr_word put_jtag_timestamp
  jtag_write_word q l = do
    let l1 = select d (request_ir q) l
    let l2 = dr_word d q (read_u32 request l1.machine.req_ptr) l1
    l3 ← check_ack (on_machine (advance_req 4) l2)
    next (on_machine (put_jtag_timestamp d q) l3)

  unfoldable pub jtag_write_round : ℕ → JtagLoop W → Flow (JtagLoop W)
  unfolding jtag_flush jtag_write_word set_match_mask
  jtag_write_round q l = do
    l1 ← jtag_flush l
    if has q match_mask_flag
        then next (on_machine (set_match_mask request) l1)
        else jtag_write_word q l1

  -- A round of the first loop: it is counted at its end.
  unfoldable pub jtag_round : JtagLoop W → Flow (JtagLoop W)
  unfolding jtag_read_round jtag_write_round
  jtag_round l = do
    let q = request l.machine.req_ptr
    let l1 = on_machine (advance_req 1) l
    l2 ← if has q rn_w then jtag_read_round q l1 else jtag_write_round q l1
    let l3 = on_machine (λ m. record m { transfer_cnt = u16 (m.transfer_cnt + 1) }) l2
    if aborting d l3.machine then stop l3 else next l3

  -- What stands after the loops.
  unfoldable pub jtag_finish : JtagLoop W → Machine W
  unfolding select dr_word
  jtag_finish l =
      if l.machine.transfer_ack == transfer_ok
      then (let l1 = dr_word d read_buffer 0 (select d jtag_dpacc l) in
          if l1.post_read && (l1.machine.transfer_ack == transfer_ok)
          then put_word l1.word l1.machine
          else l1.machine)
      else l.machine

  -- The Boolean is false for the return of -1.
  unfoldable pub dap_jtag_transfer : Machine W → Bool × Machine W
  dap_jtag_transfer m =
      let index = request m.req_ptr in
      let m1 = advance_req 1 (advance_resp 2 m) in
      let m2 = set_info (record (m1.info) { index = index }) m1 in
      if leb m2.info.count index
      then (false, m2)
      else (let transfer_num = request m2.req_ptr in
          let m3 = record (advance_req 1 m2) { transfer_cnt = 0; transfer_ack = 0 } in
          let l =
            loop_rounds jtag_round transfer_num
              (record { machine = m3; post_read = false; ir = 0; word = 0 }) in
          (true, jtag_finish (on_machine (skip_to request transfer_num) l)))
