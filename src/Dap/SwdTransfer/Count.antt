-- ===== src/Dap/SwdTransfer/Count.antt =====
-- The transfer count that `dap_swd_transfer` reports.
use cherry_link.Base.{
  ℕ, zero, suc, ◌+◌, ◌-◌, ◌*◌, ◌<◌, ◌≡◌, refl, false, arith, u16, read_u32, Memory, IsBytes,
}
use cherry_link.Dap.Driver.{Driver}
use cherry_link.Dap.Machine.{Machine, advance_req, advance_resp}
use cherry_link.Dap.Frame.{
  Frame, Stays, Stays-bind, Stays-if, Stays-weaken, Looped, Looped-one, Looped-more,
  counted_machine,
}
use cherry_link.Dap.Flow.{next, stop, loop_rounds, loop_rounds_rule}
use cherry_link.Dap.Skip.{skip_to}
use cherry_link.Dap.Skip.Laws.{skip_rounds_lem}
use cherry_link.Dap.SwdTransfer.{
  SwdLoop, on_machine, swd_read_response, swd_read_nowhere, swd_read_word, put_timestamp,
  swd_collect, swd_match_loop, swd_match, swd_plain_read, swd_read_round, swd_flush, swd_write_word,
  swd_write_round, swd_round, swd_finish, dap_swd_transfer,
}

abbrev machine_of : {W : Type 0} → SwdLoop W → Machine W
machine_of l = l.machine

module _ {W : Type 0} (d : Driver W) (request : Memory) where
  swd_read_response-Frame : (q : ℕ) (m : Machine W) → Frame 0 m (swd_read_response d q m)
  unfolding swd_read_response
  swd_read_response-Frame q m = ground arith

  put_timestamp-Frame : (q : ℕ) (m : Machine W) → Frame 4 m (put_timestamp d q m)
  unfolding put_timestamp
  put_timestamp-Frame q m = ground arith

  swd_collect-Stays : (q : ℕ) (l : SwdLoop W) → Stays machine_of 8 l (swd_collect d q l)
  unfolding swd_collect
  swd_collect-Stays q l = ground arith

  swd_match_loop-Frame :
      (q value retry : ℕ) (l : SwdLoop W)
      → Frame 0 l.machine (swd_match_loop d q value retry l).machine
  unfolding swd_match_loop
  swd_match_loop-Frame q value zero l = ground arith
  swd_match_loop-Frame q value (suc retry) l =
      ground (arith, swd_match_loop-Frame q value retry (swd_read_word d q l))

  swd_match-Stays : (q : ℕ) (l : SwdLoop W) → Stays machine_of 0 l (swd_match d request q l)
  unfolding swd_match
  swd_match-Stays q l =
      let value = read_u32 request l.machine.req_ptr in
      let l1 = on_machine (advance_req 4) l in
      let l2 = on_machine (swd_read_nowhere d q) l1 in
      ground (
        arith,
        swd_match_loop-Frame q value l1.machine.info.match_retry l1,
        swd_match_loop-Frame q value l2.machine.info.match_retry l2,
      )

  swd_plain_read-Stays :
      (q : ℕ) (l : SwdLoop W) → Stays machine_of 8 l (swd_plain_read d request q l)
  unfolding swd_plain_read
  swd_plain_read-Stays q l = ground arith

  swd_flush-Stays : (l : SwdLoop W) → Stays machine_of 4 l (swd_flush d request l)
  unfolding swd_flush
  swd_flush-Stays l = ground arith

  swd_write_word-Stays :
      (q : ℕ) (l : SwdLoop W) → Stays machine_of 4 l (swd_write_word d request q l)
  unfolding swd_write_word
  swd_write_word-Stays q l = ground arith

  swd_read_round-Stays :
      (q : ℕ) (l : SwdLoop W) → Stays machine_of 16 l (swd_read_round d request q l)
  unfolding swd_read_round
  swd_read_round-Stays q l = Stays-bind machine_of 8 8 l _ _ (swd_collect-Stays q l) λ l1.
      Stays-bind machine_of 8 0 l1 _ _
        (Stays-if machine_of 8 l1 _ _ _
          (Stays-weaken machine_of (omega arith) (swd_match-Stays q l1))
          (swd_plain_read-Stays q l1))
        λ l2. ground arith

  swd_write_round-Stays :
      (q : ℕ) (l : SwdLoop W) → Stays machine_of 8 l (swd_write_round d request q l)
  unfolding swd_write_round
  swd_write_round-Stays q l =
      Stays-bind machine_of 4 4 l _ _ (swd_flush-Stays l)
        λ l1. ground (arith, swd_write_word-Stays q l1)

  -- the loop state of a round whose transfer is counted and whose request byte is read
  abbrev pub counted : SwdLoop W → SwdLoop W
  counted = on_machine (λ m. advance_req 1 (record m { transfer_cnt = u16 (m.transfer_cnt + 1) }))

  swd_round-Stays : (l : SwdLoop W) → Stays machine_of 16 (counted l) (swd_round d request l)
  unfolding swd_round
  swd_round-Stays l =
      let q = request l.machine.req_ptr in
      Stays-bind machine_of 16 0 (counted l) _ _
        (Stays-if machine_of 16 (counted l) _ _ _ (swd_read_round-Stays q (counted l))
          (Stays-weaken machine_of (omega arith) (swd_write_round-Stays q (counted l))))
        λ l2. ground arith

module _ {W : Type 0} (d : Driver W) (request : Memory) where
  round_ends :
      (l l' : SwdLoop W)
      → swd_round d request l ≡ stop l'
      → Frame 16 (counted_machine l.machine) l'.machine
  round_ends l l' e = Stays.frame (rw e at (swd_round-Stays d request l))

  round_moves :
      (l l' : SwdLoop W)
      → swd_round d request l ≡ next l'
      → Frame 16 (counted_machine l.machine) l'.machine
  round_moves l l' e = Stays.frame (rw e at (swd_round-Stays d request l))

  -- The loop takes at most `n` rounds, and leaves the port, the chain and the flags alone.
  pub swd_loop-Looped :
      (n : ℕ) (l : SwdLoop W)
      → l.machine.transfer_cnt + n < 65536
      → Looped n l.machine (loop_rounds (swd_round d request) n l).machine
  swd_loop-Looped =
      loop_rounds_rule
        (λ n l l'. l.machine.transfer_cnt + n < 65536 → Looped n l.machine l'.machine)
        (swd_round d request) (λ l h. ground arith) (λ n l l' e h. Looped-one (round_ends l l' e) h)
        (λ n l l1 l' e ih h. Looped-more (round_moves l l1 e) h ih)

  swd_finish-Frame : (l : SwdLoop W) → Frame 4 l.machine (swd_finish d request l)
  unfolding swd_finish
  swd_finish-Frame l = ground arith

  -- The loops together: all transfers are counted.
  both_loops :
      (n : ℕ) (l : SwdLoop W)
      → l.machine.transfer_cnt ≡ 0
      → n < 256
      → let m' = skip_to request n (loop_rounds (swd_round d request) n l).machine in
        (m'.transfer_cnt ≡ n) × Frame (16 * n) (record (l.machine) { transfer_cnt = n }) m'
  both_loops n l zero_cnt small =
      let looped = swd_loop-Looped n l (omega arith) in
      let m1 = (loop_rounds (swd_round d request) n l).machine in
      let skipped = skip_rounds_lem request (n - m1.transfer_cnt) m1 (omega arith) in
      ground (arith, skipped.cnt, skipped.same, looped.frame.forward, looped.frame.bounded)

  -- Room for every word and timestamp.
  pub dap_swd_transfer-Frame :
      (m : Machine W)
      → IsBytes request
      → let n = request (m.req_ptr + 1) in
        Frame (16 * n + 6) (record m { transfer_cnt = n }) (dap_swd_transfer d request m)
  unfolding dap_swd_transfer
  dap_swd_transfer-Frame m bytes =
      let n = request (m.req_ptr + 1) in
      let start : SwdLoop W = record {
        machine = record (advance_resp 2 (advance_req 2 m)) { transfer_cnt = 0; transfer_ack = 0 };
        post_read = false;
        check_write = false;
        word = 0;
      } in
      let l = on_machine (skip_to request n) (loop_rounds (swd_round d request) n start) in
      let (count, loops) = both_loops n start refl (bytes (m.req_ptr + 1)) in
      let last = swd_finish-Frame l in
      ground (arith, loops.forward, loops.bounded, last.forward, last.bounded)

  -- For every packet and whatever the target answers, a transfer command ends with the count of the
  -- transfers asked for, be they carried out or not, and leaves the port and the number of JTAG
  -- devices alone.
  pub dap_swd_transfer-cnt :
      (m : Machine W)
      → IsBytes request
      → let m' = dap_swd_transfer d request m in
        (m'.transfer_cnt ≡ request (m.req_ptr + 1))
        × (m'.info.port ≡ m.info.port)
        × (m'.info.count ≡ m.info.count)
  dap_swd_transfer-cnt m bytes = let f = dap_swd_transfer-Frame m bytes in (f.cnt, f.port, f.count)
