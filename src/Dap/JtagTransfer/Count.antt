-- ===== src/Dap/JtagTransfer/Count.antt =====
-- The transfer count that `dap_jtag_transfer` reports.
use cherry_link.Base.{
  ℕ, zero, suc, ◌+◌, ◌-◌, ◌*◌, ◌<◌, ◌≡◌, refl, true, false, arith, if◌then◌else◌, u16, has,
  read_u32, Memory, IsBytes,
}
use cherry_link.Dap.Driver.{Driver}
use cherry_link.Dap.Machine.{Machine, advance_req, advance_resp}
use cherry_link.Dap.Frame.{
  Frame, Stays, Stays-bind, Stays-if, Stays-weaken, Looped, Looped-last, Looped-trans,
}
use cherry_link.Dap.Flow.{Flow, next, stop, ◌>>=◌, state_of, loop_rounds, loop_rounds_rule}
use cherry_link.Dap.Skip.{skip_to}
use cherry_link.Dap.Skip.Laws.{skip_rounds_lem}
use cherry_link.Dap.SwdTransfer.{aborting}
use cherry_link.Dap.Codes.{rn_w}
use cherry_link.Dap.JtagTransfer.{
  JtagLoop, on_machine, request_ir, select, dr_word, jtag_collect, jtag_match_loop, jtag_match,
  jtag_plain_read, jtag_read_round, jtag_flush, jtag_write_word, jtag_write_round, jtag_round,
  jtag_finish, dap_jtag_transfer,
}

abbrev machine_of : {W : Type 0} → JtagLoop W → Machine W
machine_of l = l.machine

module _ {W : Type 0} (d : Driver W) (request : Memory) where
  jtag_collect-Stays : (q : ℕ) (l : JtagLoop W) → Stays machine_of 8 l (jtag_collect d q l)
  unfolding jtag_collect
  jtag_collect-Stays q l = ground arith

  jtag_match_loop-Frame :
      (q value retry : ℕ) (l : JtagLoop W)
      → Frame 0 l.machine (jtag_match_loop d q value retry l).machine
  unfolding jtag_match_loop
  jtag_match_loop-Frame q value zero l = ground arith
  jtag_match_loop-Frame q value (suc retry) l =
      ground (arith, jtag_match_loop-Frame q value retry (dr_word d q 0 l))

  jtag_match-Stays : (q : ℕ) (l : JtagLoop W) → Stays machine_of 0 l (jtag_match d request q l)
  unfolding jtag_match
  jtag_match-Stays q l =
      let value = read_u32 request l.machine.req_ptr in
      let l1 = dr_word d q 0 (select d (request_ir q) (on_machine (advance_req 4) l)) in
      ground (arith, jtag_match_loop-Frame q value l1.machine.info.match_retry l1)

  jtag_plain_read-Stays :
      (q : ℕ) (l : JtagLoop W) → Stays machine_of 4 l (jtag_plain_read d request q l)
  unfolding jtag_plain_read
  jtag_plain_read-Stays q l = ground arith

  jtag_flush-Stays : (l : JtagLoop W) → Stays machine_of 4 l (jtag_flush d request l)
  unfolding jtag_flush
  jtag_flush-Stays l = ground arith

  jtag_write_word-Stays :
      (q : ℕ) (l : JtagLoop W) → Stays machine_of 4 l (jtag_write_word d request q l)
  unfolding jtag_write_word
  jtag_write_word-Stays q l = ground arith

  jtag_read_round-Stays :
      (q : ℕ) (l : JtagLoop W) → Stays machine_of 16 l (jtag_read_round d request q l)
  unfolding jtag_read_round
  jtag_read_round-Stays q l = Stays-bind machine_of 8 8 l _ _ (jtag_collect-Stays q l) λ l1.
      Stays-if machine_of 8 l1 _ _ _ (Stays-weaken machine_of (omega arith) (jtag_match-Stays q l1))
        (Stays-weaken machine_of (omega arith) (jtag_plain_read-Stays q l1))

  jtag_write_round-Stays :
      (q : ℕ) (l : JtagLoop W) → Stays machine_of 8 l (jtag_write_round d request q l)
  unfolding jtag_write_round
  jtag_write_round-Stays q l =
      Stays-bind machine_of 4 4 l _ _ (jtag_flush-Stays l)
        λ l1. ground (arith, jtag_write_word-Stays q l1)

  -- the body of a round, before it is counted
  abbrev body : ℕ → JtagLoop W → Flow (JtagLoop W)
  body q l = if has q rn_w then jtag_read_round d request q l else jtag_write_round d request q l

  body-Stays : (q : ℕ) (l : JtagLoop W) → Stays machine_of 16 l (body q l)
  body-Stays q l =
      Stays-if machine_of 16 l _ _ _ (jtag_read_round-Stays q l)
        (Stays-weaken machine_of (omega arith) (jtag_write_round-Stays q l))

  -- A round counts its transfer at most once, at its end.
  round-Looped :
      (l : JtagLoop W)
      → l.machine.transfer_cnt + 1 < 65536
      → Looped 1 l.machine (state_of (jtag_round d request l)).machine
  unfolding jtag_round
  round-Looped l h = close (body q l1) (body-Stays q l1)
    where
      q : ℕ
      q = request l.machine.req_ptr

      l1 : JtagLoop W
      l1 = on_machine (advance_req 1) l

      close :
          (f : Flow (JtagLoop W))
          → Stays machine_of 16 l1 f
          → Looped 1 l.machine
              (state_of (
                f >>= λ l2.
                let l3 =
                  on_machine (λ m. record m { transfer_cnt = u16 (m.transfer_cnt + 1) }) l2 in
                if aborting d l3.machine then stop l3 else next l3)).machine
      close (next l2) s = ground (arith, s.frame.forward, s.frame.bounded)
      close (stop l2) s = ground (arith, s.frame.forward, s.frame.bounded)

  jtag_loop-Looped :
      (n : ℕ) (l : JtagLoop W)
      → l.machine.transfer_cnt + n < 65536
      → Looped n l.machine (loop_rounds (jtag_round d request) n l).machine
  jtag_loop-Looped =
      loop_rounds_rule
        (λ n l l'. l.machine.transfer_cnt + n < 65536 → Looped n l.machine l'.machine)
        (jtag_round d request) (λ l h. ground arith)
        (λ n l l' e h. Looped-last (rw e at (round-Looped l (omega arith))))
        (λ n l l1 l' e ih h.
          let one : Looped 1 l.machine l1.machine = rw e at (round-Looped l (omega arith)) in
          Looped-trans one (ih (omega arith)))

  jtag_finish-Frame : (l : JtagLoop W) → Frame 4 l.machine (jtag_finish d request l)
  unfolding jtag_finish
  jtag_finish-Frame l = ground arith

  -- The loops together: all transfers are counted.
  both_loops :
      (n : ℕ) (l : JtagLoop W)
      → l.machine.transfer_cnt ≡ 0
      → n < 256
      → let m' = skip_to request n (loop_rounds (jtag_round d request) n l).machine in
        (m'.transfer_cnt ≡ n) × Frame (16 * n) (record (l.machine) { transfer_cnt = n }) m'
  both_loops n l zero_cnt small =
      let looped = jtag_loop-Looped n l (omega arith) in
      let m1 = (loop_rounds (jtag_round d request) n l).machine in
      let skipped = skip_rounds_lem request (n - m1.transfer_cnt) m1 (omega arith) in
      ground (arith, skipped.cnt, skipped.same, looped.frame.forward, looped.frame.bounded)

  -- The machine after the index byte was read.
  abbrev pub indexed : Machine W → Machine W
  indexed m = record m { info = record (m.info) { index = request m.req_ptr } }

  abbrev pub asked : Machine W → ℕ
  asked m = request (u16 (m.req_ptr + 1))

  pub dap_jtag_transfer-Frame :
      (m : Machine W)
      → IsBytes request
      → request m.req_ptr < m.info.count
      → let r = dap_jtag_transfer d request m in
        (r.0 ≡ true) × Frame (16 * asked m + 6) (record (indexed m) { transfer_cnt = asked m }) r.1
  unfolding dap_jtag_transfer
  dap_jtag_transfer-Frame m bytes known =
      let n = asked m in
      let m1 = advance_req 1 (advance_resp 2 (indexed m)) in
      let start : JtagLoop W = record {
        machine = record (advance_req 1 m1) { transfer_cnt = 0; transfer_ack = 0 };
        post_read = false;
        ir = 0;
        word = 0;
      } in
      let l = on_machine (skip_to request n) (loop_rounds (jtag_round d request) n start) in
      let (count, loops) = both_loops n start refl (bytes (u16 (m.req_ptr + 1))) in
      let last = jtag_finish-Frame l in
      ground (arith, loops.forward, loops.bounded, last.forward, last.bounded)

  -- For every packet whose index byte names a device of the chain, and whatever the target answers,
  -- a transfer command is carried out and ends with the count of the transfers asked for, be they
  -- carried out or not, and leaves the port and the number of devices alone.
  pub dap_jtag_transfer-cnt :
      (m : Machine W)
      → IsBytes request
      → request m.req_ptr < m.info.count
      → let r = dap_jtag_transfer d request m in
        (r.0 ≡ true)
        × (r.1.transfer_cnt ≡ request (u16 (m.req_ptr + 1)))
        × (r.1.info.port ≡ m.info.port)
        × (r.1.info.count ≡ m.info.count)
  dap_jtag_transfer-cnt m bytes known =
      let (accepted, f) = dap_jtag_transfer-Frame m bytes known in
      (accepted, f.cnt, f.port, f.count)
