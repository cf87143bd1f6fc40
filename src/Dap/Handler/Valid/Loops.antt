-- ===== src/Dap/Handler/Valid/Loops.antt =====
-- The commands that loop keep the settings valid.
use Prim.Native.Nat.{min}
use cherry_link.Base.{
  ℕ, zero, suc, ◌+◌, ◌-◌, ◌^◌, ◌≤◌, ◌≡◌, refl, arith, Bool, true, false, ◌==◌, leb, ltb, Bool-cases,
  inl, inr, if◌then◌else◌, get_or, length-set, u16, u32, read_u16, read_u32, Memory, IsBytes,
}
use cherry_link.Dap.Driver.{Driver, Pin, Mode}
use cherry_link.Dap.Machine.{Machine, advance_req, advance_resp, put, touch}
use cherry_link.Dap.Port.{need_reconfig}
use cherry_link.Dap.Sequences.{
  run_raw, rounds, swd_sequence_round, jtag_sequence_round, dap_swd_sequence, dap_jtag_sequence,
  sequence_start,
}
use cherry_link.Dap.Codes.{dap_port_swd, dap_port_jtag}
use cherry_link.Dap.Pins.{drive_pins, any_differs, poll_pins, dap_swj_pin}
use cherry_link.Dap.Pins.Polling.{stops_within, PollsEnd}
use cherry_link.Dap.Chain.{
  select_ir, read_length, read_lengths, fill_one, fill_after, dap_jtag_configure,
}
use cherry_link.Dap.Flow.{Flow, next, stop, state_of}
use cherry_link.Dap.SwdTransfer.{dap_swd_transfer, swd_read_nowhere}
use cherry_link.Dap.SwdTransfer.Count.{dap_swd_transfer-Frame}
use cherry_link.Dap.JtagTransfer.{dap_jtag_transfer, request_ir, dr_nowhere}
use cherry_link.Dap.JtagTransfer.Count.{dap_jtag_transfer-Frame}
use cherry_link.Dap.Blocks.{
  all_rounds, swd_block_read, swd_block_write, dap_swd_transfer_block, jtag_block_read,
  jtag_block_write, dap_jtag_transfer_block,
}
use cherry_link.Dap.Handler.Valid.{Keeps, Keeps-refl, Keeps-trans, Keeps-if}

module _ {W : Type 0} where
  rounds-Keeps :
      (body : Machine W → Machine W)
      → ((m : Machine W) → Keeps m (body m))
      → (n : ℕ) (m : Machine W) → Keeps m (rounds body n m)
  unfolding rounds
  rounds-Keeps body one zero m = Keeps-refl m
  rounds-Keeps body one (suc n) m = Keeps-trans (one m) (rounds-Keeps body one n (body m))

  all_rounds-Keeps :
      (round : Machine W → Flow (Machine W))
      → ((m : Machine W) → Keeps m (state_of (round m)))
      → (n : ℕ) (m : Machine W) → Keeps m (state_of (all_rounds round n m))
  unfolding all_rounds
  all_rounds-Keeps round one zero m = Keeps-refl m
  all_rounds-Keeps round one (suc n) m =
      split (round m) (one m) (λ m1. all_rounds-Keeps round one n m1)
    where
      split :
          (f : Flow (Machine W))
          → Keeps m (state_of f)
          → ((m1 : Machine W) → Keeps m1 (state_of (all_rounds round n m1)))
          → Keeps m (state_of (elim f [ next m1 ↦ all_rounds round n m1 | stop m1 ↦ stop m1 ]))
      split (next m1) f g = Keeps-trans f (g m1)
      split (stop m1) f g = f

  fill_after-Keeps : (left n bits : ℕ) (m : Machine W) → Keeps m (fill_after left n bits m)
  unfolding fill_after fill_one
  fill_after-Keeps zero n bits m = Keeps-refl m
  fill_after-Keeps (suc left) n bits m =
      let bits' = u32 (bits + 2 ^ 32 - get_or m.info.ir_length n 0) in
      let one : Keeps m (fill_one n bits' m) =
        ground (arith, length-set m.info.ir_after n (u16 bits')) in
      Keeps-trans one (fill_after-Keeps left (n + 1) bits' (fill_one n bits' m))

module _ {W : Type 0} (d : Driver W) (request : Memory) where
  swd_sequence_round-Keeps : (m : Machine W) → Keeps m (swd_sequence_round d request m)
  unfolding swd_sequence_round
  swd_sequence_round-Keeps m = ground arith

  jtag_sequence_round-Keeps : (m : Machine W) → Keeps m (jtag_sequence_round d request m)
  unfolding jtag_sequence_round run_raw
  jtag_sequence_round-Keeps m = ground arith

  pub swd_sequence-Keeps : (m : Machine W) → Keeps m (dap_swd_sequence d request m)
  unfolding dap_swd_sequence
  swd_sequence-Keeps m =
      let f =
        rounds-Keeps (swd_sequence_round d request) swd_sequence_round-Keeps (request m.req_ptr)
          (sequence_start d request dap_port_swd m) in
      ground (arith, f.valid)

  pub jtag_sequence-Keeps : (m : Machine W) → Keeps m (dap_jtag_sequence d request m)
  unfolding dap_jtag_sequence
  jtag_sequence-Keeps m =
      let f =
        rounds-Keeps (jtag_sequence_round d request) jtag_sequence_round-Keeps (request m.req_ptr)
          (sequence_start d request dap_port_jtag m) in
      ground (arith, f.valid)

  poll_pins-Keeps :
      (fuel select value tick delay : ℕ) (m : Machine W)
      → stops_within d fuel tick delay m.world ≡ true
      → Keeps m (poll_pins d fuel select value tick delay m)
  unfolding poll_pins stops_within
  poll_pins-Keeps zero select value tick delay m ends = absurd (ground arith)
  poll_pins-Keeps (suc fuel) select value tick delay m ends =
      let w = (d.wait_us_noblock tick delay m.world).1 in
      Keeps-if (any_differs d select value m.world)
        (polled_on (d.wait_us_noblock tick delay m.world).0 _ _ ends (λ e.
          let k = poll_pins-Keeps fuel select value tick delay (record m { world = w }) e in
          record { valid = k.valid; undefined = k.undefined; polled = k.polled }))
        (Keeps-refl m)
    where
      polled_on :
          (more rest : Bool) (x : Machine W)
          → (if more then rest else true) ≡ true
          → (rest ≡ true → Keeps m x)
          → Keeps m
              (if more then x else record m { world = (d.wait_us_noblock tick delay m.world).1 })
      polled_on true rest x e k = k e
      polled_on false rest x e k = record { valid = λ v. v; undefined = λ u. u; polled = refl }

  -- the end of the command
  sampled-Keeps :
      (v : ℕ) (f : W → W) (m : Machine W) → Keeps m (put v (need_reconfig d true (touch f m)))
  sampled-Keeps v f m = ground arith

  pub swj_pin-Keeps :
      (fuel : ℕ) (m : Machine W) → PollsEnd d fuel → Keeps m (dap_swj_pin d request fuel m)
  unfolding dap_swj_pin
  swj_pin-Keeps fuel m ends =
      let value = request m.req_ptr in
      let select = request (m.req_ptr + 1) in
      let asked = read_u32 request (m.req_ptr + 2) in
      let m1 = touch (drive_pins d select value) (advance_req 6 m) in
      let delay = if ltb 3000000 asked then 3000000 else asked in
      let k =
        poll_pins-Keeps fuel select value (d.get_cur_tick m1.world) delay m1
          (ends delay m1.world) in
      let start : Keeps m m1 = record { valid = λ v. v; undefined = λ e. e; polled = refl } in
      let polled = poll_pins d fuel select value (d.get_cur_tick m1.world) delay m1 in
      let m2 = if asked == 0 then m1 else polled in
      let both : Keeps m m2 = Keeps-if (asked == 0) start (Keeps-trans start k) in
      Keeps-trans both (sampled-Keeps _ (d.set_mode Pin.tdo Mode.input_floating) m2)

  read_lengths-Keeps :
      (left n bits : ℕ) (m : Machine W) → Keeps m (read_lengths request left n bits m).1
  unfolding read_lengths read_length
  read_lengths-Keeps zero n bits m = Keeps-refl m
  read_lengths-Keeps (suc left) n bits m =
      let one : Keeps m (read_length request n bits m) = ground (
        arith,
        length-set m.info.ir_length n (request m.req_ptr),
        length-set m.info.ir_before n (u16 bits),
      ) in
      Keeps-trans one (
        read_lengths-Keeps left (n + 1) (u32 (bits + request m.req_ptr))
          (read_length request n bits m))

  pub jtag_configure-Keeps : (m : Machine W) → Keeps m (dap_jtag_configure request m)
  unfolding dap_jtag_configure
  jtag_configure-Keeps m =
      let n = request m.req_ptr in
      let m1 = advance_req 1 m in
      let m2 = record m1 { info = record (m1.info) { count = min n 4 } } in
      let start : Keeps m m2 = ground arith in
      let r = read_lengths request n 0 0 m2 in
      let f =
        Keeps-trans start
          (Keeps-trans (read_lengths-Keeps n 0 0 m2) (fill_after-Keeps n 0 r.0 r.1)) in
      record { valid = f.valid; undefined = f.undefined; polled = f.polled }

  pub swd_transfer-Keeps :
      (m : Machine W) → IsBytes request → Keeps m (dap_swd_transfer d request m)
  swd_transfer-Keeps m b = let f = dap_swd_transfer-Frame d request m b in ground arith

  unknown_device :
      (m : Machine W) → m.info.count ≤ request m.req_ptr → Keeps m (dap_jtag_transfer d request m).1
  unfolding dap_jtag_transfer
  unknown_device m h = ground arith

  pub jtag_transfer-Keeps :
      (m : Machine W) → IsBytes request → Keeps m (dap_jtag_transfer d request m).1
  jtag_transfer-Keeps m b = elim (Bool-cases (leb m.info.count (request m.req_ptr))) [
    | inl e ↦ unknown_device m (ground arith)
    | inr e ↦ let f = (dap_jtag_transfer-Frame d request m b (ground arith)).1 in ground arith
  ]

  swd_block_read-Keeps :
      (n q : ℕ) (m : Machine W) → Keeps m (state_of (swd_block_read d request n q m))
  unfolding swd_block_read
  swd_block_read-Keeps n q m = ground arith

  swd_block_write-Keeps :
      (q : ℕ) (m : Machine W) → Keeps m (state_of (swd_block_write d request q m))
  unfolding swd_block_write
  swd_block_write-Keeps q m = ground arith

  jtag_block_read-Keeps :
      (n q : ℕ) (m : Machine W) → Keeps m (state_of (jtag_block_read d request n q m))
  unfolding jtag_block_read
  jtag_block_read-Keeps n q m = ground arith

  jtag_block_write-Keeps :
      (q : ℕ) (m : Machine W) → Keeps m (state_of (jtag_block_write d request q m))
  unfolding jtag_block_write
  jtag_block_write-Keeps q m = ground arith

  pub swd_transfer_block-Keeps : (m : Machine W) → Keeps m (dap_swd_transfer_block d request m)
  unfolding dap_swd_transfer_block swd_read_nowhere
  swd_transfer_block-Keeps m =
      let n = read_u16 request (m.req_ptr + 1) in
      let m1 = advance_resp 3 (advance_req 3 m) in
      let q = request m1.req_ptr in
      let m2 = record (advance_req 1 m1) { transfer_cnt = 0; transfer_ack = 0 } in
      let reads = all_rounds-Keeps (swd_block_read d request n q) (swd_block_read-Keeps n q) n in
      let f = reads (swd_read_nowhere d q m2) in
      let f' = reads m2 in
      let g = all_rounds-Keeps (swd_block_write d request q) (swd_block_write-Keeps q) n m2 in
      ground (arith, f.valid, f'.valid, g.valid)

  pub jtag_transfer_block-Keeps : (m : Machine W) → Keeps m (dap_jtag_transfer_block d request m).1
  unfolding dap_jtag_transfer_block dr_nowhere
  jtag_transfer_block-Keeps m =
      let n = read_u16 request (m.req_ptr + 1) in
      let m1 = record m { info = record (m.info) { index = request m.req_ptr } } in
      let m2 = record (advance_resp 3 (advance_req 3 m1)) { transfer_cnt = 0; transfer_ack = 0 } in
      let q = request m2.req_ptr in
      let m3 = select_ir d (request_ir q) (advance_req 1 m2) in
      let f =
        all_rounds-Keeps (jtag_block_read d request n q) (jtag_block_read-Keeps n q) n
          (dr_nowhere d q 0 m3) in
      let g = all_rounds-Keeps (jtag_block_write d request q) (jtag_block_write-Keeps q) n m3 in
      ground (arith, f.valid, g.valid)
