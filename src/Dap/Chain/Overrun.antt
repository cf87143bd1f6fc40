-- ===== src/Dap/Chain/Overrun.antt =====
-- `dap_jtag_configure` does not bound its loops by the size of the arrays.
use Prim.Native.Nat.{min}
use native.Mathlib.Decide.{dec_lt}
use cherry_link.Base.{
  ℕ, zero, suc, ◌+◌, ◌-◌, ◌^◌, ◌≤◌, ◌<◌, ◌≡◌, ◌⊎◌, inl, inr, true, ◌||◌, arith, get_or, u32, Memory,
}
use cherry_link.Dap.Machine.{Machine, advance_req}
use cherry_link.Dap.Chain.{
  beyond, read_length, read_lengths, fill_one, fill_after, dap_jtag_configure,
}

module _ {W : Type 0} where
  fill_after-fault :
      (left n bits : ℕ) (m : Machine W) → m.fault ≡ true → (fill_after left n bits m).fault ≡ true
  unfolding fill_after fill_one
  fill_after-fault zero n bits m e = e
  fill_after-fault (suc left) n bits m e =
      let bits' = u32 (bits + 2 ^ 32 - get_or m.info.ir_length n 0) in
      fill_after-fault left (n + 1) bits' (fill_one n bits' m) (ground arith)

module _ {W : Type 0} (request : Memory) where
  read_lengths-fault :
      (left n bits : ℕ) (m : Machine W)
      → (m.fault ≡ true) ⊎ (4 < n + left) × (n ≤ 4)
      → (read_lengths request left n bits m).1.fault ≡ true
  unfolding read_lengths read_length
  read_lengths-fault zero n bits m (inl e) = e
  read_lengths-fault zero n bits m (inr (far, near)) = absurd (omega arith)
  read_lengths-fault (suc left) n bits m h =
      read_lengths-fault left (n + 1) (u32 (bits + request m.req_ptr))
        (read_length request n bits m) (widen h)
    where
      widen :
          (m.fault ≡ true) ⊎ (4 < n + suc left) × (n ≤ 4)
          → (m.fault || beyond n ≡ true) ⊎ (4 < n + 1 + left) × (n + 1 ≤ 4)
      widen (inl e) = inl (ground arith)
      widen (inr (far, near)) = elim (dec_lt n 4) [
        | yes inside ↦ inr (omega arith, omega arith)
        | no outside ↦ inl (ground arith)
      ]

  -- A configuration of more than four devices writes past the arrays, whatever the packet holds.
  pub dap_jtag_configure_overrun :
      (m : Machine W) → 4 < request m.req_ptr → (dap_jtag_configure request m).fault ≡ true
  unfolding dap_jtag_configure
  dap_jtag_configure_overrun m many =
      let n = request m.req_ptr in
      let m1 = advance_req 1 m in
      let m2 = record m1 { info = record (m1.info) { count = min n 4 } } in
      let r = read_lengths request n 0 0 m2 in
      fill_after-fault n 0 r.0 r.1 (read_lengths-fault n 0 0 m2 (inr (omega arith, omega arith)))
