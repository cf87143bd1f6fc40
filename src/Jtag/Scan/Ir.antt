-- ===== src/Jtag/Scan/Ir.antt =====
-- The whole of what `dap_jtag_ir` of cmsis-dap/jtag.c gathers.
use cherry_link.Base.{
  ℕ, zero, suc, ◌+◌, ◌-◌, ◌%◌, ◌≤◌, ◌<◌, ◌≡◌, refl, ap, sym, ◌∙◌, Bool, true, false, List, [], ◌∷◌,
  ◌++◌, replicate, append_assoc, arith, ◌==◌, bit_and, shr,
}
use cherry_link.Bits.Lists.{bits, bits-add, value}
use cherry_link.Jtag.Scan.{
  Scan, or_shifted, leave_shift, bypass_ones, ir_bits, ir_bypass_after, ir_update, ir_scan,
}
use cherry_link.Jtag.Scan.Layout.{
  Holds, subst2, ones-Holds, register-Holds, after-Holds, update-Holds, bypass_ones-bitlen,
}

-- What `dap_jtag_ir` is to put on TMS, one level for each clock: to the shift, as many low levels
-- as there are bits but one, then high with the last of them, to the update and to the idle state.
abbrev pub ir_tms : ℕ → ℕ → ℕ → List Bool
ir_tms lr_length ir_before ir_after =
    true
    ∷ true
    ∷ false
    ∷ false
    ∷ (replicate ir_before false
        ++ (replicate (lr_length - 1) false
            ++ (replicate ir_after false ++ (true ∷ true ∷ false ∷ []))))

-- And on TDI: the register between the ones of the devices in bypass.
abbrev pub ir_tdi : ℕ → ℕ → ℕ → ℕ → List Bool
ir_tdi ir lr_length ir_before ir_after =
    false
    ∷ false
    ∷ false
    ∷ false
    ∷ (replicate ir_before true
        ++ (bits lr_length ir ++ (replicate ir_after true ++ (false ∷ true ∷ []))))

start-Holds :
    Holds
      (record { bitlen = 4; tms = 0x3; tdi = 0 })
      (true ∷ true ∷ false ∷ false ∷ [])
      (false ∷ false ∷ false ∷ false ∷ [])
unfolding value
start-Holds = record { tms_bits = refl; tdi_bits = refl; tms_length = refl; tdi_length = refl }

-- The register's bits are those but the last, and the last.
bits-last : (n ir : ℕ) → 0 < n → bits (n - 1) ir ++ ((shr ir (n - 1) % 2 == 1) ∷ []) ≡ bits n ir
bits-last zero ir h = absurd (omega arith)
bits-last (suc m) ir h =
    let less : suc m - 1 ≡ m = omega arith in
    let more : m + 1 ≡ suc m = omega arith in
    let one : bits 1 (shr ir m) ≡ (shr ir m % 2 == 1) ∷ [] = unfold bits in refl in
    rw less (ap (λ last. bits m ir ++ last) (sym one) ∙ sym (bits-add m 1 ir) ∙ rw more refl)

ir_bits-bitlen : (ir n : ℕ) (s : Scan) → (ir_bits ir n s).bitlen ≡ s.bitlen + n
unfolding ir_bits
ir_bits-bitlen ir n s = ground arith

ir_bypass_after-bitlen :
    (ir n after : ℕ) (s : Scan) → (ir_bypass_after ir n after s).bitlen ≡ s.bitlen + 1 + after
unfolding ir_bypass_after leave_shift
ir_bypass_after-bitlen ir n after s = ground (
  arith,
  bypass_ones-bitlen (after - 1) (record {
    tms = s.tms;
    tdi = or_shifted s.tdi (bit_and (shr ir n) 1) s.bitlen;
    bitlen = s.bitlen + 1;
  }),
)

ir_tms_pieces :
    (a b c : List Bool)
    → (true ∷ true ∷ false ∷ false ∷ []) ++ a ++ b ++ (c ++ (true ∷ [])) ++ (true ∷ false ∷ [])
      ≡ true ∷ true ∷ false ∷ false ∷ (a ++ (b ++ (c ++ (true ∷ true ∷ false ∷ []))))
ir_tms_pieces a b c = simp append_assoc

ir_tdi_pieces :
    (a b c : List Bool) (last : Bool)
    → (false ∷ false ∷ false ∷ false ∷ []) ++ a ++ b ++ (last ∷ c) ++ (false ∷ true ∷ [])
      ≡ false ∷ false ∷ false ∷ false ∷ (a ++ ((b ++ (last ∷ [])) ++ (c ++ (false ∷ true ∷ []))))
ir_tdi_pieces a b c last = simp append_assoc

-- The buffers of `dap_jtag_ir` for a register of at least one bit and a scan of at most 64.
pub ir_scan-Holds :
    (ir lr_length ir_before ir_after : ℕ)
    → 0 < lr_length
    → 4 + ir_before + lr_length + ir_after + 2 ≤ 64
    → Holds
        (ir_scan ir lr_length ir_before ir_after)
        (ir_tms lr_length ir_before ir_after)
        (ir_tdi ir lr_length ir_before ir_after)
unfolding ir_scan
ir_scan-Holds ir lr_length ir_before ir_after some_bits fits =
    let n = lr_length - 1 in
    let s0 : Scan = record { bitlen = 4; tms = 0x3; tdi = 0 } in
    let s1 = bypass_ones ir_before s0 in
    let s2 = ir_bits ir n s1 in
    let s3 = ir_bypass_after ir n ir_after s2 in
    let l1 : s1.bitlen ≡ 4 + ir_before = bypass_ones-bitlen ir_before s0 in
    let l2 : s2.bitlen ≡ s1.bitlen + n = ir_bits-bitlen ir n s1 in
    let l3 : s3.bitlen ≡ s2.bitlen + 1 + ir_after = ir_bypass_after-bitlen ir n ir_after s2 in
    let h1 = ones-Holds ir_before s0 _ _ (omega arith) start-Holds in
    let h2 = register-Holds ir n s1 _ _ (omega arith) h1 in
    let h3 = after-Holds ir n ir_after s2 _ _ (omega arith) h2 in
    subst2 (Holds (ir_update s3))
      (ir_tms_pieces (replicate ir_before false) (replicate n false) (replicate ir_after false))
      (ir_tdi_pieces (replicate ir_before true) (bits n ir) (replicate ir_after true)
          (shr ir n % 2 == 1)
        ∙ rw (bits-last lr_length ir some_bits) refl)
      (update-Holds s3 _ _ (omega arith) h3)
