-- ===== src/Jtag/Scan/Layout.antt =====
-- What `dap_jtag_ir` of cmsis-dap/jtag.c gathers, as the bits that go over the line.
use cherry_link.Base.{
  ℕ, zero, suc, ◌+◌, ◌-◌, ◌%◌, ◌≤◌, ◌≡◌, refl, ap, sym, ◌∙◌, Bool, true, false, if◌then◌else◌, List,
  [], ◌∷◌, ◌++◌, length, length-append, length-replicate, replicate, append-nil, append_assoc,
  arith, ◌==◌, bit_and, shr, Bool-cases, inl, inr, ==_iff,
}
use mathlib.Core.Path.{subst}
use cherry_link.Bits.{bit_and-one}
use cherry_link.Bits.Lists.{
  bits, value, value-or, value-padded, value-ones, bit_and-mask, length-bits,
}
use cherry_link.Jtag.Scan.{
  Scan, or_shifted, leave_shift, bypass_ones, ir_bits, ir_bypass_after, ir_update,
}

-- The buffers hold these bits, one for each clock.
pub record Holds (s : Scan) (tms tdi : List Bool) : Type 0 where
  pub tms_bits : s.tms ≡ value tms
  pub tdi_bits : s.tdi ≡ value tdi
  pub tms_length : length tms ≡ s.bitlen
  pub tdi_length : length tdi ≡ s.bitlen

pub subst2 {ℓ κ} :
    {A : Type ℓ} (P : A → A → Type κ) {x x' y y' : A} → x ≡ x' → y ≡ y' → P x y → P x' y'
subst2 P {x} {x'} {y} {y'} p q h = subst (λ b. P x' b) q (subst (λ a. P a y) p h)

pub or_behind :
    (buf v k : ℕ) (xs ys : List Bool)
    → buf ≡ value xs
    → v ≡ value ys
    → length xs ≡ k
    → k + length ys ≤ 64
    → or_shifted buf v k ≡ value (xs ++ ys)
unfolding or_shifted
or_behind buf v k xs ys e v' l fits = rw (e, v', sym l) (value-or xs ys (omega arith))

Holds-if :
    {tms tdi : List Bool} (t : Bool) {s s' : Scan}
    → (t ≡ true → Holds s tms tdi)
    → (t ≡ false → Holds s' tms tdi)
    → Holds (if t then s else s') tms tdi
Holds-if true h k = h refl
Holds-if false h k = k refl

-- Clocks with TMS low, one for each new bit.
extended-Holds :
    (v n : ℕ) (s : Scan) (tms tdi ys : List Bool)
    → v ≡ value ys
    → length ys ≡ n
    → s.bitlen + n ≤ 64
    → Holds s tms tdi
    → Holds
        (record { tms = s.tms; tdi = or_shifted s.tdi v s.bitlen; bitlen = s.bitlen + n })
        (tms ++ replicate n false)
        (tdi ++ ys)
extended-Holds v n s tms tdi ys v' l fits h = record {
  tms_bits = h.tms_bits ∙ sym (value-padded tms n);
  tdi_bits = or_behind s.tdi v s.bitlen tdi ys h.tdi_bits v' h.tdi_length (omega arith);
  tms_length =
      omega (arith, length-append tms (replicate n false), length-replicate n false, h.tms_length);
  tdi_length = omega (arith, length-append tdi ys, h.tdi_length);
}

-- No clock.
same-Holds :
    (n : ℕ) (s : Scan) (tms tdi ys : List Bool)
    → n ≡ 0
    → length ys ≡ n
    → Holds s tms tdi
    → Holds s (tms ++ replicate n false) (tdi ++ ys)
same-Holds n s tms tdi [] e l h = rw (e, append-nil, append-nil) h
same-Holds n s tms tdi (y ∷ ys) e l h = absurd (omega arith)

pub ones-Holds :
    (before : ℕ) (s : Scan) (tms tdi : List Bool)
    → s.bitlen + before ≤ 64
    → Holds s tms tdi
    → Holds (bypass_ones before s) (tms ++ replicate before false) (tdi ++ replicate before true)
unfolding bypass_ones
ones-Holds before s tms tdi fits h =
    Holds-if (before == 0)
      (λ e. same-Holds before s tms tdi _ ((==_iff before 0).0 e) (length-replicate before true) h)
      (λ _.
        extended-Holds _ before s tms tdi _ (sym (value-ones before)) (length-replicate before true)
          fits h)

pub register-Holds :
    (ir n : ℕ) (s : Scan) (tms tdi : List Bool)
    → s.bitlen + n ≤ 64
    → Holds s tms tdi
    → Holds (ir_bits ir n s) (tms ++ replicate n false) (tdi ++ bits n ir)
unfolding ir_bits
register-Holds ir n s tms tdi fits h =
    Holds-if (n == 0) (λ e. same-Holds n s tms tdi _ ((==_iff n 0).0 e) (length-bits n ir) h)
      (λ _. extended-Holds _ n s tms tdi _ (bit_and-mask n ir) (length-bits n ir) fits h)

-- The clock that leaves the shift: TMS high.
leaving-Holds :
    (v : ℕ) (s : Scan) (tms tdi : List Bool) (y : Bool)
    → v ≡ value (y ∷ [])
    → s.bitlen + 1 ≤ 64
    → Holds s tms tdi
    → Holds (leave_shift v s) (tms ++ (true ∷ [])) (tdi ++ (y ∷ []))
unfolding leave_shift
leaving-Holds v s tms tdi y v' fits h = record {
  tms_bits =
      or_behind s.tms 1 s.bitlen tms (true ∷ []) h.tms_bits (unfold value in refl) h.tms_length
        fits;
  tdi_bits = or_behind s.tdi v s.bitlen tdi (y ∷ []) h.tdi_bits v' h.tdi_length fits;
  tms_length = omega (arith, length-append tms (true ∷ []), h.tms_length);
  tdi_length = omega (arith, length-append tdi (y ∷ []), h.tdi_length);
}

last_bit : (ir n : ℕ) → bit_and (shr ir n) 1 ≡ value ((shr ir n % 2 == 1) ∷ [])
unfolding value
last_bit ir n = ground (arith, bit_and-one (shr ir n))

pub bypass_ones-bitlen : (n : ℕ) (s : Scan) → (bypass_ones n s).bitlen ≡ s.bitlen + n
unfolding bypass_ones
bypass_ones-bitlen n s = ground arith

replicate-last {ℓ} : {A : Type ℓ} (n : ℕ) (a : A) → replicate n a ++ (a ∷ []) ≡ replicate (suc n) a
replicate-last zero a = refl
replicate-last (suc n) a = ap (λ rest. a ∷ rest) (replicate-last n a)

-- All clocks of the shift but those before it: the last bit of the register, then the ones behind,
-- TMS high with the last of these.
pub after-Holds :
    (ir n after : ℕ) (s : Scan) (tms tdi : List Bool)
    → s.bitlen + 1 + after ≤ 64
    → Holds s tms tdi
    → Holds
        (ir_bypass_after ir n after s)
        (tms ++ (replicate after false ++ (true ∷ [])))
        (tdi ++ ((shr ir n % 2 == 1) ∷ replicate after true))
unfolding ir_bypass_after
after-Holds ir n zero s tms tdi fits h =
    leaving-Holds (bit_and (shr ir n) 1) s tms tdi (shr ir n % 2 == 1) (last_bit ir n) (omega arith)
      h
after-Holds ir n (suc m) s tms tdi fits h = elim (Bool-cases (suc m == 0)) [
  | inl e ↦ absurd (ground arith)
  | inr e ↦
      let last = shr ir n % 2 == 1 in
      let less : suc m - 1 ≡ m = omega arith in
      let s1 : Scan = record s {
        tdi = or_shifted s.tdi (bit_and (shr ir n) 1) s.bitlen;
        bitlen = s.bitlen + 1;
      } in
      let one =
        extended-Holds (bit_and (shr ir n) 1) 1 s tms tdi (last ∷ []) (last_bit ir n) refl
          (omega arith) h in
      let ones = ones-Holds m s1 (tms ++ (false ∷ [])) (tdi ++ (last ∷ [])) (omega arith) one in
      let done =
        leaving-Holds 1 (bypass_ones m s1) _ _ true (unfold value in refl)
          (omega (arith, bypass_ones-bitlen m s1)) ones in
      rw (e, less)
        (subst2 (Holds (leave_shift 1 (bypass_ones m s1)))
          (append_assoc (tms ++ (false ∷ [])) (replicate m false) (true ∷ [])
            ∙ append_assoc tms (false ∷ []) (replicate m false ++ (true ∷ [])))
          (append_assoc (tdi ++ (last ∷ [])) (replicate m true) (true ∷ [])
            ∙ append_assoc tdi (last ∷ []) (replicate m true ++ (true ∷ []))
            ∙ ap (λ ones. tdi ++ (last ∷ ones)) (replicate-last m true))
          done)
]

-- The two clocks from the shift to the idle state.
pub update-Holds :
    (s : Scan) (tms tdi : List Bool)
    → s.bitlen + 2 ≤ 64
    → Holds s tms tdi
    → Holds (ir_update s) (tms ++ (true ∷ false ∷ [])) (tdi ++ (false ∷ true ∷ []))
unfolding ir_update
update-Holds s tms tdi fits h =
    let padded : value (tdi ++ (false ∷ [])) ≡ value tdi = value-padded tdi 1 in
    record {
      tms_bits =
          or_behind s.tms 1 s.bitlen tms (true ∷ false ∷ []) h.tms_bits (unfold value in refl)
            h.tms_length fits;
      tdi_bits =
          or_behind s.tdi 1 (s.bitlen + 1) (tdi ++ (false ∷ [])) (true ∷ [])
            (h.tdi_bits ∙ sym padded) (unfold value in refl)
            (omega (arith, length-append tdi (false ∷ []), h.tdi_length)) (omega arith)
          ∙ ap value (append_assoc tdi (false ∷ []) (true ∷ []));
      tms_length = omega (arith, length-append tms (true ∷ false ∷ []), h.tms_length);
      tdi_length = omega (arith, length-append tdi (false ∷ true ∷ []), h.tdi_length);
    }
