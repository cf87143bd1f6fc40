-- ===== src/Jtag/Scan/Dr.antt =====
-- The whole of what `dap_jtag_dr` of cmsis-dap/jtag.c gathers.
use cherry_link.Base.{
  ℕ, suc, ◌+◌, ◌^◌, ◌≤◌, ◌<◌, ◌≡◌, refl, ap, sym, ◌∙◌, Bool, true, false, if◌then◌else◌, List, [],
  ◌∷◌, ◌++◌, length, length-append, length-replicate, replicate, append_assoc, arith, bit_and, shr,
  has,
}
use cherry_link.Bits.Lists.{
  bits, value, value-zeros, value-padded, value-bits, length-bits, bit_and-mask,
}
use cherry_link.Jtag.Scan.{or_shifted, dr_scan}
use cherry_link.Jtag.Scan.Layout.{Holds, or_behind}

-- The word of a request that writes, and zeros for one that reads.
unfoldable pub dr_data : ℕ → ℕ → List Bool
dr_data request dr = if has request 2 then replicate 32 false else bits 32 dr

-- What `dap_jtag_dr` is to put on TMS: to the shift, one clock for each bit, high with the last of
-- them and to the update, and idle.
abbrev pub dr_tms : ℕ → ℕ → ℕ → List Bool
dr_tms idle dr_before dr_after =
    true
    ∷ false
    ∷ false
    ∷ (replicate (34 + dr_before + dr_after) false ++ (true ∷ true ∷ replicate (suc idle) false))

-- What goes into the data registers: zeros for the devices before and after, and between them the
-- direction and the address of the request and the word.
abbrev pub dr_levels : ℕ → ℕ → ℕ → ℕ → List Bool
dr_levels request dr dr_before dr_after =
    replicate dr_before false
    ++ (bits 3 (shr request 1) ++ (dr_data request dr ++ replicate dr_after false))

-- And on TDI.
abbrev pub dr_tdi : ℕ → ℕ → ℕ → ℕ → ℕ → List Bool
dr_tdi idle request dr dr_before dr_after =
    false
    ∷ false
    ∷ false
    ∷ (dr_levels request dr dr_before dr_after ++ (replicate (suc idle) false ++ (true ∷ [])))

length-dr_data : (request dr : ℕ) → length (dr_data request dr) ≡ 32
unfolding dr_data
length-dr_data request dr = ground (arith, length-bits 32 dr, length-replicate 32 false)

pub length-dr_levels :
    (request dr dr_before dr_after : ℕ)
    → length (dr_levels request dr dr_before dr_after) ≡ suc (34 + dr_before + dr_after)
length-dr_levels request dr dr_before dr_after = omega (
  arith,
  length-append (replicate dr_before false)
      (bits 3 (shr request 1) ++ (dr_data request dr ++ replicate dr_after false)),
  length-append (bits 3 (shr request 1)) (dr_data request dr ++ replicate dr_after false),
  length-append (dr_data request dr) (replicate dr_after false),
  length-replicate dr_before false,
  length-bits 3 (shr request 1),
  length-dr_data request dr,
  length-replicate dr_after false,
)

pub length-dr_tms :
    (idle dr_before dr_after : ℕ)
    → length (dr_tms idle dr_before dr_after) ≡ 40 + dr_before + dr_after + idle
length-dr_tms idle dr_before dr_after = omega (
  arith,
  length-append (replicate (34 + dr_before + dr_after) false)
      (true ∷ true ∷ replicate (suc idle) false),
  length-replicate (34 + dr_before + dr_after) false,
  length-replicate idle false,
)

pub length-dr_tdi :
    (idle request dr dr_before dr_after : ℕ)
    → length (dr_tdi idle request dr dr_before dr_after) ≡ 40 + dr_before + dr_after + idle
length-dr_tdi idle request dr dr_before dr_after = omega (
  arith,
  length-append (dr_levels request dr dr_before dr_after)
      (replicate (suc idle) false ++ (true ∷ [])),
  length-append (replicate (suc idle) false) (true ∷ []),
  length-replicate idle false,
  length-dr_levels request dr dr_before dr_after,
)

tms_start : (n : ℕ) → 1 ≡ value (true ∷ false ∷ false ∷ replicate n false)
unfolding value
tms_start n = omega (arith, value-zeros n)

tdi_start : (n : ℕ) → 0 ≡ value (false ∷ false ∷ false ∷ replicate n false)
unfolding value
tdi_start n = omega (arith, value-zeros n)

tms_value :
    (idle dr_before dr_after b3 : ℕ)
    → 40 + dr_before + dr_after + idle ≤ 64
    → b3 ≡ 37 + dr_before + dr_after
    → or_shifted (or_shifted 0x1 1 b3) 1 (b3 + 1) ≡ value (dr_tms idle dr_before dr_after)
tms_value idle dr_before dr_after b3 fits place =
    let n = 34 + dr_before + dr_after in
    let last = true ∷ [] in
    let x = true ∷ false ∷ false ∷ replicate n false in
    let one : value last ≡ 1 = unfold value in refl in
    let size : length x ≡ b3 = omega (arith, length-replicate n false) in
    let first = or_behind 0x1 1 b3 x last (tms_start n) (sym one) size (omega arith) in
    let both =
      or_behind _ 1 (b3 + 1) (x ++ last) last first (sym one) (omega (arith, length-append x last))
        (omega arith) in
    let pieces : x ++ last ++ last ++ replicate (suc idle) false ≡ dr_tms idle dr_before dr_after =
      simp append_assoc in
    both ∙ sym (value-padded (x ++ last ++ last) (suc idle)) ∙ ap value pieces

-- The word, or nothing.
word_value :
    (t : Bool) (dr tdi b2 : ℕ) (xs : List Bool)
    → dr < 2 ^ 32
    → b2 + 32 ≤ 64
    → tdi ≡ value xs
    → length xs ≡ b2
    → (if t then tdi else or_shifted tdi dr b2)
      ≡ value (xs ++ (if t then replicate 32 false else bits 32 dr))
word_value true dr tdi b2 xs word fits e l = e ∙ sym (value-padded xs 32)
word_value false dr tdi b2 xs word fits e l =
    or_behind tdi dr b2 xs (bits 32 dr) e (sym (value-bits 32 dr word)) l
      (omega (arith, length-bits 32 dr))

tdi_value :
    (idle request dr dr_before dr_after b2 b5 : ℕ)
    → dr < 2 ^ 32
    → 40 + dr_before + dr_after + idle ≤ 64
    → b2 ≡ 6 + dr_before
    → b5 ≡ 39 + dr_before + dr_after + idle
    → or_shifted
        (let tdi1 = or_shifted 0 (bit_and (shr request 1) 7) (3 + dr_before) in
          if has request 2 then tdi1 else or_shifted tdi1 dr b2)
        1
        b5
      ≡ value (dr_tdi idle request dr dr_before dr_after)
unfolding dr_data
tdi_value idle request dr dr_before dr_after b2 b5 word fits place last_place =
    let x0 = false ∷ false ∷ false ∷ replicate dr_before false in
    let address = bits 3 (shr request 1) in
    let word_bits = dr_data request dr in
    let x3 = x0 ++ address ++ word_bits ++ replicate dr_after false ++ replicate (suc idle) false in
    let one : value (true ∷ []) ≡ 1 = unfold value in refl in
    let first =
      or_behind 0 (bit_and (shr request 1) 7) (3 + dr_before) x0 address (tdi_start dr_before)
        (bit_and-mask 3 (shr request 1)) (omega (arith, length-replicate dr_before false))
        (omega (arith, length-bits 3 (shr request 1))) in
    let size1 : length (x0 ++ address) ≡ 6 + dr_before = omega (
      arith,
      length-append x0 address,
      length-replicate dr_before false,
      length-bits 3 (shr request 1),
    ) in
    let second =
      word_value (has request 2) dr _ b2 (x0 ++ address) word (omega arith) first
        (size1 ∙ sym place) in
    let padded =
      second
      ∙ sym (value-padded (x0 ++ address ++ word_bits) dr_after)
      ∙ sym (value-padded (x0 ++ address ++ word_bits ++ replicate dr_after false) (suc idle)) in
    let size : length x3 ≡ b5 = omega (
      arith,
      length-append (x0 ++ address ++ word_bits ++ replicate dr_after false)
          (replicate (suc idle) false),
      length-append (x0 ++ address ++ word_bits) (replicate dr_after false),
      length-append (x0 ++ address) word_bits,
      size1,
      length-dr_data request dr,
      length-replicate dr_after false,
      length-replicate idle false,
    ) in
    let pieces : x3 ++ (true ∷ []) ≡ dr_tdi idle request dr dr_before dr_after =
      simp append_assoc in
    or_behind _ 1 b5 x3 (true ∷ []) padded (sym one) size (omega arith) ∙ ap value pieces

-- The buffers of `dap_jtag_dr`, for a scan of at most 64 clocks.
pub dr_scan-Holds :
    (idle request dr dr_before dr_after : ℕ)
    → dr < 2 ^ 32
    → 40 + dr_before + dr_after + idle ≤ 64
    → Holds
        (dr_scan idle request dr dr_before dr_after).scan
        (dr_tms idle dr_before dr_after)
        (dr_tdi idle request dr dr_before dr_after)
unfolding dr_scan
dr_scan-Holds idle request dr dr_before dr_after word fits = record {
  tms_bits = tms_value idle dr_before dr_after _ fits (omega arith);
  tdi_bits = tdi_value idle request dr dr_before dr_after _ _ word fits (omega arith) (omega arith);
  tms_length = omega (arith, length-dr_tms idle dr_before dr_after);
  tdi_length = omega (arith, length-dr_tdi idle request dr dr_before dr_after);
}
