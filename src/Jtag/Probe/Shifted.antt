-- ===== src/Jtag/Probe/Shifted.antt =====
-- The shifting routines of cmsis-dap/jtag.c put the bits of their buffers on TMS and TDI.
use native.Mathlib.Nat.{add-zero}
use cherry_link.Base.{
  ℕ, zero, suc, ◌+◌, ◌-◌, ◌%◌, ◌≡◌, refl, ap, ◌∙◌, Bool, true, false, if◌then◌else◌, Option, List,
  [], ◌∷◌, ◌++◌, append_assoc, append-nil, arith, ◌==◌, has, shr, bit_or,
}
use cherry_link.Bits.{bit_and-one}
use cherry_link.Bits.Lists.{bits}
use cherry_link.Jtag.Probe.{Probe, probe, resting, act}
use cherry_link.Jtag.Shift.{put_levels, shift_bit_slow, shift_bits}
use cherry_link.Swd.Bits.{top_bit}
use cherry_link.Swd.Pace.{Patient}
use cherry_link.Wire.{
  call, tck_to_low, tck_to_high, tms_to_high, tms_to_low, tdi_to_high, tdi_to_low,
}

has-one : (x : ℕ) → has x 1 ≡ (x % 2 == 1)
has-one x = ground (arith, bit_and-one x)

put-levels :
    (a d : Bool) (target : ℕ → Bool) (es fs : List Bool) (count held : ℕ) (tms tdi : Bool)
    → probe.act (if a then tms_to_high else tms_to_low) (
        probe.act (if d then tdi_to_high else tdi_to_low) (resting target es fs count held tms tdi))
      ≡ resting target es fs count held a d
unfolding probe act resting
put-levels true true target es fs count held tms tdi = refl
put-levels true false target es fs count held tms tdi = refl
put-levels false true target es fs count held tms tdi = refl
put-levels false false target es fs count held tms tdi = refl

clock-resting :
    (target : ℕ → Bool) (es fs : List Bool) (count held : ℕ) (tms tdi : Bool)
    → probe.act tck_to_high (probe.act tck_to_low (resting target es fs count held tms tdi))
      ≡ resting target (es ++ (tms ∷ [])) (fs ++ (tdi ∷ [])) (count + 1) held tms tdi
unfolding probe act resting
clock-resting target es fs count held tms tdi = refl

-- the last of some levels
unfoldable pub last_or : List Bool → Bool → Bool
last_or [] level = level
last_or (x ∷ xs) level = last_or xs x

last_count : (count : ℕ) → count + 1 - 1 ≡ count
last_count count = omega arith

next_count : (count n : ℕ) → count + 1 + n ≡ count + suc n
next_count count n = omega arith

module _ (delay : Option (Probe → Probe)) (p : Patient probe delay) where
  -- One clock: the lowest bits go out, and the level of TDO comes in from the top.
  shift_bit-resting :
      (a d o : ℕ) (target : ℕ → Bool) (es fs : List Bool) (count held : ℕ) (tms tdi : Bool)
      → shift_bit_slow probe delay (record {
        tms_last = a;
        tdi_last = d;
        tdo_last = o;
        wire = resting target es fs count held tms tdi;
      })
        ≡ record {
          tms_last = shr a 1;
          tdi_last = shr d 1;
          tdo_last = bit_or (shr o 1) (top_bit (target count));
          wire =
              resting target
                (es ++ ((a % 2 == 1) ∷ []))
                (fs ++ ((d % 2 == 1) ∷ []))
                (count + 1)
                held
                (a % 2 == 1)
                (d % 2 == 1);
        }
  unfolding shift_bit_slow put_levels probe resting
  shift_bit-resting a d o target es fs count held tms tdi =
      let after : Probe =
        resting target (es ++ ((a % 2 == 1) ∷ [])) (fs ++ ((d % 2 == 1) ∷ [])) (count + 1) held
          (a % 2 == 1) (d % 2 == 1) in
      let clocked : call delay (
            probe.act tck_to_high (
              call delay (
                probe.act tck_to_low
                  (put_levels probe a d (resting target es fs count held tms tdi)))))
          ≡ after =
        rw
          (
            p.waits,
            p.waits,
            put-levels (has a 1) (has d 1) target es fs count held tms tdi,
            clock-resting target es fs count held (has a 1) (has d 1),
            has-one a,
            has-one d,
          )
          refl in
      ap
        (λ w. record {
          tms_last = shr a 1;
          tdi_last = shr d 1;
          tdo_last = bit_or (shr o 1) (top_bit (probe.tdo_read w));
          wire = w;
        })
        clocked
      ∙ ap
          (λ k. record {
            tms_last = shr a 1;
            tdi_last = shr d 1;
            tdo_last = bit_or (shr o 1) (top_bit (target k));
            wire = after;
          })
          (last_count count)

  -- The bits of one byte, from its first on.
  pub shift_bits-wire :
      (n a d o : ℕ) (target : ℕ → Bool) (es fs : List Bool) (count held : ℕ) (tms tdi : Bool)
      → (shift_bits n (shift_bit_slow probe delay) (record {
        tms_last = a;
        tdi_last = d;
        tdo_last = o;
        wire = resting target es fs count held tms tdi;
      })).wire
        ≡ resting target
            (es ++ bits n a)
            (fs ++ bits n d)
            (count + n)
            held
            (last_or (bits n a) tms)
            (last_or (bits n d) tdi)
  unfolding shift_bits bits last_or
  shift_bits-wire zero a d o target es fs count held tms tdi =
      rw (append-nil, append-nil, add-zero) refl
  shift_bits-wire (suc n) a d o target es fs count held tms tdi =
      let x = a % 2 == 1 in
      let y = d % 2 == 1 in
      ap (λ s. (shift_bits n (shift_bit_slow probe delay) s).wire)
        (shift_bit-resting a d o target es fs count held tms tdi)
      ∙ shift_bits-wire n (shr a 1) (shr d 1) _ target (es ++ (x ∷ [])) (fs ++ (y ∷ [])) (count + 1)
          held x y
      ∙ rw
          (
            append_assoc es (x ∷ []) (bits n (shr a 1)),
            append_assoc fs (y ∷ []) (bits n (shr d 1)),
            next_count count n,
          )
          refl
