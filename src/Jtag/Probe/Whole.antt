-- ===== src/Jtag/Probe/Whole.antt =====
-- Whole buffers over the line: the bytes one after the other, and the bits of the last one.
use native.Mathlib.Nat.{add-zero, div-div-eq-div-mul}
use cherry_link.Base.{
  ℕ, zero, suc, ◌+◌, ◌*◌, ◌/◌, ◌%◌, ◌^◌, ◌≤◌, ◌≡◌, refl, ap, sym, ◌∙◌, Bool, Option, List, [], ◌∷◌,
  ◌++◌, append_assoc, append-nil, arith, ◌==◌, shr, u8, Bool-cases, inl, inr, ==_iff,
}
use cherry_link.Bits.Lists.{bits, bits-add, bits-u8, bits-u8_le, pow_add}
use cherry_link.Jtag.Probe.{Probe, probe, resting}
use cherry_link.Jtag.Probe.Shifted.{last_or, shift_bits-wire}
use cherry_link.Jtag.Scan.{bytes_of_u64}
use cherry_link.Jtag.Shift.{
  shift_bit_slow, shift_bits, shift_bytes, shift_tail, shift_all, jtag_rw_slow,
}
use cherry_link.Swd.Pace.{Patient}

pub last_or-append :
    (xs ys : List Bool) (level : Bool) → last_or (xs ++ ys) level ≡ last_or ys (last_or xs level)
unfolding last_or
last_or-append [] ys level = refl
last_or-append (x ∷ xs) ys level = last_or-append xs ys x

-- `k` bytes of a buffer from byte `i` on, as bits.
unfoldable pub byte_bits : ℕ → ℕ → ℕ → List Bool
unfolding bytes_of_u64
byte_bits zero i buf = []
byte_bits (suc k) i buf = bits 8 (bytes_of_u64 buf i) ++ byte_bits k (i + 1) buf

shr_next : (buf i : ℕ) → shr buf (8 * i) / 2 ^ 8 ≡ shr buf (8 * (i + 1))
shr_next buf i =
    let more : 8 * (i + 1) ≡ 8 * i + 8 = omega arith in
    rw (more, pow_add (8 * i) 8) (div-div-eq-div-mul buf (2 ^ (8 * i)) (2 ^ 8))

pub byte_bits-eq : (k i buf : ℕ) → byte_bits k i buf ≡ bits (8 * k) (shr buf (8 * i))
unfolding byte_bits bytes_of_u64
byte_bits-eq zero i buf = unfold bits in refl
byte_bits-eq (suc k) i buf =
    let more : 8 + 8 * k ≡ 8 * suc k = omega arith in
    rw (bits-u8 (shr buf (8 * i)), byte_bits-eq k (i + 1) buf)
      (ap (λ rest. bits 8 (shr buf (8 * i)) ++ bits (8 * k) rest) (sym (shr_next buf i))
        ∙ sym (bits-add 8 (8 * k) (shr buf (8 * i)))
        ∙ rw more refl)

whole : (buf : ℕ) → shr buf (8 * 0) ≡ buf
whole buf = omega arith

-- Some whole bytes of a buffer and the bits behind them are bits of the buffer.
pub bytes_and_bits :
    (q r i buf : ℕ)
    → byte_bits q i buf ++ bits r (shr buf (8 * (i + q))) ≡ bits (8 * q + r) (shr buf (8 * i))
bytes_and_bits q r i buf =
    let further : shr buf (8 * (i + q)) ≡ shr buf (8 * i) / 2 ^ (8 * q) =
      let more : 8 * (i + q) ≡ 8 * i + 8 * q = omega arith in
      rw (more, pow_add (8 * i) (8 * q))
        (sym (div-div-eq-div-mul buf (2 ^ (8 * i)) (2 ^ (8 * q)))) in
    rw (byte_bits-eq q i buf, further) (sym (bits-add (8 * q) r (shr buf (8 * i))))

module _ (delay : Option (Probe → Probe)) (p : Patient probe delay) where
  pub shift_bytes-wire :
      (k i a d o : ℕ) (target : ℕ → Bool) (es fs : List Bool) (count held : ℕ) (tms tdi : Bool)
      → (shift_bytes k i
          (shift_bit_slow probe delay)
          (bytes_of_u64 a)
          (bytes_of_u64 d)
          o
          (resting target es fs count held tms tdi)).2
        ≡ resting target
            (es ++ byte_bits k i a)
            (fs ++ byte_bits k i d)
            (count + 8 * k)
            held
            (last_or (byte_bits k i a) tms)
            (last_or (byte_bits k i d) tdi)
  unfolding shift_bytes byte_bits last_or
  shift_bytes-wire zero i a d o target es fs count held tms tdi =
      rw (append-nil, append-nil, add-zero) refl
  shift_bytes-wire (suc k) i a d o target es fs count held tms tdi =
      let f = shift_bit_slow probe delay in
      let x = bits 8 (bytes_of_u64 a i) in
      let y = bits 8 (bytes_of_u64 d i) in
      let s = shift_bits 8 f (record {
        tms_last = bytes_of_u64 a i;
        tdi_last = bytes_of_u64 d i;
        tdo_last = o;
        wire = resting target es fs count held tms tdi;
      }) in
      let eight : count + 8 + 8 * k ≡ count + 8 * suc k = omega arith in
      ap (λ w. (shift_bytes k (i + 1) f (bytes_of_u64 a) (bytes_of_u64 d) s.tdo_last w).2)
        (shift_bits-wire delay p 8 (bytes_of_u64 a i) (bytes_of_u64 d i) o target es fs count held
          tms tdi)
      ∙ shift_bytes-wire k (i + 1) a d s.tdo_last target (es ++ x) (fs ++ y) (count + 8) held
          (last_or x tms) (last_or y tdi)
      ∙ rw
          (
            append_assoc es x (byte_bits k (i + 1) a),
            append_assoc fs y (byte_bits k (i + 1) d),
            eight,
            last_or-append x (byte_bits k (i + 1) a) tms,
            last_or-append y (byte_bits k (i + 1) d) tdi,
          )
          refl

  shift_tail-wire :
      (n i a d : ℕ) (target : ℕ → Bool) (es fs : List Bool) (count held : ℕ) (tms tdi : Bool)
      → n ≤ 8
      → (shift_tail n i
          (shift_bit_slow probe delay)
          (bytes_of_u64 a)
          (bytes_of_u64 d)
          (resting target es fs count held tms tdi)).1
        ≡ resting target
            (es ++ bits n (shr a (8 * i)))
            (fs ++ bits n (shr d (8 * i)))
            (count + n)
            held
            (last_or (bits n (shr a (8 * i))) tms)
            (last_or (bits n (shr d (8 * i))) tdi)
  unfolding shift_tail bytes_of_u64
  shift_tail-wire n i a d target es fs count held tms tdi h =
      let sent =
        shift_bits-wire delay p n (u8 (shr a (8 * i))) (u8 (shr d (8 * i))) 0 target es fs count
          held tms tdi in
      let cut = rw (bits-u8_le n (shr a (8 * i)) h, bits-u8_le n (shr d (8 * i)) h) at sent in
      elim (Bool-cases (n == 0)) [
        | inl e ↦ let nothing : n ≡ 0 = (==_iff n 0).0 e in rw nothing (rw nothing at cut)
        | inr e ↦ rw e cut
      ]

  -- All bits of the buffers from byte `i` on.
  pub shift_all-wire :
      (n i a d o : ℕ) (target : ℕ → Bool) (es fs : List Bool) (count held : ℕ) (tms tdi : Bool)
      → (shift_all n i
          (shift_bit_slow probe delay)
          (bytes_of_u64 a)
          (bytes_of_u64 d)
          o
          (resting target es fs count held tms tdi)).1
        ≡ resting target
            (es ++ bits n (shr a (8 * i)))
            (fs ++ bits n (shr d (8 * i)))
            (count + n)
            held
            (last_or (bits n (shr a (8 * i))) tms)
            (last_or (bits n (shr d (8 * i))) tdi)
  unfolding shift_all
  shift_all-wire n i a d o target es fs count held tms tdi =
      let q = shr n 3 in
      let r = n % 8 in
      let f = shift_bit_slow probe delay in
      let ta = bytes_of_u64 a in
      let td = bytes_of_u64 d in
      let xs = byte_bits q i a in
      let ys = byte_bits q i d in
      let us = bits r (shr a (8 * (i + q))) in
      let vs = bits r (shr d (8 * (i + q))) in
      let sum : 8 * q + r ≡ n = omega arith in
      let steps : count + 8 * q + r ≡ count + n = omega arith in
      let first : xs ++ us ≡ bits n (shr a (8 * i)) = bytes_and_bits q r i a ∙ rw sum refl in
      let second : ys ++ vs ≡ bits n (shr d (8 * i)) = bytes_and_bits q r i d ∙ rw sum refl in
      ap (λ w. (shift_tail r (i + q) f ta td w).1)
        (shift_bytes-wire q i a d o target es fs count held tms tdi)
      ∙ shift_tail-wire r (i + q) a d target (es ++ xs) (fs ++ ys) (count + 8 * q) held
          (last_or xs tms) (last_or ys tdi) (omega arith)
      ∙ rw
          (
            append_assoc es xs us,
            append_assoc fs ys vs,
            steps,
            sym (last_or-append xs us tms),
            sym (last_or-append ys vs tdi),
            first,
            second,
          )
          refl

  -- The slow routine of a scan puts the bits of its two buffers on TMS and TDI, in order, one clock
  -- for each.
  pub jtag_rw_slow-wire :
      (n a d : ℕ) (target : ℕ → Bool) (es fs : List Bool) (count held : ℕ) (tms tdi : Bool)
      → (jtag_rw_slow probe delay n
          (bytes_of_u64 a)
          (bytes_of_u64 d)
          (resting target es fs count held tms tdi)).1
        ≡ resting target
            (es ++ bits n a)
            (fs ++ bits n d)
            (count + n)
            held
            (last_or (bits n a) tms)
            (last_or (bits n d) tdi)
  unfolding jtag_rw_slow
  jtag_rw_slow-wire n a d target es fs count held tms tdi =
      rw (whole a, whole d) at (shift_all-wire n 0 a d 0 target es fs count held tms tdi)
