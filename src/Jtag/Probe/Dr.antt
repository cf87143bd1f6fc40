-- ===== src/Jtag/Probe/Dr.antt =====
-- `dap_jtag_dr` of cmsis-dap/jtag.c on the line.
use cherry_link.Base.{
  ℕ, suc, ◌+◌, ◌-◌, ◌*◌, ◌/◌, ◌^◌, ◌<◌, ◌≤◌, ◌≡◌, refl, ap, sym, ◌∙◌, ◌⊎◌, inl, inr, Bool, true,
  false, Option, some, List, ◌∷◌, ◌++◌, replicate, replicate-add, append_assoc, length-replicate,
  arith, shr, u8,
}
use cherry_link.Bits.Lists.{bits, value, bits-u8, bits-prefix}
use cherry_link.Jtag.Access.{rw_dr}
use cherry_link.Jtag.Control.{Chain, JtagControl}
use cherry_link.Jtag.Pace.{jtag_quick-eq-slow}
use cherry_link.Jtag.Probe.{Probe, probe, resting}
use cherry_link.Jtag.Probe.Middle.{rw_dr-bits, spi_held}
use cherry_link.Jtag.Probe.Shifted.{last_or}
use cherry_link.Jtag.Probe.Whole.{byte_bits, byte_bits-eq}
use cherry_link.Jtag.Scan.{bytes_of_u64, dr_scan}
use cherry_link.Jtag.Scan.Dr.{dr_tms, dr_tdi, dr_scan-Holds}
use cherry_link.Jtag.Scan.Layout.{subst2}
use cherry_link.Jtag.Shift.{jtag_rw_dr_slow}
use cherry_link.Jtag.Tap.{bits_held}
use cherry_link.Swd.Control.{quick, slow}
use cherry_link.Swd.Pace.{Patient}
use cherry_link.Wire.{little_endian}

-- A buffer that begins with a high level and low ones for the rest of the first bytes: over the
-- SPI, TMS is as its buffer says.
low_bytes :
    (buf k : ℕ) (ys : List Bool) (tms : Bool)
    → buf ≡ value (true ∷ (replicate 7 false ++ (replicate (8 * k) false ++ ys)))
    → byte_bits k 1 buf ≡ replicate (8 * k) (last_or (bits 8 (bytes_of_u64 buf 0)) tms)
unfolding bytes_of_u64 last_or
low_bytes buf k ys tms e =
    let low = replicate (8 * k) false in
    let first : bits 8 (u8 (shr buf (8 * 0))) ≡ true ∷ replicate 7 false =
      bits-u8 (shr buf (8 * 0))
      ∙ ap (bits 8) {y = buf} (omega arith)
      ∙ ap (bits 8) e
      ∙ bits-prefix (true ∷ replicate 7 false) (low ++ ys) 8 refl in
    let next : shr buf (8 * 1) ≡ value (low ++ ys) = unfold value in omega (arith, e) in
    let others : bits (8 * k) (shr buf (8 * 1)) ≡ low =
      ap (bits (8 * k)) next ∙ bits-prefix low ys (8 * k) (length-replicate (8 * k) false) in
    byte_bits-eq k 1 buf ∙ others ∙ rw first refl

-- The levels for TMS, after those of the first `8 + 8 * k` clocks.
split_tms :
    (more dr_before dr_after k : ℕ)
    → 8 + 8 * k ≤ 37 + dr_before + dr_after
    → (ys : List Bool) × (dr_tms more dr_before dr_after
        ≡ true ∷ (replicate 7 false ++ (replicate (8 * k) false ++ ys)))
split_tms more dr_before dr_after k h =
    let m = 37 + dr_before + dr_after - (8 + 8 * k) in
    let zs = true ∷ true ∷ replicate (suc more) false in
    let all : 2 + (34 + dr_before + dr_after) ≡ 7 + (8 * k + m) = omega arith in
    (
      replicate m false ++ zs,
      ap (λ (xs : List Bool). true ∷ (xs ++ zs))
            (replicate-add 2 (34 + dr_before + dr_after) false
              ∙ ap (λ n. replicate n false) all
              ∙ sym (replicate-add 7 (8 * k + m) false)
              ∙ ap (λ (xs : List Bool). replicate 7 false ++ xs)
                  (sym (replicate-add (8 * k) m false)))
          ∙ ap (λ (xs : List Bool). true ∷ (replicate 7 false ++ xs))
              (append_assoc (replicate (8 * k) false) (replicate m false) zs),
    )

-- One round that leaves the line at rest, with these levels added.
pub record Sent (c : JtagControl Probe) (target : ℕ → Bool) (es fs : List Bool)
    (result : Option (ℕ × Chain Probe)) : Type 0 where
  pub tdo : ℕ
  pub count : ℕ
  pub held : ℕ
  pub tms : Bool
  pub tdi : Bool
  pub sent :
      result ≡ some (tdo, record { control = c; wire = resting target es fs count held tms tdi })

module _ (c : JtagControl Probe) (p : Patient probe c.jtag_delay)
    (chosen : (c.routines ≡ quick) ⊎ (c.routines ≡ slow)) where
  -- The scan with its middle over the SPI, by either routine.
  rw_dr-Sent :
      (k r a d : ℕ) (target : ℕ → Bool) (es fs : List Bool) (count held : ℕ) (tms tdi : Bool)
      → byte_bits k 1 a ≡ replicate (8 * k) (last_or (bits 8 (bytes_of_u64 a 0)) tms)
      → Sent c target (es ++ bits (8 * (1 + k) + r) a) (fs ++ bits (8 * (1 + k) + r) d) (
          rw_dr probe k r a d
            (record { control = c; wire = resting target es fs count held tms tdi }))
  unfolding rw_dr
  rw_dr-Sent k r a d target es fs count held tms tdi low =
      let w = resting target es fs count held tms tdi in
      let ta = bytes_of_u64 a in
      let td = bytes_of_u64 d in
      let same = (jtag_quick-eq-slow probe c.jtag_delay 0 k r ta td w p).1 in
      let sent = rw_dr-bits c.jtag_delay p k r a d target es fs count held tms tdi low in
      let tdo = little_endian (jtag_rw_dr_slow probe c.jtag_delay k r ta td w).0 in
      let done : ℕ → Probe → Option (ℕ × Chain Probe) =
        λ tdo w'. some (tdo, record { control = c; wire = w' }) in
      let step = ap (done tdo) sent in
      let begun : rw_dr probe k r a d (record { control = c; wire = w })
          ≡ done tdo (jtag_rw_dr_slow probe c.jtag_delay k r ta td w).1 =
        elim chosen [
          | inl e ↦ simp e (ap (λ (x : List ℕ × Probe). done (little_endian x.0) x.1) same)
          | inr e ↦ simp e refl
        ] in
      record {
        tdo = tdo;
        count = count + 8 + 8 * k + r;
        held = spi_held k target (count + 8) held;
        tms = last_or (bits r (shr a (8 * (1 + k)))) (last_or (bits 8 (ta 0)) tms);
        tdi = last_or (bits r (shr d (8 * (1 + k)))) (last_or (bits 8 (td 0)) tdi);
        sent = begun ∙ step;
      }

  -- The scan of `dap_jtag_dr`.
  pub dr_scan-Sent :
      (request dr dr_before dr_after : ℕ) (target : ℕ → Bool) (es fs : List Bool) (count held : ℕ)
      (tms tdi : Bool)
      → dr < 2 ^ 32
      → 40 + dr_before + dr_after + c.idle ≤ 64
      → let s = dr_scan c.idle request dr dr_before dr_after in
        Sent c target
          (es ++ dr_tms c.idle dr_before dr_after)
          (fs ++ dr_tdi c.idle request dr dr_before dr_after)
          (rw_dr probe s.dma_bytes
            (s.scan.bitlen - 8 - 8 * s.dma_bytes)
            s.scan.tms
            s.scan.tdi
            (record { control = c; wire = resting target es fs count held tms tdi }))
  dr_scan-Sent request dr dr_before dr_after target es fs count held tms tdi word fits =
      let s = dr_scan c.idle request dr dr_before dr_after in
      let k = s.dma_bytes in
      let r = s.scan.bitlen - 8 - 8 * k in
      let h = dr_scan-Holds c.idle request dr dr_before dr_after word fits in
      let k_eq : k ≡ (37 + dr_before + dr_after - 8) / 8 = unfold dr_scan in omega arith in
      let (ys, e) = split_tms c.idle dr_before dr_after k (omega arith) in
      let low = low_bytes s.scan.tms k ys tms (h.tms_bits ∙ ap value e) in
      let size : s.scan.bitlen ≡ 40 + dr_before + dr_after + c.idle =
        unfold dr_scan in omega arith in
      let clocks : 8 * (1 + k) + r ≡ s.scan.bitlen = omega arith in
      let t1 : bits (8 * (1 + k) + r) s.scan.tms ≡ dr_tms c.idle dr_before dr_after =
        bits_held _ s.scan.tms _ h.tms_bits (h.tms_length ∙ sym clocks) in
      let t2 : bits (8 * (1 + k) + r) s.scan.tdi ≡ dr_tdi c.idle request dr dr_before dr_after =
        bits_held _ s.scan.tdi _ h.tdi_bits (h.tdi_length ∙ sym clocks) in
      let x = rw_dr-Sent k r s.scan.tms s.scan.tdi target es fs count held tms tdi low in
      subst2
        (λ us vs. Sent c target (es ++ us) (fs ++ vs) (
          rw_dr probe k r s.scan.tms s.scan.tdi
            (record { control = c; wire = resting target es fs count held tms tdi })))
        t1 t2 x
