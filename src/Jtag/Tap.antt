-- ===== src/Jtag/Tap.antt =====
-- The states of a JTAG device, and what a scan of cmsis-dap/jtag.c does to it.
pub mod Data
use cherry_link.Base.{
  ℕ, zero, suc, ◌+◌, ◌-◌, ◌≡◌, refl, ap, sym, ◌∙◌, Bool, true, false, if◌then◌else◌, List, [], ◌∷◌,
  ◌++◌, length, length-append, length-replicate, replicate-add, replicate, append-nil, append_assoc,
  arith, ◌<◌, ◌≤◌,
}
use cherry_link.Bits.Lists.{bits, bits-value, value, length-bits}
use cherry_link.Jtag.Scan.{ir_scan}
use cherry_link.Jtag.Scan.Ir.{ir_tms, ir_tdi, ir_scan-Holds}

-- The controller of IEEE 1149.1.
pub data Tap : Type 0 where
  reset idle : Tap
  select_dr capture_dr shift_dr exit1_dr pause_dr exit2_dr update_dr : Tap
  select_ir capture_ir shift_ir exit1_ir pause_ir exit2_ir update_ir : Tap

-- Where a clock leads, by the level of TMS.
pub tap_next : Tap → Bool → Tap
tap_next reset tms = if tms then reset else idle
tap_next idle tms = if tms then select_dr else idle
tap_next select_dr tms = if tms then select_ir else capture_dr
tap_next capture_dr tms = if tms then exit1_dr else shift_dr
tap_next shift_dr tms = if tms then exit1_dr else shift_dr
tap_next exit1_dr tms = if tms then update_dr else pause_dr
tap_next pause_dr tms = if tms then exit2_dr else pause_dr
tap_next exit2_dr tms = if tms then update_dr else shift_dr
tap_next update_dr tms = if tms then select_dr else idle
tap_next select_ir tms = if tms then reset else capture_ir
tap_next capture_ir tms = if tms then exit1_ir else shift_ir
tap_next shift_ir tms = if tms then exit1_ir else shift_ir
tap_next exit1_ir tms = if tms then update_ir else pause_ir
tap_next pause_ir tms = if tms then exit2_ir else pause_ir
tap_next exit2_ir tms = if tms then update_ir else shift_ir
tap_next update_ir tms = if tms then select_dr else idle

-- What a run leaves: the state, and the levels of TDI that went into the instruction registers and
-- into the data registers, in order.
pub record Run : Type 0 where
  pub state : Tap
  pub into_ir : List Bool
  pub into_dr : List Bool

-- A level that a clock shifts in.
pub take_in : Tap → Bool → Run → Run
take_in shift_ir tdi r = record r { into_ir = tdi ∷ r.into_ir }
take_in shift_dr tdi r = record r { into_dr = tdi ∷ r.into_dr }
take_in _ tdi r = r

pub tap_run : Tap → List Bool → List Bool → Run
unfolding tap_next take_in
tap_run s [] tdi = record { state = s; into_ir = []; into_dr = [] }
tap_run s (t ∷ tms) [] = record { state = s; into_ir = []; into_dr = [] }
tap_run s (t ∷ tms) (d ∷ tdi) = take_in s d (tap_run (tap_next s t) tms tdi)

-- TMS is low in the shift state for each bit but the last one, which goes in too.
shift_ir-run :
    (xs tms tdi : List Bool) (n : ℕ)
    → length xs ≡ suc n
    → tap_run shift_ir (replicate n false ++ (true ∷ tms)) (xs ++ tdi) ≡ record {
      state = (tap_run exit1_ir tms tdi).state;
      into_ir = xs ++ (tap_run exit1_ir tms tdi).into_ir;
      into_dr = (tap_run exit1_ir tms tdi).into_dr;
    }
unfolding tap_run
shift_ir-run [] tms tdi n l = absurd (omega arith)
shift_ir-run (x ∷ []) tms tdi zero l = refl
shift_ir-run (x ∷ []) tms tdi (suc n) l = absurd (omega arith)
shift_ir-run (x ∷ y ∷ xs) tms tdi zero l = absurd (omega arith)
shift_ir-run (x ∷ y ∷ xs) tms tdi (suc n) l =
    ap (take_in shift_ir x) (shift_ir-run (y ∷ xs) tms tdi n (omega arith))

low_levels :
    (a b c : ℕ) (ts : List Bool)
    → replicate a false ++ (replicate b false ++ (replicate c false ++ ts))
      ≡ replicate (a + b + c) false ++ ts
low_levels a b c ts =
    sym (append_assoc (replicate a false) (replicate b false) (replicate c false ++ ts))
    ∙ sym (append_assoc (replicate a false ++ replicate b false) (replicate c false) ts)
    ∙ rw (replicate-add a b false, replicate-add (a + b) c false) refl

-- The levels of `ir_tms` and `ir_tdi` on the controller.
pub ir-tap_run :
    (ir lr_length ir_before ir_after : ℕ)
    → 0 < lr_length
    → tap_run idle (ir_tms lr_length ir_before ir_after) (ir_tdi ir lr_length ir_before ir_after)
      ≡ record {
        state = idle;
        into_ir = replicate ir_before true ++ (bits lr_length ir ++ replicate ir_after true);
        into_dr = [];
      }
unfolding tap_run
ir-tap_run ir lr_length ir_before ir_after some_bits =
    let a = replicate ir_before true in
    let c = replicate ir_after true in
    let levels = a ++ (bits lr_length ir ++ c) in
    let n = ir_before + (lr_length - 1) + ir_after in
    let size : length levels ≡ suc n = omega (
      arith,
      length-append a (bits lr_length ir ++ c),
      length-append (bits lr_length ir) c,
      length-replicate ir_before true,
      length-replicate ir_after true,
      length-bits lr_length ir,
    ) in
    let grouped : a ++ (bits lr_length ir ++ (c ++ (false ∷ true ∷ [])))
        ≡ levels ++ (false ∷ true ∷ []) =
      simp append_assoc in
    let whole : levels ++ [] ≡ levels = append-nil levels in
    ap (λ tms. tap_run shift_ir tms (a ++ (bits lr_length ir ++ (c ++ (false ∷ true ∷ [])))))
      (low_levels ir_before (lr_length - 1) ir_after (true ∷ true ∷ false ∷ []))
    ∙ ap (tap_run shift_ir (replicate n false ++ (true ∷ true ∷ false ∷ []))) grouped
    ∙ shift_ir-run levels (true ∷ false ∷ []) (false ∷ true ∷ []) n size
    ∙ rw whole refl

pub bits_held : (n buf : ℕ) (xs : List Bool) → buf ≡ value xs → length xs ≡ n → bits n buf ≡ xs
bits_held n buf xs e l = rw (e, sym l) (bits-value xs)
