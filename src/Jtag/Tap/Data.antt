-- ===== src/Jtag/Tap/Data.antt =====
-- What the levels of `dap_jtag_dr` of cmsis-dap/jtag.c do to a JTAG device.
use cherry_link.Base.{
  ℕ, zero, suc, ◌+◌, ◌≡◌, refl, ap, ◌∙◌, Bool, true, false, List, [], ◌∷◌, ◌++◌, length,
  append_assoc, replicate, length-append, length-replicate, arith,
}
use cherry_link.Jtag.Scan.Dr.{dr_tms, dr_tdi, dr_levels, length-dr_levels}
use cherry_link.Jtag.Tap.{Run, tap_run, take_in, idle, shift_dr, exit1_dr}

-- TMS is low in the shift state for each bit but the last one, which goes in too.
shift_dr-run :
    (xs tms tdi : List Bool) (n : ℕ)
    → length xs ≡ suc n
    → tap_run shift_dr (replicate n false ++ (true ∷ tms)) (xs ++ tdi) ≡ record {
      state = (tap_run exit1_dr tms tdi).state;
      into_ir = (tap_run exit1_dr tms tdi).into_ir;
      into_dr = xs ++ (tap_run exit1_dr tms tdi).into_dr;
    }
unfolding tap_run
shift_dr-run [] tms tdi n l = absurd (omega arith)
shift_dr-run (x ∷ []) tms tdi zero l = refl
shift_dr-run (x ∷ []) tms tdi (suc n) l = absurd (omega arith)
shift_dr-run (x ∷ y ∷ xs) tms tdi zero l = absurd (omega arith)
shift_dr-run (x ∷ y ∷ xs) tms tdi (suc n) l =
    ap (take_in shift_dr x) (shift_dr-run (y ∷ xs) tms tdi n (omega arith))

-- The idle state stays, whatever TDI is.
idle-run :
    (n : ℕ) (levels tms tdi : List Bool)
    → length levels ≡ n
    → tap_run idle (replicate n false ++ tms) (levels ++ tdi) ≡ tap_run idle tms tdi
unfolding tap_run
idle-run zero [] tms tdi l = refl
idle-run zero (x ∷ levels) tms tdi l = absurd (omega arith)
idle-run (suc n) [] tms tdi l = absurd (omega arith)
idle-run (suc n) (x ∷ levels) tms tdi l = idle-run n levels tms tdi (omega arith)

exit1_dr-run :
    (n : ℕ) (tms tdi : List Bool)
    → tap_run exit1_dr
        (true ∷ (replicate (suc n) false ++ tms))
        ((replicate (suc n) false ++ (true ∷ [])) ++ tdi)
      ≡ tap_run idle tms tdi
unfolding tap_run
exit1_dr-run zero tms tdi = refl
exit1_dr-run (suc n) tms tdi =
    idle-run (suc n) (replicate n false ++ (true ∷ [])) tms tdi
      (omega (arith, length-append (replicate n false) (true ∷ []), length-replicate n false))

-- The levels of `dr_tms` and `dr_tdi` on the controller, before others.
dr-tap_run :
    (more request dr dr_before dr_after : ℕ) (tms tdi : List Bool)
    → tap_run idle
        (dr_tms more dr_before dr_after ++ tms)
        (dr_tdi more request dr dr_before dr_after ++ tdi)
      ≡ record {
        state = (tap_run idle tms tdi).state;
        into_ir = (tap_run idle tms tdi).into_ir;
        into_dr = dr_levels request dr dr_before dr_after ++ (tap_run idle tms tdi).into_dr;
      }
unfolding tap_run
dr-tap_run more request dr dr_before dr_after tms tdi =
    let levels = dr_levels request dr dr_before dr_after in
    let n = 34 + dr_before + dr_after in
    let ends = replicate (suc more) false in
    ap (λ (x : List Bool × List Bool). tap_run shift_dr x.0 x.1)
      {y = (
        replicate n false ++ (true ∷ (true ∷ (ends ++ tms))),
        levels ++ ((ends ++ (true ∷ [])) ++ tdi),
      )}
      (ap (λ (xs : List Bool). (xs, (levels ++ (ends ++ (true ∷ []))) ++ tdi))
          (append_assoc (replicate n false) (true ∷ true ∷ ends) tms)
        ∙ ap (λ (ys : List Bool). (replicate n false ++ (true ∷ (true ∷ (ends ++ tms))), ys))
            (append_assoc levels (ends ++ (true ∷ [])) tdi))
    ∙ shift_dr-run levels (true ∷ (ends ++ tms)) ((ends ++ (true ∷ [])) ++ tdi) n
        (length-dr_levels request dr dr_before dr_after)
    ∙ ap (λ r. record { state = r.state; into_ir = r.into_ir; into_dr = levels ++ r.into_dr })
        (exit1_dr-run more tms tdi)

-- The same levels some times over.
unfoldable pub rounds_of : ℕ → List Bool → List Bool
rounds_of zero levels = []
rounds_of (suc rounds) levels = levels ++ rounds_of rounds levels

pub rounds-tap_run :
    (rounds more request dr dr_before dr_after : ℕ)
    → tap_run idle
        (rounds_of rounds (dr_tms more dr_before dr_after))
        (rounds_of rounds (dr_tdi more request dr dr_before dr_after))
      ≡ record {
        state = idle;
        into_ir = [];
        into_dr = rounds_of rounds (dr_levels request dr dr_before dr_after);
      }
unfolding tap_run rounds_of
rounds-tap_run zero more request dr dr_before dr_after = refl
rounds-tap_run (suc rounds) more request dr dr_before dr_after =
    dr-tap_run more request dr dr_before dr_after
      (rounds_of rounds (dr_tms more dr_before dr_after))
      (rounds_of rounds (dr_tdi more request dr dr_before dr_after))
    ∙ ap
        (λ (r : Run). record {
          state = r.state;
          into_ir = r.into_ir;
          into_dr = dr_levels request dr dr_before dr_after ++ r.into_dr;
        })
        (rounds-tap_run rounds more request dr dr_before dr_after)
