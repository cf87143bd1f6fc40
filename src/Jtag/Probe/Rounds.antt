-- ===== src/Jtag/Probe/Rounds.antt =====
-- The rounds of `dap_jtag_dr` of cmsis-dap/jtag.c on the line.
use cherry_link.Base.{
  ℕ, zero, suc, ◌+◌, ◌≤◌, ◌≡◌, refl, ap, ◌∙◌, ◌⊎◌, inl, inr, Bool, true, false, if◌then◌else◌,
  Option, some, List, ◌++◌, append-nil, append_assoc, arith, shr, ◌==◌, bit_and,
}
use cherry_link.Jtag.Access.{dr_rounds, turn_ack}
use cherry_link.Jtag.Control.{Chain, JtagControl}
use cherry_link.Jtag.Probe.{Probe, probe, resting}
use cherry_link.Jtag.Probe.Dr.{Sent}
use cherry_link.Jtag.Tap.Data.{rounds_of}

-- Some rounds, one at least and not more than `left` allows: each adds these levels to the two
-- outputs, and unless it was the last one that is allowed, the acknowledge is not the one to wait.
pub record Ended (c : JtagControl Probe) (target : ℕ → Bool) (es fs ts ds : List Bool) (left : ℕ)
    (result : Option (ℕ × ℕ × Chain Probe)) : Type 0 where
  pub retries : ℕ
  pub few : retries ≤ left
  pub ack : ℕ
  pub answered : (retries ≡ left) ⊎ ((ack == 2) ≡ false)
  pub tdo : ℕ
  pub count : ℕ
  pub held : ℕ
  pub tms : Bool
  pub tdi : Bool
  pub ended :
      result
      ≡ some (
        ack,
        tdo,
        record {
          control = c;
          wire =
              resting target
                (es ++ rounds_of (suc retries) ts)
                (fs ++ rounds_of (suc retries) ds)
                count
                held
                tms
                tdi;
        },
      )

Ended-if :
    {c : JtagControl Probe} {target : ℕ → Bool} {es fs ts ds : List Bool} {left : ℕ} (t : Bool)
    {x y : Option (ℕ × ℕ × Chain Probe)}
    → (t ≡ true → Ended c target es fs ts ds left x)
    → (t ≡ false → Ended c target es fs ts ds left y)
    → Ended c target es fs ts ds left (if t then x else y)
Ended-if true h k = h refl
Ended-if false h k = k refl

module _ (c : JtagControl Probe) (target : ℕ → Bool) (ts ds : List Bool) (dr_before : ℕ)
    (transfer : Chain Probe → Option (ℕ × Chain Probe))
    (each : (es fs : List Bool) (count held : ℕ) (tms tdi : Bool)
      → Sent c target
          (es ++ ts)
          (fs ++ ds)
          (transfer (record { control = c; wire = resting target es fs count held tms tdi }))) where
  last-Ended :
      (left ack tdo count held : ℕ) (es fs : List Bool) (tms tdi : Bool)
      → (0 ≡ left) ⊎ ((ack == 2) ≡ false)
      → Ended c target es fs ts ds left (
          some (
            ack,
            tdo,
            record { control = c; wire = resting target (es ++ ts) (fs ++ ds) count held tms tdi },
          ))
  unfolding rounds_of
  last-Ended left ack tdo count held es fs tms tdi answered = record {
    retries = 0;
    few = omega arith;
    ack = ack;
    answered = answered;
    tdo = tdo;
    count = count;
    held = held;
    tms = tms;
    tdi = tdi;
    ended = rw (append-nil, append-nil) refl;
  }

  more-Ended :
      (left : ℕ) (es fs : List Bool) (x : Option (ℕ × ℕ × Chain Probe))
      → Ended c target (es ++ ts) (fs ++ ds) ts ds left x
      → Ended c target es fs ts ds (suc left) x
  unfolding rounds_of
  more-Ended left es fs x h = record {
    retries = suc h.retries;
    few = omega (arith, h.few);
    ack = h.ack;
    answered = elim (h.answered) [ inl e ↦ inl (ap suc e) | inr e ↦ inr e ];
    tdo = h.tdo;
    count = h.count;
    held = h.held;
    tms = h.tms;
    tdi = h.tdi;
    ended =
        h.ended
        ∙ rw
            (
              append_assoc es ts (rounds_of (suc h.retries) ts),
              append_assoc fs ds (rounds_of (suc h.retries) ds),
            )
            refl;
  }

  pub dr_rounds-Ended :
      (left : ℕ) (es fs : List Bool) (count held : ℕ) (tms tdi : Bool)
      → Ended c target es fs ts ds left (
          dr_rounds probe left transfer dr_before
            (record { control = c; wire = resting target es fs count held tms tdi }))
  unfolding dr_rounds
  dr_rounds-Ended zero es fs count held tms tdi =
      let x = each es fs count held tms tdi in
      rw (dr_rounds, x.sent) (last-Ended 0 _ _ _ _ es fs _ _ (inl refl))
  dr_rounds-Ended (suc left) es fs count held tms tdi =
      let x = each es fs count held tms tdi in
      let rest =
        more-Ended left es fs _
          (dr_rounds-Ended left (es ++ ts) (fs ++ ds) x.count x.held x.tms x.tdi) in
      let ack = turn_ack (bit_and (shr x.tdo (dr_before + 3)) 7) in
      rw (dr_rounds, x.sent)
        (Ended-if (ack == 2) (λ _. rest)
          (λ e. last-Ended (suc left) ack x.tdo x.count x.held es fs x.tms x.tdi (inr e)))
