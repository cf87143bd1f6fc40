-- ===== src/Jtag/Probe/Delivered.antt =====
-- `dap_jtag_dr` of cmsis-dap/jtag.c as a whole, on the line and on the devices behind it.
use cherry_link.Base.{
  ℕ, suc, ◌+◌, ◌-◌, ◌*◌, ◌^◌, ◌<◌, ◌≤◌, ◌≡◌, refl, ◌⊎◌, inl, inr, Bool, true, false, Option, none,
  some, List, [], ◌++◌, arith, shr, ◌==◌, has, leb, Bool-cases, u32,
}
use cherry_link.Dap.Driver.{Reply}
use cherry_link.Jtag.Access.{rw_dr, dr_rounds, dap_jtag_dr}
use cherry_link.Jtag.Control.{Chain, JtagControl, jtag_stamp}
use cherry_link.Jtag.Probe.{Probe, probe, resting}
use cherry_link.Jtag.Probe.Dr.{dr_scan-Sent}
use cherry_link.Jtag.Scan.{dr_scan}
use cherry_link.Jtag.Scan.Dr.{dr_tms, dr_tdi, dr_levels}
use cherry_link.Jtag.Tap.{tap_run, idle}
use cherry_link.Jtag.Tap.Data.{rounds_of, rounds-tap_run}
use cherry_link.Swd.Control.{quick, slow}
use cherry_link.Swd.Pace.{Patient}
use cherry_link.Jtag.Probe.Rounds.{Ended, dr_rounds-Ended}

-- A call returns after some retries, and from the idle state the levels that it adds to TMS and TDI
-- shift `levels` into the data registers once for each round, nothing into an instruction register,
-- and lead to the idle state again.
pub record Delivered (es fs levels : List Bool) (retry_limit : ℕ)
    (result : Option (Reply (Chain Probe))) : Type 0 where
  pub retries : ℕ
  pub few : retries ≤ retry_limit
  pub reply : Reply (Chain Probe)
  pub returned : result ≡ some reply
  pub answered : (retries ≡ retry_limit) ⊎ ((reply.ack == 2) ≡ false)
  pub ts : List Bool
  pub ds : List Bool
  pub tms_edges : reply.world.wire.tms_edges ≡ es ++ ts
  pub tdi_edges : reply.world.wire.tdi_edges ≡ fs ++ ds
  pub shifted :
      tap_run idle ts ds
      ≡ record { state = idle; into_ir = []; into_dr = rounds_of (suc retries) levels }

stamped-Delivered :
    (c : JtagControl Probe) (request dr dr_before dr_after : ℕ) (target : ℕ → Bool)
    (es fs : List Bool) (x : Option (ℕ × ℕ × Chain Probe))
    → Ended c target es fs
        (dr_tms c.idle dr_before dr_after)
        (dr_tdi c.idle request dr dr_before dr_after)
        c.retry_limit
        x
    → Delivered es fs (dr_levels request dr dr_before dr_after) c.retry_limit (elim x [
      | some (ack, buf_tdo, l') ↦
          some (record { ack = ack; word = some (u32 (shr buf_tdo (dr_before + 6))); world = l' })
      | none ↦ none
    ])
stamped-Delivered c request dr dr_before dr_after target es fs x h = record {
  retries = h.retries;
  few = h.few;
  reply = record {
    ack = h.ack;
    word = some (u32 (shr h.tdo (dr_before + 6)));
    world = record {
      control = c;
      wire =
          resting target (es ++ rounds_of (suc h.retries) (dr_tms c.idle dr_before dr_after))
            (fs ++ rounds_of (suc h.retries) (dr_tdi c.idle request dr dr_before dr_after)) h.count
            h.held h.tms h.tdi;
    };
  };
  returned = rw (h.ended) refl;
  answered = h.answered;
  ts = rounds_of (suc h.retries) (dr_tms c.idle dr_before dr_after);
  ds = rounds_of (suc h.retries) (dr_tdi c.idle request dr dr_before dr_after);
  tms_edges = unfold resting in refl;
  tdi_edges = unfold resting in refl;
  shifted = rounds-tap_run (suc h.retries) c.idle request dr dr_before dr_after;
}

sent-Delivered :
    (c : JtagControl Probe) (request dr dr_before dr_after : ℕ) (target : ℕ → Bool)
    (es fs : List Bool) (count held : ℕ) (tms tdi : Bool)
    → Patient probe c.jtag_delay
    → (c.routines ≡ quick) ⊎ (c.routines ≡ slow)
    → dr < 2 ^ 32
    → 40 + dr_before + dr_after + c.idle ≤ 64
    → let s = dr_scan c.idle request dr dr_before dr_after in
      let transfer =
        rw_dr probe s.dma_bytes (s.scan.bitlen - 8 - 8 * s.dma_bytes) s.scan.tms s.scan.tdi in
      Delivered es fs
        (dr_levels request dr dr_before dr_after)
        c.retry_limit
        (elim (dr_rounds probe c.retry_limit transfer dr_before
          (record { control = c; wire = resting target es fs count held tms tdi })) [
            | some (ack, buf_tdo, l') ↦
                some (record {
                  ack = ack;
                  word = some (u32 (shr buf_tdo (dr_before + 6)));
                  world = l';
                })
            | none ↦ none
          ])
sent-Delivered c request dr dr_before dr_after target es fs count held tms tdi p chosen word fits =
    let s = dr_scan c.idle request dr dr_before dr_after in
    stamped-Delivered c request dr dr_before dr_after target es fs _ (
      dr_rounds-Ended c target (dr_tms c.idle dr_before dr_after)
        (dr_tdi c.idle request dr dr_before dr_after) dr_before
        (rw_dr probe s.dma_bytes (s.scan.bitlen - 8 - 8 * s.dma_bytes) s.scan.tms s.scan.tdi)
        (λ es' fs' count' held' tms' tdi'.
          dr_scan-Sent c p chosen request dr dr_before dr_after target es' fs' count' held' tms'
            tdi' word fits)
        c.retry_limit es fs count held tms tdi)

stamp-cases :
    (request : ℕ) (c : JtagControl Probe) (target : ℕ → Bool) (es fs : List Bool) (count held : ℕ)
    (tms tdi : Bool)
    → let w = resting target es fs count held tms tdi in
      (jtag_stamp probe request (record { control = c; wire = w })
        ≡ record { control = c; wire = w })
      ⊎ (jtag_stamp probe request (record { control = c; wire = w })
          ≡ record { control = record c { dap_timestamp = count }; wire = w })
unfolding jtag_stamp probe resting
stamp-cases request c target es fs count held tms tdi = elim (Bool-cases (has request 128)) [
  | inl e ↦ inr (rw e refl)
  | inr e ↦ inl (rw e refl)
]

-- After `dap_jtag_config`, with delays that have no effect on the line, for a word of 32 bits and a
-- scan of at most 64 clocks: `dap_jtag_dr` returns after at most the configured count of retries,
-- and unless it makes all of them the acknowledge is not the one to wait. From the idle state, the
-- levels that it adds to TMS and TDI shift into the data registers, once for each round, zeros for
-- the devices before, the direction and the address of the request, the word with its lowest bit
-- first (zeros for a request that reads), and zeros for the devices after; nothing goes into an
-- instruction register, and the state is idle again.
pub dap_jtag_dr-Delivered :
    (c : JtagControl Probe) (request dr dr_before dr_after : ℕ) (target : ℕ → Bool)
    (es fs : List Bool) (count held : ℕ) (tms tdi : Bool)
    → Patient probe c.jtag_delay
    → (c.routines ≡ quick) ⊎ (c.routines ≡ slow)
    → dr < 2 ^ 32
    → 40 + dr_before + dr_after + c.idle ≤ 64
    → Delivered es fs (dr_levels request dr dr_before dr_after) c.retry_limit (
        dap_jtag_dr probe request dr dr_before dr_after
          (record { control = c; wire = resting target es fs count held tms tdi }))
unfolding dap_jtag_dr jtag_stamp
dap_jtag_dr-Delivered c request dr dr_before dr_after target es fs count held tms tdi p chosen word
      fits =
    let s = dr_scan c.idle request dr dr_before dr_after in
    let size : leb s.scan.bitlen 64 ≡ true = unfold dr_scan in ground arith in
    elim (stamp-cases request c target es fs count held tms tdi) [
      | inl e ↦
          rw (size, e)
            (sent-Delivered c request dr dr_before dr_after target es fs count held tms tdi p chosen
              word fits)
      | inr e ↦
          rw (size, e)
            (sent-Delivered (record c { dap_timestamp = count }) request dr dr_before dr_after
              target es fs count held tms tdi p chosen word fits)
    ]
