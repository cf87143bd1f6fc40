-- ===== src/Tests/SwdLine.antt =====
-- The theorems on the transfers of cmsis-dap/swd.c at concrete inputs: a probe with a turnaround of
-- one clock and two idle cycles on the scope, and targets that answer by a given sequence.
use cherry_link.Base.{
  ℕ, ◌+◌, ◌-◌, ◌<◌, ◌≡◌, refl, Bool, true, false, if◌then◌else◌, none, some, [], ◌++◌, get_or,
  arith, ltb, ◌==◌, ◌||◌,
}
use cherry_link.Swd.Bits.{
  swd_read_io_quick, swd_read_io_slow, swd_write_io_quick, swd_write_io_slow,
}
use cherry_link.Swd.Bounds.{IsBounded, Reach-IsBounded, start, next, config}
use cherry_link.Swd.Control.{Control, Line, slow, dap_swd_init, dap_swd_config}
use cherry_link.Swd.Pace.{Patient, quick-eq-slow}
use cherry_link.Swd.Read.{
  reply, read_pass_quick, read_pass_slow, swd_read_quick, swd_read_slow, dap_swd_read,
}
use cherry_link.Swd.Results.{
  ReadAnswer, WriteAnswer, RepliesAs, dap_swd_read-RepliesAs, dap_swd_write-RepliesAs,
}
use cherry_link.Swd.Rounds.{Rounds, transfer-Rounds, transfer-forced}
use cherry_link.Swd.Scope.{Scope, scope, released}
use cherry_link.Swd.Scope.Answered.{read_done, read_packet, swd_read-read_packet}
use cherry_link.Swd.Scope.RoundTrip.{data_phase, swd_read-data_phase}
use cherry_link.Swd.Scope.Written.{write_done, write_packet, swd_write-write_packet}
use cherry_link.Swd.Write.{
  write_pass_quick, write_pass_slow, swd_write_quick, swd_write_slow, dap_swd_write,
}
use cherry_link.Wire.{call}

abbrev settings : Bool → Control Scope
settings force = record {
  idle = 2;
  trn = 1;
  data_force = force;
  retry_limit = 3;
  dap_timestamp = 0;
  routines = slow;
  swd_delay = none;
}

-- OK after the request and one clock, and low levels from then on
abbrev silent : ℕ → Bool
silent n = n == 9

-- a wait in answer to each of the first two requests
abbrev slow_target : ℕ → Bool
slow_target n = n == 10 || n == 23

-- OK, then the data phase of a word
abbrev replaying : ℕ → ℕ → Bool
replaying word n = if ltb n 12 then n == 9 else get_or (data_phase word) (n - 12) false

abbrev line : Bool → (ℕ → Bool) → Line Scope
line force target = record { control = settings force; wire = released target [] 0 0 true }

patient : Patient scope none
unfolding scope call
patient = record { waits = λ w. refl; idles = λ w. refl }

swd_write-write_packet_example :
    (swd_write_slow scope 0x01 0xdeadbeef (line false silent)
      ≡ write_done
          (settings false)
          patient
          0x01
          0xdeadbeef
          silent
          ([] ++ write_packet 1 2 0x01 0xdeadbeef)
          0)
    × (swd_write_quick scope 0x01 0xdeadbeef (line false silent)
        ≡ write_done
            (settings false)
            patient
            0x01
            0xdeadbeef
            silent
            ([] ++ write_packet 1 2 0x01 0xdeadbeef)
            0)
swd_write-write_packet_example =
    swd_write-write_packet (settings false) patient 0x01 0xdeadbeef silent [] 0 0 true (omega arith)
      refl refl refl

swd_read-read_packet_example :
    (swd_read_slow scope 0x02 (line false silent)
      ≡ read_done (settings false) patient 0x02 silent ([] ++ read_packet 1 2 0x02) 12 true)
    × (swd_read_quick scope 0x02 (line false silent)
        ≡ read_done (settings false) patient 0x02 silent ([] ++ read_packet 1 2 0x02) 12 true)
swd_read-read_packet_example =
    swd_read-read_packet (settings false) patient 0x02 silent [] 0 0 true (omega arith) refl refl
      refl

replayed : (word i : ℕ) → i < 33 → replaying word (12 + i) ≡ get_or (data_phase word) i false
replayed word i h =
    let same : 12 + i - 12 ≡ i = omega arith in
    let late : ltb (12 + i) 12 ≡ false = ground arith in rw (late, same) refl

swd_read-data_phase_example :
    ((swd_read_slow scope 0x02 (line false (replaying 0xdeadbeef))).ack ≡ 1)
    × ((swd_read_slow scope 0x02 (line false (replaying 0xdeadbeef))).word ≡ some 0xdeadbeef)
    × ((swd_read_quick scope 0x02 (line false (replaying 0xdeadbeef))).ack ≡ 1)
    × ((swd_read_quick scope 0x02 (line false (replaying 0xdeadbeef))).word ≡ some 0xdeadbeef)
swd_read-data_phase_example =
    swd_read-data_phase (settings false) 0x02 0xdeadbeef (replaying 0xdeadbeef) [] 0 0 true patient
      (omega arith) (omega arith) refl refl refl (replayed 0xdeadbeef)

quick-eq-slow_example :
    (swd_read_quick scope 0x02 (line false slow_target)
      ≡ swd_read_slow scope 0x02 (line false slow_target))
    × (swd_write_quick scope 0x02 7 (line false slow_target)
        ≡ swd_write_slow scope 0x02 7 (line false slow_target))
    × (swd_read_io_quick scope 5 (line false slow_target)
        ≡ swd_read_io_slow scope 5 (line false slow_target))
    × (swd_write_io_quick scope 9 5 (line false slow_target)
        ≡ swd_write_io_slow scope 9 5 (line false slow_target))
quick-eq-slow_example = quick-eq-slow scope 0x02 7 5 9 (line false slow_target) patient

transfer-Rounds_example :
    Rounds
      (read_pass_quick scope 0x02)
      3
      (line false slow_target)
      (swd_read_quick scope 0x02 (line false slow_target))
    × Rounds
        (read_pass_slow scope 0x02)
        3
        (line false slow_target)
        (swd_read_slow scope 0x02 (line false slow_target))
    × Rounds
        (write_pass_quick scope 0x02 7)
        3
        (line false slow_target)
        (swd_write_quick scope 0x02 7 (line false slow_target))
    × Rounds
        (write_pass_slow scope 0x02 7)
        3
        (line false slow_target)
        (swd_write_slow scope 0x02 7 (line false slow_target))
transfer-Rounds_example = transfer-Rounds scope 0x02 7 (line false slow_target)

transfer-forced_example :
    (swd_read_quick scope 0x02 (line true slow_target)
      ≡ reply (read_pass_quick scope 0x02 (line true slow_target)))
    × (swd_read_slow scope 0x02 (line true slow_target)
        ≡ reply (read_pass_slow scope 0x02 (line true slow_target)))
    × (swd_write_quick scope 0x02 7 (line true slow_target)
        ≡ reply (write_pass_quick scope 0x02 7 (line true slow_target)))
    × (swd_write_slow scope 0x02 7 (line true slow_target)
        ≡ reply (write_pass_slow scope 0x02 7 (line true slow_target)))
transfer-forced_example = transfer-forced scope 0x02 7 (line true slow_target) refl

-- After a wait with a forced data phase the acknowledge is lost.
forced_wait : (swd_read_slow scope 0x02 (line true slow_target)).ack ≡ 0
unfolding swd_read_slow released scope
forced_wait = refl

dap_swd_read-RepliesAs_example :
    RepliesAs
      (ReadAnswer scope)
      (settings false)
      (swd_read_slow scope 0x02 (line false slow_target))
dap_swd_read-RepliesAs_example =
    dap_swd_read-RepliesAs scope 0x02 (line false slow_target)
      (swd_read_slow scope 0x02 (line false slow_target)) (unfold dap_swd_read in refl)

dap_swd_write-RepliesAs_example :
    RepliesAs WriteAnswer (settings false) (swd_write_slow scope 0x02 7 (line false slow_target))
dap_swd_write-RepliesAs_example =
    dap_swd_write-RepliesAs scope 0x02 7 (line false slow_target)
      (swd_write_slow scope 0x02 7 (line false slow_target)) (unfold dap_swd_write in refl)

Reach-IsBounded_example :
    IsBounded
      (dap_swd_config scope 1000 70000 255 200 true (dap_swd_init scope (line false silent)))
Reach-IsBounded_example =
    Reach-IsBounded scope
      (next (start (line false silent) refl) (config 1000 70000 255 200 true refl))
