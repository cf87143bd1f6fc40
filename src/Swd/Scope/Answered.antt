-- ===== src/Swd/Scope/Answered.antt =====
-- The read of a word on the scope: what the probe makes of the target's levels.
use native.Mathlib.Nat.{pow-succ'}
use cherry_link.Base.{
  ℕ, zero, suc, ◌+◌, ◌*◌, ◌^◌, ◌<◌, ◌≡◌, refl, ap, ◌∙◌, Bool, true, false, if◌then◌else◌, Option,
  none, some, List, [], ◌∷◌, ◌++◌, map, replicate, append_assoc, arith, ◌==◌, u8,
}
use cherry_link.Dap.Driver.{Reply}
use cherry_link.Swd.Control.{Control, Line, stamp}
use cherry_link.Swd.Pace.{Patient, quick-eq-slow}
use cherry_link.Swd.Parity.{
  ones_parity, get_parity_32bit-eq-ones_parity, request_header, swd_header,
  request_header-eq-swd_header,
}
use cherry_link.Swd.Read.{
  Pass, bit, clock_slow, reply, read_bytes, read_result, read_ok_slow, read_answered_slow,
  read_pass_slow, swd_read_slow, swd_read_quick,
}
use cherry_link.Swd.Rounds.{waited, retrying-reply}
use cherry_link.Bits.Lists.{bits}
use cherry_link.Swd.Scope.{Scope, scope, released, number, act, spi_write, driven, shifted}
use cherry_link.Swd.Scope.Steps.{repeat-released, acknowledge-released}
use cherry_link.Wire.{
  ◌▷◌, repeat, call, little_endian, tck_to_app, tck_to_opp, tck_to_low, tck_to_high,
}

number-lt : (target : ℕ → Bool) (k n : ℕ) → number target k n < 2 ^ n
unfolding number
number-lt target k zero = omega arith
number-lt target k (suc n) =
    let twice : 2 ^ suc n ≡ 2 * 2 ^ n = rw pow-succ' refl in
    ground (arith, number-lt target (k + 1) n, twice)

-- Bits read one after the other spell the number of all of them.
number-add :
    (target : ℕ → Bool) (m n k : ℕ)
    → number target k (m + n) ≡ number target k m + 2 ^ m * number target (k + m) n
unfolding number
number-add target zero n k =
    let all : 0 + n ≡ n = omega arith in
    let same : k + 0 ≡ k = omega arith in rw (all, same) (omega arith)
number-add target (suc m) n k =
    let less : suc m + n ≡ suc (m + n) = omega arith in
    let same : k + suc m ≡ k + 1 + m = omega arith in
    let twice : 2 ^ suc m ≡ 2 * 2 ^ m = rw pow-succ' refl in
    rw (less, same, twice, number-add target m n (k + 1)) (grind arith)

-- The four bytes that a read takes from the target's levels from `k` on.
abbrev answer_bytes : (ℕ → Bool) → ℕ → List ℕ
answer_bytes target k =
    u8 (number target k 8)
    ∷ u8 (number target (k + 8) 8)
    ∷ u8 (number target (k + 8 + 8) 8)
    ∷ u8 (number target (k + 8 + 8 + 8) 8)
    ∷ []

four_bytes :
    (target : ℕ → Bool) (k : ℕ) → little_endian (answer_bytes target k) ≡ number target k 32
unfolding little_endian
four_bytes target k = omega (
  arith,
  number-add target 8 24 k,
  number-add target 8 16 (k + 8),
  number-add target 8 8 (k + 8 + 8),
  number-lt target k 8,
  number-lt target (k + 8) 8,
  number-lt target (k + 8 + 8) 8,
  number-lt target (k + 8 + 8 + 8) 8,
)

-- The four bytes of a read, with the line released and the clock on the SPI.
read_bytes-released :
    (target : ℕ → Bool) (edges : List (Option Bool)) (count held : ℕ) (level : Bool)
    → read_bytes scope 4 (scope.act tck_to_app (released target edges count held level)) ≡ (
      answer_bytes target count,
      scope.act tck_to_app (
          released target
            (edges ++ replicate 32 none)
            (count + 8 + 8 + 8 + 8)
            (number target (count + 8 + 8 + 8) 8)
            level),
    )
unfolding read_bytes released scope act spi_write driven shifted
read_bytes-released target edges count held level = simp append_assoc

parity_clock-released :
    (target : ℕ → Bool) (edges : List (Option Bool)) (count held : ℕ) (level : Bool)
    → (scope.act tck_to_app (released target edges count held level)
        ▷ scope.act tck_to_opp
        ▷ scope.act tck_to_low
        ▷ scope.act tck_to_high)
      ≡ released target (edges ++ (none ∷ [])) (count + 1) held level
unfolding released scope act driven
parity_clock-released target edges count held level = refl

parity_level-released :
    (target : ℕ → Bool) (edges : List (Option Bool)) (count held : ℕ) (level : Bool)
    → scope.tms_read (
        scope.act tck_to_app (released target edges count held level)
        ▷ scope.act tck_to_opp
        ▷ scope.act tck_to_low)
      ≡ target count
unfolding released scope act
parity_level-released target edges count held level = refl

-- The packet of a read that is acknowledged, as the probe drives the line: the header of the
-- protocol, and then nothing, for the turnaround, the acknowledge, the word, its parity, the
-- turnaround and the idle cycles.
abbrev pub read_packet : ℕ → ℕ → ℕ → List (Option Bool)
read_packet trn idle request =
    map some (bits 8 (swd_header request))
    ++ (replicate trn none
        ++ (replicate 3 none ++ (replicate 32 none ++ (none ∷ replicate (trn + idle) none))))

-- `edges` and the released levels that a read puts after it
abbrev listened : ℕ → ℕ → List (Option Bool) → List (Option Bool)
listened trn idle edges = edges ++ replicate 32 none ++ (none ∷ []) ++ replicate (trn + idle) none

module _ (c : Control Scope) (p : Patient scope c.swd_delay) where
  abbrev finish : ℕ → List ℕ → Scope → Pass Scope
  finish request bytes w0 =
      let w1 = w0 ▷ scope.act tck_to_opp ▷ scope.act tck_to_low ▷ call c.swd_delay in
      let w2 =
        w1
        ▷ scope.act tck_to_high
        ▷ call c.swd_delay
        ▷ repeat (c.trn + c.idle) (clock_slow scope c.swd_delay) in
      read_result scope request bytes (scope.tms_read w1) (record { control = c; wire = w2 })

  finish-released :
      (request : ℕ) (bytes : List ℕ) (target : ℕ → Bool) (edges : List (Option Bool))
      (count held : ℕ) (level : Bool)
      → finish request bytes (scope.act tck_to_app (released target edges count held level))
        ≡ read_result scope request bytes (target count) (record {
          control = c;
          wire =
              released target
                (edges ++ (none ∷ []) ++ replicate (c.trn + c.idle) none)
                (count + 1 + (c.trn + c.idle))
                held
                level;
        })
  finish-released request bytes target edges count held level =
      rw
        (
          p.waits,
          p.waits,
          parity_level-released target edges count held level,
          parity_clock-released target edges count held level,
          repeat-released c.swd_delay p (c.trn + c.idle) target (edges ++ (none ∷ [])) (count + 1)
              held level,
        )
        refl

  read_ok-released :
      (request : ℕ) (target : ℕ → Bool) (edges : List (Option Bool)) (count held : ℕ) (level : Bool)
      → read_ok_slow scope request c (released target edges count held level)
        ≡ read_result scope request
            (answer_bytes target count)
            (target (count + 8 + 8 + 8 + 8))
            (record {
              control = c;
              wire =
                  released target
                    (listened c.trn c.idle edges)
                    (count + 8 + 8 + 8 + 8 + 1 + (c.trn + c.idle))
                    (number target (count + 8 + 8 + 8) 8)
                    level;
            })
  unfolding read_ok_slow
  read_ok-released request target edges count held level =
      ap (λ r. finish request r.0 r.1) (read_bytes-released target edges count held level)
      ∙ finish-released request (answer_bytes target count) target (edges ++ replicate 32 none)
          (count + 8 + 8 + 8 + 8) _ level

  read_result-number :
      (request : ℕ) (target : ℕ → Bool) (k : ℕ) (parity : Bool) (l : Line Scope)
      → read_result scope request (answer_bytes target k) parity l ≡ record {
        temp = if bit parity == ones_parity 32 (number target k 32) then 1 else 17;
        word = some (number target k 32);
        asked = false;
        line = stamp scope request l;
      }
  unfolding read_result
  read_result-number request target k parity l =
      rw (four_bytes target k, get_parity_32bit-eq-ones_parity (number target k 32)) refl

  -- what a read that is acknowledged gives, the data beginning `k` edges after the start
  abbrev pub read_done : ℕ → (ℕ → Bool) → List (Option Bool) → ℕ → Bool → Reply (Line Scope)
  read_done request target packet k level = record {
    ack = if bit (target (k + 8 + 8 + 8 + 8)) == ones_parity 32 (number target k 32) then 1 else 17;
    word = some (number target k 32);
    world = stamp scope request (record {
      control = c;
      wire =
          released target packet (k + 8 + 8 + 8 + 8 + 1 + (c.trn + c.idle))
            (number target (k + 8 + 8 + 8) 8) level;
    });
  }

  module _ (request : ℕ) (target : ℕ → Bool) (edges : List (Option Bool)) (count held : ℕ)
      (level : Bool) (small : request < 256) (first : target (count + 8 + c.trn) ≡ true)
      (second : target (count + 8 + c.trn + 1) ≡ false)
      (third : target (count + 8 + c.trn + 1 + 1) ≡ false) where
    packet-listened :
        listened c.trn c.idle (
          edges
          ++ map some (bits 8 (request_header request))
          ++ replicate c.trn none
          ++ replicate 3 none)
        ≡ edges ++ read_packet c.trn c.idle request
    packet-listened = rw (request_header-eq-swd_header request small) (simp append_assoc)

    read_pass-released :
        read_pass_slow scope request
          (record { control = c; wire = released target edges count held level })
        ≡ record {
          temp =
              if bit (target (count + 8 + c.trn + 3 + 8 + 8 + 8 + 8))
                == ones_parity 32 (number target (count + 8 + c.trn + 3) 32)
              then 1
              else 17;
          word = some (number target (count + 8 + c.trn + 3) 32);
          asked = false;
          line =
              (read_done request target
                (edges ++ read_packet c.trn c.idle request)
                (count + 8 + c.trn + 3)
                level).world;
        }
    unfolding read_pass_slow read_answered_slow
    read_pass-released =
        let k = count + 8 + c.trn + 3 in
        let opened =
          edges
          ++ map some (bits 8 (request_header request))
          ++ replicate c.trn none
          ++ replicate 3 none in
        ap (λ a. read_answered_slow scope request c a.0 a.1)
          (acknowledge-released c.swd_delay p c request target edges count held level refl first
            second third)
        ∙ read_ok-released request target opened k (number target count 8) level
        ∙ ap
            (λ e.
              read_result scope request (answer_bytes target k) (target (k + 8 + 8 + 8 + 8))
                (record {
                  control = c;
                  wire =
                      released target e (k + 8 + 8 + 8 + 8 + 1 + (c.trn + c.idle))
                        (number target (k + 8 + 8 + 8) 8) level;
                }))
            packet-listened
        ∙ read_result-number request target k (target (k + 8 + 8 + 8 + 8)) _

    -- On a line at rest, with delays that have no effect on it, and a target that answers OK to the
    -- first request: the slow and the quick read put the header of the protocol on the line, release
    -- it for all that follows, and return the number that the 32 levels after the acknowledge
    -- spell, the lowest bit first. The acknowledge is 1 if the level after these is their parity,
    -- and 17 if not.
    pub swd_read-read_packet :
        (swd_read_slow scope request
            (record { control = c; wire = released target edges count held level })
          ≡ read_done request target
              (edges ++ read_packet c.trn c.idle request)
              (count + 8 + c.trn + 3)
              level)
        × (swd_read_quick scope request
              (record { control = c; wire = released target edges count held level })
            ≡ read_done request target
                (edges ++ read_packet c.trn c.idle request)
                (count + 8 + c.trn + 3)
                level)
    unfolding swd_read_slow reply
    swd_read-read_packet =
        let l : Line Scope = record {
          control = c;
          wire = released target edges count held level;
        } in
        let one : swd_read_slow scope request l ≡ reply (read_pass_slow scope request l) =
          retrying-reply (read_pass_slow scope request) c.retry_limit l
            (ap waited read_pass-released) in
        let slow = one ∙ ap reply read_pass-released in
        (slow, (quick-eq-slow scope request 0 0 0 l p).0 ∙ slow)
