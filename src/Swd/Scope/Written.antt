-- ===== src/Swd/Scope/Written.antt =====
-- The write of a word on the scope: which levels the probe puts on the line.
use native.Mathlib.Nat.{add-zero}
use cherry_link.Base.{
  ℕ, zero, suc, ◌+◌, ◌<◌, ◌≡◌, refl, ap, ◌∙◌, Bool, true, false, not, if◌then◌else◌, Option, none,
  some, List, [], ◌∷◌, ◌++◌, map, replicate, append-nil, append_assoc, arith, ◌==◌,
}
use cherry_link.Dap.Driver.{Reply}
use cherry_link.Swd.Control.{Control, Line, stamp}
use cherry_link.Swd.Pace.{Patient, quick-eq-slow}
use cherry_link.Swd.Parity.{
  get_parity_32bit, ones_parity, ones_parity-lt, get_parity_32bit-eq-ones_parity, request_header,
  swd_header, request_header-eq-swd_header,
}
use cherry_link.Swd.Read.{Pass, clock_slow, reply}
use cherry_link.Swd.Rounds.{waited, retrying-reply}
use cherry_link.Bits.Lists.{bits}
use cherry_link.Swd.Scope.{Scope, scope, released, number, act, spi_write, driven, shifted, opp}
use cherry_link.Swd.Scope.Steps.{repeat-released, acknowledge-released}
use cherry_link.Swd.Scope.Words.{bytes_bits, bytes_bits-eq}
use cherry_link.Swd.Write.{
  write_word, write_ok, write_answered_slow, write_pass_slow, swd_write_slow, swd_write_quick,
}
use cherry_link.Wire.{◌▷◌, repeat, tms_to_low, tms_to_high, tms_to_in, mo_to_ain}

-- The line between the parity bit and its release, driven by the port.
driving : (ℕ → Bool) → List (Option Bool) → ℕ → ℕ → Bool → Scope
driving target edges count held level = record {
  spi_clock = false;
  clock = true;
  mode = opp;
  out = true;
  level = level;
  held = held;
  edges = edges;
  count = count;
  target = target;
}

put_parity-driving :
    (low : Bool) (target : ℕ → Bool) (edges : List (Option Bool)) (count held : ℕ) (level : Bool)
    → scope.act (if low then tms_to_low else tms_to_high) (driving target edges count held level)
      ≡ driving target edges count held (not low)
unfolding scope act driving
put_parity-driving true target edges count held level = refl
put_parity-driving false target edges count held level = refl

four_pieces {ℓ} :
    {A : Type ℓ} (e a b c d : List A) → e ++ a ++ b ++ c ++ d ≡ e ++ (a ++ (b ++ (c ++ d)))
four_pieces e a b c d = simp append_assoc

write_word-released :
    (word : ℕ) (target : ℕ → Bool) (edges : List (Option Bool)) (count held : ℕ) (level : Bool)
    → write_word scope word (released target edges count held level)
      ≡ driving target
          (edges ++ bytes_bits word)
          (count + 8 + 8 + 8 + 8)
          (number target (count + 8 + 8 + 8) 8)
          (not (get_parity_32bit word == 0))
unfolding write_word released scope act spi_write driving shifted bytes_bits
write_word-released word target edges count held level =
    put_parity-driving (get_parity_32bit word == 0) target _ _ _ level
    ∙ ap
        (λ e.
          driving target e (count + 8 + 8 + 8 + 8) (number target (count + 8 + 8 + 8) 8)
            (not (get_parity_32bit word == 0)))
        (four_pieces edges _ _ _ _)

module _ (delay : Option (Scope → Scope)) (p : Patient scope delay) where
  clock-driving :
      (target : ℕ → Bool) (edges : List (Option Bool)) (count held : ℕ) (level : Bool)
      → clock_slow scope delay (driving target edges count held level)
        ≡ driving target (edges ++ (some level ∷ [])) (count + 1) held level
  unfolding clock_slow driving scope act driven
  clock-driving target edges count held level = simp (p.waits)

  repeat-driving :
      (n : ℕ) (target : ℕ → Bool) (edges : List (Option Bool)) (count held : ℕ) (level : Bool)
      → repeat n (clock_slow scope delay) (driving target edges count held level)
        ≡ driving target (edges ++ replicate n (some level)) (count + n) held level
  unfolding repeat
  repeat-driving zero target edges count held level = rw (append-nil, add-zero) refl
  repeat-driving (suc n) target edges count held level =
      ap (repeat n (clock_slow scope delay)) (clock-driving target edges count held level)
      ∙ repeat-driving n target (edges ++ (some level ∷ [])) (count + 1) held level
      ∙ ap (λ edges'. driving target edges' (count + 1 + n) held level)
          (append_assoc edges (some level ∷ []) (replicate n (some level)))
      ∙ ap
          (λ count'.
            driving target (edges ++ (some level ∷ replicate n (some level))) count' held level)
          (omega arith)

release-driving :
    (target : ℕ → Bool) (edges : List (Option Bool)) (count held : ℕ) (level : Bool)
    → scope.act tms_to_in (scope.act mo_to_ain (driving target edges count held level))
      ≡ released target edges count held level
unfolding driving released scope act
release-driving target edges count held level = refl

-- The packet of a write that is acknowledged, as the probe drives the line: the header of the
-- protocol, the turnaround, the acknowledge and the turnaround with the line released, the word
-- with its lowest bit first, and its parity, which stays on the line for the idle cycles.
abbrev pub write_packet : ℕ → ℕ → ℕ → ℕ → List (Option Bool)
write_packet trn idle request word =
    map some (bits 8 (swd_header request))
    ++ (replicate trn none
        ++ (replicate 3 none
            ++ (replicate trn none
                ++ (map some (bits 32 word)
                    ++ (some (ones_parity 32 word == 1)
                        ∷ replicate idle (some (ones_parity 32 word == 1)))))))

parity_level : (word : ℕ) → not (get_parity_32bit word == 0) ≡ (ones_parity 32 word == 1)
parity_level word = rw get_parity_32bit-eq-ones_parity (ground (arith, ones_parity-lt 32 word))

-- `edges` and the pieces that a write puts after it
abbrev written : ℕ → ℕ → ℕ → Bool → List (Option Bool) → List (Option Bool)
written trn idle word odd edges =
    edges ++ replicate trn none ++ bytes_bits word ++ (some odd ∷ []) ++ replicate idle (some odd)

module _ (c : Control Scope) (p : Patient scope c.swd_delay) where
  word_written :
      (word : ℕ) (target : ℕ → Bool) (edges : List (Option Bool)) (count held : ℕ) (level : Bool)
      → (released target edges count held level
          ▷ repeat c.trn (clock_slow scope c.swd_delay)
          ▷ write_word scope word
          ▷ clock_slow scope c.swd_delay
          ▷ repeat c.idle (clock_slow scope c.swd_delay)
          ▷ scope.act mo_to_ain
          ▷ scope.act tms_to_in)
        ≡ released target
            (written c.trn c.idle word (not (get_parity_32bit word == 0)) edges)
            (count + c.trn + 8 + 8 + 8 + 8 + 1 + c.idle)
            (number target (count + c.trn + 8 + 8 + 8) 8)
            (not (get_parity_32bit word == 0))
  word_written word target edges count held level =
      let odd = not (get_parity_32bit word == 0) in
      let clock = clock_slow scope c.swd_delay in
      let end = λ (s : Scope). scope.act tms_to_in (scope.act mo_to_ain s) in
      let turned = edges ++ replicate c.trn none in
      let sent = turned ++ bytes_bits word in
      let held' = number target (count + c.trn + 8 + 8 + 8) 8 in
      ap (λ s. end (repeat c.idle clock (clock (write_word scope word s))))
        (repeat-released c.swd_delay p c.trn target edges count held level)
      ∙ ap (λ s. end (repeat c.idle clock (clock s)))
          (write_word-released word target turned (count + c.trn) held level)
      ∙ ap (λ s. end (repeat c.idle clock s))
          (clock-driving c.swd_delay p target sent (count + c.trn + 8 + 8 + 8 + 8) held' odd)
      ∙ ap end (
          repeat-driving c.swd_delay p c.idle target (sent ++ (some odd ∷ []))
            (count + c.trn + 8 + 8 + 8 + 8 + 1) held' odd)
      ∙ release-driving target _ _ held' odd

  write_ok-released :
      (request word : ℕ) (target : ℕ → Bool) (edges : List (Option Bool)) (count held : ℕ)
      (level : Bool)
      → write_ok scope
          (clock_slow scope c.swd_delay)
          (clock_slow scope c.swd_delay)
          request
          word
          c
          (released target edges count held level)
        ≡ record {
          temp = 1;
          word = none;
          asked = false;
          line = stamp scope request (record {
            control = c;
            wire =
                released target
                  (written c.trn c.idle word (not (get_parity_32bit word == 0)) edges)
                  (count + c.trn + 8 + 8 + 8 + 8 + 1 + c.idle)
                  (number target (count + c.trn + 8 + 8 + 8) 8)
                  (not (get_parity_32bit word == 0));
          });
        }
  unfolding write_ok
  write_ok-released request word target edges count held level =
      ap
        (λ w. record {
          temp = 1;
          word = none;
          asked = false;
          line = stamp scope request (record { control = c; wire = w });
        })
        (word_written word target edges count held level)

  -- what a write that is acknowledged gives, `packet` being what went over the line
  abbrev pub write_done : ℕ → ℕ → (ℕ → Bool) → List (Option Bool) → ℕ → Reply (Line Scope)
  write_done request word target packet count = record {
    ack = 1;
    word = none;
    world = stamp scope request (record {
      control = c;
      wire =
          released target packet (count + 8 + c.trn + 3 + c.trn + 8 + 8 + 8 + 8 + 1 + c.idle)
            (number target (count + 8 + c.trn + 3 + c.trn + 8 + 8 + 8) 8)
            (ones_parity 32 word == 1);
    });
  }

  packet-written :
      (request word : ℕ) (edges : List (Option Bool))
      → request < 256
      → written c.trn c.idle word (not (get_parity_32bit word == 0)) (
          edges
          ++ map some (bits 8 (request_header request))
          ++ replicate c.trn none
          ++ replicate 3 none)
        ≡ edges ++ write_packet c.trn c.idle request word
  packet-written request word edges small =
      rw (parity_level word, bytes_bits-eq word, request_header-eq-swd_header request small)
        (simp append_assoc)

  module _ (request word : ℕ) (target : ℕ → Bool) (edges : List (Option Bool)) (count held : ℕ)
      (level : Bool) (small : request < 256) (first : target (count + 8 + c.trn) ≡ true)
      (second : target (count + 8 + c.trn + 1) ≡ false)
      (third : target (count + 8 + c.trn + 1 + 1) ≡ false) where
    write_pass-released :
        write_pass_slow scope request word
          (record { control = c; wire = released target edges count held level })
        ≡ record {
          temp = 1;
          word = none;
          asked = false;
          line =
              (write_done request word target
                (edges ++ write_packet c.trn c.idle request word)
                count).world;
        }
    unfolding write_pass_slow write_answered_slow
    write_pass-released =
        let opened =
          edges
          ++ map some (bits 8 (request_header request))
          ++ replicate c.trn none
          ++ replicate 3 none in
        let done : List (Option Bool) → Bool → Pass Scope = λ e odd. record {
          temp = 1;
          word = none;
          asked = false;
          line = stamp scope request (record {
            control = c;
            wire =
                released target e (count + 8 + c.trn + 3 + c.trn + 8 + 8 + 8 + 8 + 1 + c.idle)
                  (number target (count + 8 + c.trn + 3 + c.trn + 8 + 8 + 8) 8) odd;
          });
        } in
        ap (λ a. write_answered_slow scope request word c a.0 a.1)
          (acknowledge-released c.swd_delay p c request target edges count held level refl first
            second third)
        ∙ write_ok-released request word target opened (count + 8 + c.trn + 3)
            (number target count 8) level
        ∙ ap (λ e. done e (not (get_parity_32bit word == 0)))
            (packet-written request word edges small)
        ∙ ap (done (edges ++ write_packet c.trn c.idle request word)) (parity_level word)

    -- On a line at rest, with delays that have no effect on it, and a target that answers OK to the
    -- first request: the slow and the quick write return 1, put exactly the packet of a write on the
    -- line, and leave it at rest. The packet is the header of the protocol, the turnaround, the
    -- acknowledge and the turnaround with the line released, the word with its lowest bit first, and
    -- its parity, which stays on the line for the idle cycles.
    pub swd_write-write_packet :
        (swd_write_slow scope request word
            (record { control = c; wire = released target edges count held level })
          ≡ write_done request word target (edges ++ write_packet c.trn c.idle request word) count)
        × (swd_write_quick scope request word
              (record { control = c; wire = released target edges count held level })
            ≡ write_done request word target
                (edges ++ write_packet c.trn c.idle request word)
                count)
    unfolding swd_write_slow reply
    swd_write-write_packet =
        let l : Line Scope = record {
          control = c;
          wire = released target edges count held level;
        } in
        let one : swd_write_slow scope request word l
            ≡ reply (write_pass_slow scope request word l) =
          retrying-reply (write_pass_slow scope request word) c.retry_limit l
            (ap waited write_pass-released) in
        let slow = one ∙ ap reply write_pass-released in
        (slow, (quick-eq-slow scope request word 0 0 l p).1 ∙ slow)
