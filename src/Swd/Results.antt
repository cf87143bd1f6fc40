-- ===== src/Swd/Results.antt =====
-- What a transfer of cmsis-dap/swd.c can answer, and what it leaves alone.
use cherry_link.Base.{
  ℕ, zero, suc, ◌+◌, ◌≡◌, refl, ap, ◌∙◌, ◌⊎◌, inl, inr, Bool, true, false, Option, none, some,
  arith, List, Bool-cases, ◌==◌, ◌&&◌, ◌||◌, ==_iff, if◌then◌else◌,
}
use cherry_link.Dap.Driver.{Reply}
use cherry_link.Swd.Control.{Control, Line, stamp}
use cherry_link.Swd.Read.{
  Pass, acknowledge_quick, acknowledge_slow, bit, clock_quick, clock_slow, parity_clock, read_bytes,
  read_answered_quick, read_answered_slow, read_result, read_ok_quick, read_ok_slow, read_refused,
  refused_otherwise, read_pass_quick, read_pass_slow, dummy_bytes, retrying, reply, swd_read_quick,
  swd_read_slow, dap_swd_read,
}
use cherry_link.Swd.Write.{
  write_answered_quick, write_answered_slow, write_ok, write_refused, write_pass_quick,
  write_pass_slow, swd_write_quick, swd_write_slow, dap_swd_write,
}
use cherry_link.Swd.Parity.{ones_parity, get_parity_32bit-eq-ones_parity}
use cherry_link.Wire.{
  Wire, ◌▷◌, call, repeat, little_endian, tck_to_app, tck_to_opp, tck_to_high, tck_to_low,
}

-- The kinds of answer, by whether a data phase is forced, the clocks behind a transfer, the delay,
-- the state that is left, the acknowledge and the word.
abbrev pub AnswerOf : Type 0 → Type 1
AnswerOf W = Bool → ℕ → Option (W → W) → W → ℕ → Option ℕ → Type 0

-- A transfer ends with a word and an acknowledge, or with neither: 0, and without forced data
-- phases also a wait or a fault. With a word, the acknowledge is 1 if the parity bit is right and 17
-- if it is wrong; the bit is the level of the data line in the state from which the rising clock
-- and the clocks behind the transfer lead to the state that is left.
abbrev pub ReadAnswer : {W : Type 0} → Wire W → AnswerOf W
ReadAnswer {W} b force clocks delay wire ack word =
    ((word' : ℕ) × (w : W) × (word ≡ some word')
      × (ack ≡ (if bit (b.tms_read w) == ones_parity 32 word' then 1 else 17))
      × ((wire ≡ repeat clocks (clock_quick b delay) (b.act tck_to_high w))
          ⊎ (wire ≡ repeat clocks (clock_slow b delay) (call delay (b.act tck_to_high w)))))
    ⊎ ((word ≡ none) × ((ack ≡ 0) ⊎ ((force ≡ false) × ((ack ≡ 2) ⊎ (ack ≡ 4)))))

abbrev pub WriteAnswer : {W : Type 0} → AnswerOf W
WriteAnswer force clocks delay wire ack word =
    (word ≡ none) × ((ack ≡ 1) ⊎ ((ack ≡ 0) ⊎ ((force ≡ false) × ((ack ≡ 2) ⊎ (ack ≡ 4)))))

two_or_four : (n : ℕ) → (n == 2 || n == 4) ≡ true → (n ≡ 2) ⊎ (n ≡ 4)
two_or_four n h = elim (Bool-cases (n == 2)) [
  | inl e ↦ inl ((==_iff n 2).0 e)
  | inr ne ↦ inr (ground arith)
]

module _ {W : Type 0} where
  -- A control as another left it: only the time stamp may differ.
  pub record Keeps (c c' : Control W) : Type 0 where
    pub idle : c'.idle ≡ c.idle
    pub trn : c'.trn ≡ c.trn
    pub data_force : c'.data_force ≡ c.data_force
    pub retry_limit : c'.retry_limit ≡ c.retry_limit
    pub routines : c'.routines ≡ c.routines
    pub swd_delay : c'.swd_delay ≡ c.swd_delay

  Keeps-trans : {c0 c1 c2 : Control W} → Keeps c0 c1 → Keeps c1 c2 → Keeps c0 c2
  Keeps-trans k h = ground arith

  -- A pass that ends as `Answer` says, and keeps the parameters `c`.
  pub record Ends (Answer : AnswerOf W) (c : Control W) (p : Pass W) : Type 0 where
    pub answer : Answer c.data_force (c.trn + c.idle) c.swd_delay p.line.wire p.temp p.word
    pub kept : Keeps c p.line.control

  Ends-if :
      {Answer : AnswerOf W} {c : Control W} (t : Bool) {p q : Pass W}
      → (t ≡ true → Ends Answer c p)
      → (t ≡ false → Ends Answer c q)
      → Ends Answer c (if t then p else q)
  Ends-if true h k = h refl
  Ends-if false h k = k refl

  pub record RepliesAs (Answer : AnswerOf W) (c : Control W) (r : Reply (Line W)) : Type 0 where
    pub answer : Answer c.data_force (c.trn + c.idle) c.swd_delay r.world.wire r.ack r.word
    pub kept : Keeps c r.world.control

  RepliesAs-if :
      {Answer : AnswerOf W} {c : Control W} (t : Bool) {p q : Reply (Line W)}
      → RepliesAs Answer c p
      → RepliesAs Answer c q
      → RepliesAs Answer c (if t then p else q)
  RepliesAs-if true h k = h
  RepliesAs-if false h k = k

  reply-RepliesAs :
      {Answer : AnswerOf W} {c : Control W} {p : Pass W}
      → Ends Answer c p
      → RepliesAs Answer c (reply p)
  unfolding reply
  reply-RepliesAs e = record { answer = e.answer; kept = e.kept }

  RepliesAs-kept :
      {Answer : AnswerOf W} {c c' : Control W} {r : Reply (Line W)}
      → Keeps c c'
      → RepliesAs Answer c' r
      → RepliesAs Answer c r
  RepliesAs-kept {Answer} k h = record {
    answer = rw (k.data_force, k.trn, k.idle, k.swd_delay) at h.answer;
    kept = Keeps-trans k h.kept;
  }

  retrying-RepliesAs :
      (Answer : AnswerOf W) (pass : Line W → Pass W)
      → ((l : Line W) → Ends Answer l.control (pass l))
      → (left : ℕ) (l : Line W) → RepliesAs Answer l.control (retrying pass left l)
  unfolding retrying
  retrying-RepliesAs Answer pass ends zero l = reply-RepliesAs (ends l)
  retrying-RepliesAs Answer pass ends (suc left) l =
      RepliesAs-if ((pass l).asked && (pass l).temp == 2)
        (RepliesAs-kept (ends l).kept (retrying-RepliesAs Answer pass ends left (pass l).line))
        (reply-RepliesAs (ends l))

  module _ (b : Wire W) where
    stamp-Keeps : (request : ℕ) (l : Line W) → Keeps l.control (stamp b request l).control
    unfolding stamp
    stamp-Keeps request l = ground arith

    dummy_bytes-zero : (temp : ℕ) (w : W) → (dummy_bytes b temp w).0 ≡ 0
    unfolding dummy_bytes
    dummy_bytes-zero zero w = refl
    dummy_bytes-zero (suc temp) w = dummy_bytes-zero temp _

    stamp-wire : (request : ℕ) (l : Line W) → (stamp b request l).wire ≡ l.wire
    unfolding stamp
    stamp-wire request l = ground arith

    read_result-Ends :
        (request : ℕ) (bytes : List ℕ) (w : W) (l : Line W)
        → ((l.wire
              ≡ repeat
                  (l.control.trn + l.control.idle)
                  (clock_quick b l.control.swd_delay)
                  (b.act tck_to_high w))
            ⊎ (l.wire
                ≡ repeat
                    (l.control.trn + l.control.idle)
                    (clock_slow b l.control.swd_delay)
                    (call l.control.swd_delay (b.act tck_to_high w))))
        → Ends (ReadAnswer b) l.control (read_result b request bytes (b.tms_read w) l)
    unfolding read_result
    read_result-Ends request bytes w l behind =
        let word = little_endian bytes in
        let parity = get_parity_32bit-eq-ones_parity word in
        let same = stamp-wire request l in
        record {
          answer = inl (
            word,
            w,
            refl,
            ap (λ p. if bit (b.tms_read w) == p then 1 else 17) parity,
            elim behind [ inl e ↦ inl (same ∙ e) | inr e ↦ inr (same ∙ e) ],
          );
          kept = stamp-Keeps request l;
        }

    -- The dummy data phase that follows any refusal takes the acknowledge away.
    read_refused-Ends :
        (clock : W → W) (temp : ℕ) (c : Control W) (w : W)
        → (temp ≡ 2) ⊎ (temp ≡ 4)
        → Ends (ReadAnswer b) c (read_refused b clock temp c w)
    unfolding read_refused
    read_refused-Ends clock temp c w which =
        Ends-if c.data_force
          (λ e. record {
            answer = inr (refl, inl (dummy_bytes-zero 4 (b.act tck_to_app w)));
            kept = ground arith;
          })
          (λ e. record { answer = inr (refl, inr (e, which)); kept = ground arith })

    read_otherwise-Ends :
        (clock : W → W) (c : Control W) (w : W)
        → Ends (ReadAnswer b) c (refused_otherwise b clock c w)
    unfolding refused_otherwise
    read_otherwise-Ends clock c w = record {
      answer = inr (refl, inl (dummy_bytes-zero 4 (b.act tck_to_app w)));
      kept = ground arith;
    }

    read_ok_quick-Ends :
        (request : ℕ) (c : Control W) (w : W) → Ends (ReadAnswer b) c (read_ok_quick b request c w)
    unfolding read_ok_quick
    read_ok_quick-Ends request c w =
        let r = read_bytes b 4 (b.act tck_to_app w) in
        let w1 = r.1 ▷ b.act tck_to_opp ▷ b.act tck_to_low in
        read_result-Ends request r.0 w1
          (record {
            control = c;
            wire = repeat (c.trn + c.idle) (clock_quick b c.swd_delay) (b.act tck_to_high w1);
          })
          (inl refl)

    read_ok_slow-Ends :
        (request : ℕ) (c : Control W) (w : W) → Ends (ReadAnswer b) c (read_ok_slow b request c w)
    unfolding read_ok_slow
    read_ok_slow-Ends request c w =
        let r = read_bytes b 4 (b.act tck_to_app w) in
        let w1 = r.1 ▷ b.act tck_to_opp ▷ b.act tck_to_low ▷ call c.swd_delay in
        read_result-Ends request r.0 w1
          (record {
            control = c;
            wire =
                repeat (c.trn + c.idle) (clock_slow b c.swd_delay)
                  (call c.swd_delay (b.act tck_to_high w1));
          })
          (inr refl)

    read_answered_quick-Ends :
        (request : ℕ) (c : Control W) (temp : ℕ) (w : W)
        → Ends (ReadAnswer b) c (read_answered_quick b request c temp w)
    unfolding read_answered_quick
    read_answered_quick-Ends request c temp w =
        Ends-if (temp == 1) (λ _. read_ok_quick-Ends request c w)
          (λ _.
            Ends-if (temp == 2 || temp == 4)
              (λ e. read_refused-Ends (clock_quick b c.swd_delay) temp c w (two_or_four temp e))
              (λ _. read_otherwise-Ends (clock_quick b c.swd_delay) c w))

    pub read_pass_quick-Ends :
        (request : ℕ) (l : Line W) → Ends (ReadAnswer b) l.control (read_pass_quick b request l)
    unfolding read_pass_quick
    read_pass_quick-Ends request l =
        let a = acknowledge_quick b request l.control l.wire in
        read_answered_quick-Ends request l.control a.0 a.1

    read_answered_slow-Ends :
        (request : ℕ) (c : Control W) (temp : ℕ) (w : W)
        → Ends (ReadAnswer b) c (read_answered_slow b request c temp w)
    unfolding read_answered_slow
    read_answered_slow-Ends request c temp w =
        Ends-if (temp == 1) (λ _. read_ok_slow-Ends request c w)
          (λ _.
            Ends-if (temp == 2 || temp == 4)
              (λ e. read_refused-Ends (clock_slow b c.swd_delay) temp c w (two_or_four temp e))
              (λ _. read_otherwise-Ends (parity_clock b c.swd_delay) c w))

    pub read_pass_slow-Ends :
        (request : ℕ) (l : Line W) → Ends (ReadAnswer b) l.control (read_pass_slow b request l)
    unfolding read_pass_slow
    read_pass_slow-Ends request l =
        let a = acknowledge_slow b request l.control l.wire in
        read_answered_slow-Ends request l.control a.0 a.1

    write_ok-Ends :
        (clock parity : W → W) (request word : ℕ) (c : Control W) (w : W)
        → Ends WriteAnswer c (write_ok b clock parity request word c w)
    unfolding write_ok
    write_ok-Ends clock parity request word c w = record {
      answer = (refl, inl refl);
      kept = stamp-Keeps request (record { control = c; wire = _ });
    }

    write_refused-Ends :
        (clock : W → W) (temp : ℕ) (c : Control W) (w : W)
        → (temp ≡ 2) ⊎ (temp ≡ 4)
        → Ends WriteAnswer c (write_refused b clock temp c w)
    unfolding write_refused
    write_refused-Ends clock temp c w which =
        Ends-if c.data_force
          (λ e. record {
            answer =
                (refl, inr (inl (dummy_bytes-zero 4 (b.act tck_to_app (repeat c.trn clock w)))));
            kept = ground arith;
          })
          (λ e. record { answer = (refl, inr (inr (e, which))); kept = ground arith })

    write_otherwise-Ends :
        (clock : W → W) (c : Control W) (w : W) → Ends WriteAnswer c (refused_otherwise b clock c w)
    unfolding refused_otherwise
    write_otherwise-Ends clock c w = record {
      answer = (refl, inr (inl (dummy_bytes-zero 4 (b.act tck_to_app w))));
      kept = ground arith;
    }

    write_answered_quick-Ends :
        (request word : ℕ) (c : Control W) (temp : ℕ) (w : W)
        → Ends WriteAnswer c (write_answered_quick b request word c temp w)
    unfolding write_answered_quick
    write_answered_quick-Ends request word c temp w =
        Ends-if (temp == 1)
          (λ _.
            write_ok-Ends (clock_quick b c.swd_delay) (parity_clock b c.swd_delay) request word c w)
          (λ _.
            Ends-if (temp == 2 || temp == 4)
              (λ e. write_refused-Ends (clock_quick b c.swd_delay) temp c w (two_or_four temp e))
              (λ _. write_otherwise-Ends (clock_quick b c.swd_delay) c w))

    pub write_pass_quick-Ends :
        (request word : ℕ) (l : Line W)
        → Ends WriteAnswer l.control (write_pass_quick b request word l)
    unfolding write_pass_quick
    write_pass_quick-Ends request word l =
        let a = acknowledge_quick b request l.control l.wire in
        write_answered_quick-Ends request word l.control a.0 a.1

    write_answered_slow-Ends :
        (request word : ℕ) (c : Control W) (temp : ℕ) (w : W)
        → Ends WriteAnswer c (write_answered_slow b request word c temp w)
    unfolding write_answered_slow
    write_answered_slow-Ends request word c temp w =
        Ends-if (temp == 1)
          (λ _.
            write_ok-Ends (clock_slow b c.swd_delay) (clock_slow b c.swd_delay) request word c w)
          (λ _.
            Ends-if (temp == 2 || temp == 4)
              (λ e. write_refused-Ends (clock_slow b c.swd_delay) temp c w (two_or_four temp e))
              (λ _. write_otherwise-Ends (parity_clock b c.swd_delay) c w))

    pub write_pass_slow-Ends :
        (request word : ℕ) (l : Line W)
        → Ends WriteAnswer l.control (write_pass_slow b request word l)
    unfolding write_pass_slow
    write_pass_slow-Ends request word l =
        let a = acknowledge_slow b request l.control l.wire in
        write_answered_slow-Ends request word l.control a.0 a.1

    -- A read that returns, by the quick or by the slow routine, gives a word, or no word with 0, or,
    -- only where no data phase is forced, no word with a wait (2) or a fault (4); it never gives the
    -- error code 8. With a word the acknowledge is 1 if the parity of its 32 bits is the level of
    -- the data line, and 17 if it is not, in the state from which a rising clock, the turnaround and
    -- the idle clocks lead to the state that the read leaves. It changes no parameter.
    pub dap_swd_read-RepliesAs :
        (request : ℕ) (l : Line W) (r : Reply (Line W))
        → dap_swd_read b request l ≡ some r
        → RepliesAs (ReadAnswer b) l.control r
    unfolding dap_swd_read swd_read_quick swd_read_slow
    dap_swd_read-RepliesAs request l r e = ground (
      arith,
      retrying-RepliesAs (ReadAnswer b) (read_pass_quick b request) (read_pass_quick-Ends request)
          l.control.retry_limit l,
      retrying-RepliesAs (ReadAnswer b) (read_pass_slow b request) (read_pass_slow-Ends request)
          l.control.retry_limit l,
    )

    -- A write that returns, by the quick or by the slow routine, gives no word and the acknowledge
    -- 1, 0, or, only where no data phase is forced, a wait (2) or a fault (4); it never gives the
    -- error code 8. It changes no parameter.
    pub dap_swd_write-RepliesAs :
        (request word : ℕ) (l : Line W) (r : Reply (Line W))
        → dap_swd_write b request word l ≡ some r
        → RepliesAs WriteAnswer l.control r
    unfolding dap_swd_write swd_write_quick swd_write_slow
    dap_swd_write-RepliesAs request word l r e = ground (
      arith,
      retrying-RepliesAs WriteAnswer (write_pass_quick b request word)
          (write_pass_quick-Ends request word) l.control.retry_limit l,
      retrying-RepliesAs WriteAnswer (write_pass_slow b request word)
          (write_pass_slow-Ends request word) l.control.retry_limit l,
    )
