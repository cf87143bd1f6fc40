-- ===== src/Swd/Rounds.antt =====
-- The retries of cmsis-dap/swd.c: how often a transfer is made.
use cherry_link.Base.{
  ◌+◌, if◌then◌else◌, ℕ, zero, suc, ◌≤◌, ◌<◌, ◌≡◌, refl, inl, inr, Bool, true, false, arith,
  Bool-cases, ◌==◌, ◌&&◌, ◌⊎◌, Option,
}
use cherry_link.Dap.Driver.{Reply}
use cherry_link.Swd.Control.{Control, Line}
use cherry_link.Swd.Read.{
  Pass, reply, retrying, read_pass_quick, read_pass_slow, swd_read_quick, swd_read_slow,
}
use cherry_link.Swd.Results.{
  Ends, ReadAnswer, WriteAnswer, read_pass_quick-Ends, read_pass_slow-Ends, write_pass_quick-Ends,
  write_pass_slow-Ends,
}
use cherry_link.Swd.Write.{write_pass_quick, write_pass_slow, swd_write_quick, swd_write_slow}
use cherry_link.Wire.{Wire}

ne_two : (n : ℕ) → (n ≡ 1) ⊎ ((n ≡ 17) ⊎ (n ≡ 0)) → (n == 2) ≡ false
ne_two n (inl e) = rw e refl
ne_two n (inr (inl e)) = rw e refl
ne_two n (inr (inr e)) = rw e refl

parity_acks :
    (t : Bool) (ack : ℕ) → ack ≡ (if t then 1 else 17) → (ack ≡ 1) ⊎ ((ack ≡ 17) ⊎ (ack ≡ 0))
parity_acks true ack e = inl e
parity_acks false ack e = inr (inl e)

read_acks :
    {W : Type 0} (b : Wire W) (force : Bool) (clocks : ℕ) (delay : Option (W → W)) (w : W) (ack : ℕ)
    (word : Option ℕ)
    → force ≡ true
    → ReadAnswer b force clocks delay w ack word
    → (ack ≡ 1) ⊎ ((ack ≡ 17) ⊎ (ack ≡ 0))
read_acks b force clocks delay w ack word f (inl (_, _, _, e, _)) = parity_acks _ ack e
read_acks b force clocks delay w ack word f (inr (_, inl e)) = inr (inr e)
read_acks b force clocks delay w ack word f (inr (_, inr (e, _))) = absurd (ground arith)

write_acks :
    {W : Type 0} (force : Bool) (clocks : ℕ) (delay : Option (W → W)) (w : W) (ack : ℕ)
    (word : Option ℕ)
    → force ≡ true
    → WriteAnswer force clocks delay w ack word
    → (ack ≡ 1) ⊎ ((ack ≡ 17) ⊎ (ack ≡ 0))
write_acks force clocks delay w ack word f (_, inl e) = inl e
write_acks force clocks delay w ack word f (_, inr (inl e)) = inr (inr e)
write_acks force clocks delay w ack word f (_, inr (inr (e, _))) = absurd (ground arith)

module _ {W : Type 0} where
  -- a pass that ended with a wait, where the code may retry
  abbrev pub waited : Pass W → Bool
  waited p = p.asked && p.temp == 2

  -- the state after some passes
  pub after : ℕ → (Line W → Pass W) → Line W → Line W
  after zero pass l = l
  after (suc n) pass l = after n pass (pass l).line

  -- What `left` retries from `l` on do: `count` passes end with a wait, and the next one gives the
  -- reply. Unless the retries are used up, that one did not end with a wait.
  pub record Rounds (pass : Line W → Pass W) (left : ℕ) (l : Line W) (r : Reply (Line W))
      : Type 0 where
    pub count : ℕ
    pub limited : count ≤ left
    pub waits : (i : ℕ) → i < count → waited (pass (after i pass l)) ≡ true
    pub last : r ≡ reply (pass (after count pass l))
    pub stops : count < left → waited (pass (after count pass l)) ≡ false

  one_round :
      (pass : Line W → Pass W) (left : ℕ) (l : Line W)
      → (0 < left → waited (pass l) ≡ false)
      → Rounds pass left l (reply (pass l))
  unfolding after
  one_round pass left l stop = record {
    count = 0;
    limited = omega arith;
    waits = λ i h. absurd (omega arith);
    last = refl;
    stops = stop;
  }

  waits_before :
      (pass : Line W → Pass W) (l : Line W) (count : ℕ)
      → waited (pass l) ≡ true
      → ((i : ℕ) → i < count → waited (pass (after i pass (pass l).line)) ≡ true)
      → (i : ℕ) → i < suc count
      → waited (pass (after i pass l)) ≡ true
  unfolding after
  waits_before pass l count first rest zero h = first
  waits_before pass l count first rest (suc i) h = rest i (omega arith)

  one_more :
      (pass : Line W → Pass W) (left : ℕ) (l : Line W) (r : Reply (Line W))
      → waited (pass l) ≡ true
      → Rounds pass left (pass l).line r
      → Rounds pass (suc left) l r
  unfolding after
  one_more pass left l r first rounds = record {
    count = suc rounds.count;
    limited = omega (arith, rounds.limited);
    waits = waits_before pass l rounds.count first rounds.waits;
    last = rounds.last;
    stops = λ h. rounds.stops (omega arith);
  }

  retrying-Rounds :
      (pass : Line W → Pass W) (left : ℕ) (l : Line W) → Rounds pass left l (retrying pass left l)
  unfolding retrying
  retrying-Rounds pass zero l = one_round pass zero l (λ h. absurd (omega arith))
  retrying-Rounds pass (suc left) l = elim (Bool-cases (waited (pass l))) [
    | inl e ↦ rw e (one_more pass left l _ e (retrying-Rounds pass left (pass l).line))
    | inr e ↦ rw e (one_round pass (suc left) l (λ _. e))
  ]

  -- A pass that does not end with a wait is the only one.
  pub retrying-reply :
      (pass : Line W → Pass W) (left : ℕ) (l : Line W)
      → waited (pass l) ≡ false
      → retrying pass left l ≡ reply (pass l)
  unfolding retrying
  retrying-reply pass zero l e = refl
  retrying-reply pass (suc left) l e = rw e refl

  module _ (b : Wire W) where
    -- For each of the four routines of a transfer: the request is sent again exactly after each
    -- pass that ends with a wait where the code asks for retries, at most `retry_limit` times, and
    -- the reply is that of the last pass, which is no such wait unless the retries are used up.
    pub transfer-Rounds :
        (request word : ℕ) (l : Line W)
        → Rounds (read_pass_quick b request) l.control.retry_limit l (swd_read_quick b request l)
          × Rounds (read_pass_slow b request) l.control.retry_limit l (swd_read_slow b request l)
          × Rounds
              (write_pass_quick b request word)
              l.control.retry_limit
              l
              (swd_write_quick b request word l)
          × Rounds
              (write_pass_slow b request word)
              l.control.retry_limit
              l
              (swd_write_slow b request word l)
    unfolding swd_read_quick swd_read_slow swd_write_quick swd_write_slow
    transfer-Rounds request word l = (
      retrying-Rounds (read_pass_quick b request) l.control.retry_limit l,
      retrying-Rounds (read_pass_slow b request) l.control.retry_limit l,
      retrying-Rounds (write_pass_quick b request word) l.control.retry_limit l,
      retrying-Rounds (write_pass_slow b request word) l.control.retry_limit l,
    )

  read_forced :
      (b : Wire W) (c : Control W) (p : Pass W)
      → c.data_force ≡ true
      → Ends (ReadAnswer b) c p
      → waited p ≡ false
  read_forced b c p f e =
      let never = ne_two p.temp (
        read_acks b c.data_force (c.trn + c.idle) c.swd_delay p.line.wire p.temp p.word f
          e.answer) in
      ground arith

  write_forced :
      (c : Control W) (p : Pass W) → c.data_force ≡ true → Ends WriteAnswer c p → waited p ≡ false
  write_forced c p f e =
      let never = ne_two p.temp (
        write_acks c.data_force (c.trn + c.idle) c.swd_delay p.line.wire p.temp p.word f
          e.answer) in
      ground arith

  module _ (b : Wire W) where
    -- With forced data phases no transfer is ever retried, whatever the limit of retries and
    -- whatever the target answers: each of the four routines sends its request once.
    pub transfer-forced :
        (request word : ℕ) (l : Line W)
        → l.control.data_force ≡ true
        → (swd_read_quick b request l ≡ reply (read_pass_quick b request l))
          × (swd_read_slow b request l ≡ reply (read_pass_slow b request l))
          × (swd_write_quick b request word l ≡ reply (write_pass_quick b request word l))
          × (swd_write_slow b request word l ≡ reply (write_pass_slow b request word l))
    unfolding swd_read_quick swd_read_slow swd_write_quick swd_write_slow
    transfer-forced request word l f = (
      retrying-reply (read_pass_quick b request) l.control.retry_limit l (
          read_forced b l.control (read_pass_quick b request l) f
            (read_pass_quick-Ends b request l)),
      retrying-reply (read_pass_slow b request) l.control.retry_limit l (
          read_forced b l.control (read_pass_slow b request l) f (read_pass_slow-Ends b request l)),
      retrying-reply (write_pass_quick b request word) l.control.retry_limit l (
          write_forced l.control (write_pass_quick b request word l) f
            (write_pass_quick-Ends b request word l)),
      retrying-reply (write_pass_slow b request word) l.control.retry_limit l (
          write_forced l.control (write_pass_slow b request word l) f
            (write_pass_slow-Ends b request word l)),
    )
