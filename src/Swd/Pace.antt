-- ===== src/Swd/Pace.antt =====
-- The quick and the slow routines of cmsis-dap/swd.c place their delays differently, and do the
-- same to the pins.
use cherry_link.Base.{
  ℕ, zero, suc, ◌≡◌, refl, sym, ap, ◌∙◌, Bool, true, false, if◌then◌else◌, Option, ◌==◌, ◌||◌, ◌&&◌,
  ◌*◌, ◌^◌, bit_or,
}
use mathlib.Core.Path.{fun_ext, subst}
use cherry_link.Swd.Control.{Control, Line}
use cherry_link.Swd.Read.{
  Pass, bit, send_request, read_refused, refused_otherwise, acknowledge_quick, acknowledge_slow,
  clock_quick, turn_quick, clock_slow, parity_clock, ack_quick, ack_slow, read_ok_quick,
  read_ok_slow, read_answered_quick, read_answered_slow, read_pass_quick, read_pass_slow, retrying,
  reply, swd_read_quick, swd_read_slow,
}
use cherry_link.Swd.Write.{
  write_ok, write_refused, write_answered_quick, write_answered_slow, write_pass_quick,
  write_pass_slow, swd_write_quick, swd_write_slow,
}
use cherry_link.Swd.Bits.{
  read_bits_quick, read_bits_slow, write_bits_quick, write_bits_slow, swd_read_io_quick,
  swd_read_io_slow, swd_write_io_quick, swd_write_io_slow,
}
use cherry_link.Swd.Results.{read_pass_slow-Ends, write_pass_slow-Ends}
use cherry_link.Wire.{Wire, call, repeat, nop}

first_bit : (level : Bool) → bit_or 0 (bit level * 2 ^ 0) ≡ bit level
first_bit true = refl
first_bit false = refl

branches {ℓ} :
    {A : Type ℓ} (s t : Bool) {x x' y y' z z' : A}
    → x ≡ x'
    → y ≡ y'
    → z ≡ z'
    → (if s then x else if t then y else z) ≡ (if s then x' else if t then y' else z')
branches true t p q r = p
branches false true p q r = q
branches false false p q r = r

module _ {W : Type 0} (b : Wire W) where
  -- Time passes without an effect on the state.
  pub record Patient (delay : Option (W → W)) : Type 0 where
    pub waits : (w : W) → call delay w ≡ w
    pub idles : (w : W) → b.act nop w ≡ w

  module _ (delay : Option (W → W)) (p : Patient delay) where
    calls : call delay ≡ (λ w. w)
    calls = fun_ext p.waits

    nops : b.act nop ≡ (λ w. w)
    nops = fun_ext p.idles

    clock_quick-eq : clock_quick b delay ≡ clock_slow b delay
    unfolding clock_quick clock_slow
    clock_quick-eq = fun_ext (λ w. simp (p.waits, p.idles))

    turn_quick-eq : turn_quick b delay ≡ clock_slow b delay
    unfolding turn_quick clock_quick clock_slow
    turn_quick-eq = fun_ext (λ w. simp (p.waits, p.idles))

    parity_clock-eq : parity_clock b delay ≡ clock_slow b delay
    unfolding parity_clock clock_slow
    parity_clock-eq = fun_ext (λ w. simp (p.waits))

    ack_quick-eq : ack_quick b delay ≡ ack_slow b delay
    unfolding ack_quick ack_slow
    ack_quick-eq = fun_ext (λ w. simp (p.waits, p.idles, first_bit))

  module _ (c : Control W) (p : Patient c.swd_delay) where
    clock-eq : clock_quick b c.swd_delay ≡ clock_slow b c.swd_delay
    clock-eq = clock_quick-eq c.swd_delay p

    acknowledge-eq :
        (request : ℕ) (w : W) → acknowledge_quick b request c w ≡ acknowledge_slow b request c w
    unfolding acknowledge_quick acknowledge_slow
    acknowledge-eq request w =
        let turned = λ (turn : W → W). repeat c.trn turn (send_request b request w) in
        ap (λ turn. ack_quick b c.swd_delay (turned turn)) (turn_quick-eq c.swd_delay p)
        ∙ ap (λ ack. ack (turned (clock_slow b c.swd_delay))) (ack_quick-eq c.swd_delay p)

    read_ok-eq : (request : ℕ) (w : W) → read_ok_quick b request c w ≡ read_ok_slow b request c w
    unfolding read_ok_quick read_ok_slow
    read_ok-eq request w = simp (p.waits, clock_quick-eq c.swd_delay p)

    otherwise-eq :
        (w : W)
        → refused_otherwise b (clock_quick b c.swd_delay) c w
          ≡ refused_otherwise b (parity_clock b c.swd_delay) c w
    otherwise-eq w =
        ap (λ clock. refused_otherwise b clock c w) (clock-eq ∙ sym (parity_clock-eq c.swd_delay p))

    read_answered-eq :
        (request temp : ℕ) (w : W)
        → read_answered_quick b request c temp w ≡ read_answered_slow b request c temp w
    unfolding read_answered_quick read_answered_slow
    read_answered-eq request temp w =
        branches (temp == 1) (temp == 2 || temp == 4) (read_ok-eq request w)
          (ap (λ clock. read_refused b clock temp c w) clock-eq) (otherwise-eq w)

    write_answered-eq :
        (request word temp : ℕ) (w : W)
        → write_answered_quick b request word c temp w ≡ write_answered_slow b request word c temp w
    unfolding write_answered_quick write_answered_slow
    write_answered-eq request word temp w =
        branches (temp == 1) (temp == 2 || temp == 4)
          (ap (λ clock. write_ok b clock (parity_clock b c.swd_delay) request word c w) clock-eq
            ∙ ap (λ parity. write_ok b (clock_slow b c.swd_delay) parity request word c w)
                (parity_clock-eq c.swd_delay p))
          (ap (λ clock. write_refused b clock temp c w) clock-eq) (otherwise-eq w)

  read_pass-eq :
      (request : ℕ) (l : Line W)
      → Patient l.control.swd_delay
      → read_pass_quick b request l ≡ read_pass_slow b request l
  unfolding read_pass_quick read_pass_slow
  read_pass-eq request l p =
      let a = acknowledge_quick b request l.control l.wire in
      read_answered-eq l.control p request a.0 a.1
      ∙ ap (λ a. read_answered_slow b request l.control a.0 a.1)
          (acknowledge-eq l.control p request l.wire)

  write_pass-eq :
      (request word : ℕ) (l : Line W)
      → Patient l.control.swd_delay
      → write_pass_quick b request word l ≡ write_pass_slow b request word l
  unfolding write_pass_quick write_pass_slow
  write_pass-eq request word l p =
      let a = acknowledge_quick b request l.control l.wire in
      write_answered-eq l.control p request word a.0 a.1
      ∙ ap (λ a. write_answered_slow b request word l.control a.0 a.1)
          (acknowledge-eq l.control p request l.wire)

  retrying-eq :
      {pass pass' : Line W → Pass W}
      → ((l : Line W) → Patient l.control.swd_delay → pass l ≡ pass' l)
      → ((l : Line W) → (pass' l).line.control.swd_delay ≡ l.control.swd_delay)
      → (left : ℕ) (l : Line W) → Patient l.control.swd_delay
      → retrying pass left l ≡ retrying pass' left l
  unfolding retrying
  retrying-eq same kept zero l p = ap reply (same l p)
  retrying-eq {pass} {pass'} same kept (suc left) l p =
      let p' = subst (λ delay. Patient delay) (sym (kept l)) p in
      ap (λ r. if r.asked && r.temp == 2 then retrying pass left r.line else reply r) (same l p)
      ∙ ap (λ again. if (pass' l).asked && (pass' l).temp == 2 then again else reply (pass' l))
          (retrying-eq same kept left (pass' l).line p')

  read_bits-eq :
      (bits : ℕ) (delay : Option (W → W)) (byte : ℕ) (w : W)
      → Patient delay
      → read_bits_quick b bits delay byte w ≡ read_bits_slow b bits delay byte w
  unfolding read_bits_quick read_bits_slow
  read_bits-eq zero delay byte w p = refl
  read_bits-eq (suc bits) delay byte w p =
      simp (p.waits, p.idles, (λ (byte' : ℕ) (w' : W). read_bits-eq bits delay byte' w' p))

  write_bits-eq :
      (bits : ℕ) (delay : Option (W → W)) (byte : ℕ) (w : W)
      → Patient delay
      → write_bits_quick b bits delay byte w ≡ write_bits_slow b bits delay byte w
  unfolding write_bits_quick write_bits_slow
  write_bits-eq zero delay byte w p = refl
  write_bits-eq (suc bits) delay byte w p =
      simp (p.waits, (λ (byte' : ℕ) (w' : W). write_bits-eq bits delay byte' w' p))

  -- Where neither the delay nor a `__NOP` has an effect on the state, the quick and the slow routine
  -- for a read, for a write, for the odd bits of an input and for those of an output give the same
  -- result and leave the same state, retries included.
  pub quick-eq-slow :
      (request word bits byte : ℕ) (l : Line W)
      → Patient l.control.swd_delay
      → (swd_read_quick b request l ≡ swd_read_slow b request l)
        × (swd_write_quick b request word l ≡ swd_write_slow b request word l)
        × (swd_read_io_quick b bits l ≡ swd_read_io_slow b bits l)
        × (swd_write_io_quick b byte bits l ≡ swd_write_io_slow b byte bits l)
  unfolding swd_read_quick swd_read_slow swd_write_quick swd_write_slow swd_read_io_quick
      swd_read_io_slow swd_write_io_quick swd_write_io_slow
  quick-eq-slow request word bits byte l p = (
    retrying-eq (read_pass-eq request) (λ l. (read_pass_slow-Ends b request l).kept.swd_delay)
        l.control.retry_limit l p,
    retrying-eq (write_pass-eq request word)
        (λ l. (write_pass_slow-Ends b request word l).kept.swd_delay) l.control.retry_limit l p,
    rw (read_bits-eq bits l.control.swd_delay 0 l.wire p) refl,
    simp (write_bits-eq bits l.control.swd_delay byte _ p),
  )
