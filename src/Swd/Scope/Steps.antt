-- ===== src/Swd/Scope/Steps.antt =====
-- The stages of a transfer on the scope.
use cherry_link.Base.{
  ℕ, zero, suc, ◌+◌, ◌≡◌, refl, ap, ◌∙◌, Bool, true, false, Option, none, some, List, [], ◌∷◌, ◌++◌,
  map, replicate, append-nil, append_assoc, arith,
}
use native.Mathlib.Nat.{add-zero}
use cherry_link.Swd.Control.{Control}
use cherry_link.Swd.Pace.{Patient}
use cherry_link.Swd.Parity.{request_header}
use cherry_link.Swd.Read.{acknowledge_slow, send_request, clock_slow, ack_slow}
use cherry_link.Bits.Lists.{bits}
use cherry_link.Swd.Scope.{Scope, scope, released, number, act, spi_write, driven, shifted}
use cherry_link.Wire.{repeat}

plus_three : (n : ℕ) → n + 1 + 1 + 1 ≡ n + 3
plus_three n = omega arith

module _ (delay : Option (Scope → Scope)) (p : Patient scope delay) where
  pub send_request-released :
      (target : ℕ → Bool) (edges : List (Option Bool)) (count held request : ℕ) (level : Bool)
      → send_request scope request (released target edges count held level)
        ≡ released target
            (edges ++ map some (bits 8 (request_header request)))
            (count + 8)
            (number target count 8)
            level
  unfolding send_request released scope act spi_write driven shifted
  send_request-released target edges count held request level = refl

  pub clock-released :
      (target : ℕ → Bool) (edges : List (Option Bool)) (count held : ℕ) (level : Bool)
      → clock_slow scope delay (released target edges count held level)
        ≡ released target (edges ++ (none ∷ [])) (count + 1) held level
  unfolding clock_slow released scope act driven
  clock-released target edges count held level = simp (p.waits)

  pub repeat-released :
      (n : ℕ) (target : ℕ → Bool) (edges : List (Option Bool)) (count held : ℕ) (level : Bool)
      → repeat n (clock_slow scope delay) (released target edges count held level)
        ≡ released target (edges ++ replicate n none) (count + n) held level
  unfolding repeat
  repeat-released zero target edges count held level = rw (append-nil, add-zero) refl
  repeat-released (suc n) target edges count held level =
      ap (repeat n (clock_slow scope delay)) (clock-released target edges count held level)
      ∙ repeat-released n target (edges ++ (none ∷ [])) (count + 1) held level
      ∙ ap (λ edges'. released target edges' (count + 1 + n) held level)
          (append_assoc edges (none ∷ []) (replicate n none))
      ∙ ap (λ count'. released target (edges ++ (none ∷ replicate n none)) count' held level)
          (omega arith)

  -- The acknowledge, when the target answers OK.
  pub ack-released :
      (target : ℕ → Bool) (edges : List (Option Bool)) (count held : ℕ) (level : Bool)
      → target count ≡ true
      → target (count + 1) ≡ false
      → target (count + 1 + 1) ≡ false
      → ack_slow scope delay (released target edges count held level)
        ≡ (1, released target (edges ++ replicate 3 none) (count + 3) held level)
  unfolding ack_slow released scope act driven
  ack-released target edges count held level first second third =
      simp (p.waits, first, second, third, append_assoc, plus_three)

  -- The request and the acknowledge, when the target answers OK.
  pub acknowledge-released :
      (c : Control Scope) (request : ℕ) (target : ℕ → Bool) (edges : List (Option Bool))
      (count held : ℕ) (level : Bool)
      → c.swd_delay ≡ delay
      → target (count + 8 + c.trn) ≡ true
      → target (count + 8 + c.trn + 1) ≡ false
      → target (count + 8 + c.trn + 1 + 1) ≡ false
      → acknowledge_slow scope request c (released target edges count held level) ≡ (
        1,
        released target
            (edges
              ++ map some (bits 8 (request_header request))
              ++ replicate c.trn none
              ++ replicate 3 none)
            (count + 8 + c.trn + 3)
            (number target count 8)
            level,
      )
  unfolding acknowledge_slow
  acknowledge-released c request target edges count held level same first second third = rw same (
      ap (λ s. ack_slow scope delay (repeat c.trn (clock_slow scope delay) s))
        (send_request-released target edges count held request level)
      ∙ ap (ack_slow scope delay) (
          repeat-released c.trn target (edges ++ map some (bits 8 (request_header request)))
            (count + 8) (number target count 8) level)
      ∙ ack-released target _ (count + 8 + c.trn) (number target count 8) level first second third)
