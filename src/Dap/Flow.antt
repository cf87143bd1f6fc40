-- ===== src/Dap/Flow.antt =====
-- Loops with `break`: a round goes on or stops, and `>>=` runs what follows unless it stopped.
use cherry_link.Base.{ℕ, zero, suc, ◌≡◌, refl}

pub data Flow (L : Type 0) : Type 0 where
  next : L → Flow L
  stop : L → Flow L

infixl 5 ◌>>=◌
abbrev pub ◌>>=◌ : {L : Type 0} → Flow L → (L → Flow L) → Flow L
next l >>= f = f l
stop l >>= f = stop l

abbrev pub state_of : {L : Type 0} → Flow L → L
state_of (next l) = l
state_of (stop l) = l

-- A loop with a bound on its rounds.
unfoldable pub loop_rounds : {L : Type 0} → (L → Flow L) → ℕ → L → L
loop_rounds round zero l = l
loop_rounds round (suc n) l = elim (round l) [ next l' ↦ loop_rounds round n l' | stop l' ↦ l' ]

-- The loop rule: what holds of no round, of a round that stops, and of a round before others,
-- holds from the first loop state to the last.
pub loop_rounds_rule :
    {L : Type 0} (R : ℕ → L → L → Type 0) (round : L → Flow L)
    → ((l : L) → R 0 l l)
    → ((n : ℕ) (l l' : L) → round l ≡ stop l' → R (suc n) l l')
    → ((n : ℕ) (l l1 l' : L) → round l ≡ next l1 → R n l1 l' → R (suc n) l l')
    → (n : ℕ) (l : L) → R n l (loop_rounds round n l)
unfolding loop_rounds
loop_rounds_rule R round none last more zero l = none l
loop_rounds_rule {L} R round none last more (suc n) l =
    split (round l) refl (λ l1. loop_rounds_rule R round none last more n l1)
  where
    split :
        (f : Flow L)
        → round l ≡ f
        → ((l1 : L) → R n l1 (loop_rounds round n l1))
        → R (suc n) l (elim f [ next l1 ↦ loop_rounds round n l1 | stop l1 ↦ l1 ])
    split (next l1) e ih = more n l l1 (loop_rounds round n l1) e (ih l1)
    split (stop l1) e ih = last n l l1 e
