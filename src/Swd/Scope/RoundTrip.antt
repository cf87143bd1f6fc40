-- ===== src/Swd/Scope/RoundTrip.antt =====
-- A word that a write puts on the line, sent back by the target, is the word that a read returns.
use native.Mathlib.Nat.{pow-succ'}
use cherry_link.Base.{
  ℕ, zero, suc, ◌+◌, ◌*◌, ◌/◌, ◌%◌, ◌^◌, ◌<◌, ◌≡◌, refl, ap, ◌∙◌, Bool, true, false, if◌then◌else◌,
  Option, some, List, [], ◌∷◌, ◌++◌, get_or, arith, ◌==◌,
}
use cherry_link.Swd.Control.{Control}
use cherry_link.Swd.Pace.{Patient}
use cherry_link.Swd.Parity.{ones_parity, ones_parity-lt}
use cherry_link.Swd.Read.{bit, swd_read_slow, swd_read_quick}
use cherry_link.Bits.Lists.{bits}
use cherry_link.Swd.Scope.{Scope, scope, released, number}
use cherry_link.Swd.Scope.Answered.{swd_read-read_packet}

-- The levels of the data phase that `write_packet` has: the word, then its parity.
abbrev pub data_phase : ℕ → List Bool
data_phase word = bits 32 word ++ ((ones_parity 32 word == 1) ∷ [])

number-bits :
    (target : ℕ → Bool) (n k x : ℕ) (tail : List Bool)
    → x < 2 ^ n
    → ((i : ℕ) → i < n → target (k + i) ≡ get_or (bits n x ++ tail) i false)
    → number target k n ≡ x
unfolding number bits
number-bits target zero k x tail small sent = omega arith
number-bits target (suc n) k x tail small sent =
    let first : target k ≡ (x % 2 == 1) = ap target (omega arith) ∙ sent 0 (omega arith) in
    let twice : 2 ^ suc n ≡ 2 * 2 ^ n = rw pow-succ' refl in
    let rest : number target (k + 1) n ≡ x / 2 =
      number-bits target n (k + 1) (x / 2) tail (omega (arith, twice))
        (λ i h. ap target (omega arith) ∙ sent (suc i) (omega arith)) in
    rw (first, rest) (ground arith)

get_or-bits : (n x : ℕ) (q : Bool) (tail : List Bool) → get_or (bits n x ++ (q ∷ tail)) n false ≡ q
unfolding bits
get_or-bits zero x q tail = refl
get_or-bits (suc n) x q tail = get_or-bits n (x / 2) q tail

parity_matches :
    (word : ℕ)
    → ◌≡◌ {A = ℕ} (if bit (ones_parity 32 word == 1) == ones_parity 32 word then 1 else 17) 1
parity_matches word = ground (arith, ones_parity-lt 32 word)

-- A read from a target that answers OK to the first request, on a line at rest and with delays that
-- have no effect on it: if the target then puts the levels on the line that a write has for the data
-- phase of a word, the word and its parity, the slow and the quick read return 1 and that word.
pub swd_read-data_phase :
    (c : Control Scope) (request word : ℕ) (target : ℕ → Bool) (edges : List (Option Bool))
    (count held : ℕ) (level : Bool)
    → Patient scope c.swd_delay
    → request < 256
    → word < 2 ^ 32
    → target (count + 8 + c.trn) ≡ true
    → target (count + 8 + c.trn + 1) ≡ false
    → target (count + 8 + c.trn + 1 + 1) ≡ false
    → ((i : ℕ) → i < 33 → target (count + 8 + c.trn + 3 + i) ≡ get_or (data_phase word) i false)
    → ((swd_read_slow scope request
          (record { control = c; wire = released target edges count held level })).ack
        ≡ 1)
      × ((swd_read_slow scope request
            (record { control = c; wire = released target edges count held level })).word
          ≡ some word)
      × ((swd_read_quick scope request
            (record { control = c; wire = released target edges count held level })).ack
          ≡ 1)
      × ((swd_read_quick scope request
            (record { control = c; wire = released target edges count held level })).word
          ≡ some word)
swd_read-data_phase c request word target edges count held level p small fits a1 a2 a3 sent =
    let k = count + 8 + c.trn + 3 in
    let (slow, quick) =
      swd_read-read_packet c p request target edges count held level small a1 a2 a3 in
    let value : number target k 32 ≡ word =
      number-bits target 32 k word ((ones_parity 32 word == 1) ∷ []) fits
        (λ i h. sent i (omega arith)) in
    let odd : target (k + 8 + 8 + 8 + 8) ≡ (ones_parity 32 word == 1) =
      ap target (omega arith)
      ∙ sent 32 (omega arith)
      ∙ get_or-bits 32 word (ones_parity 32 word == 1) [] in
    let right : (if bit (target (k + 8 + 8 + 8 + 8)) == ones_parity 32 (number target k 32)
          then 1
          else 17)
        ≡ 1 =
      rw (value, odd) (parity_matches word) in
    let whole : some (number target k 32) ≡ some word = ap some value in
    (
      ap (λ r. r.ack) slow ∙ right,
      ap (λ r. r.word) slow ∙ whole,
      ap (λ r. r.ack) quick ∙ right,
      ap (λ r. r.word) quick ∙ whole,
    )
