-- ===== src/Tests/Tools.antt =====
-- The theorems on tools/merge_bin.c at concrete inputs.
use Prim.{tt}
use cherry_link.Base.{ℕ, ◌==◌, ◌≡◌, refl, Bool, true, none, some, List, [], ◌∷◌, if◌then◌else◌}
use cherry_link.Tools.Merge.{Disk, contents, merge, merge_inputs, merge_main}
use cherry_link.Tools.Merge.Placed.{AllPlaced, AllOther, merge_main-AllPlaced}

-- a boot loader of three bytes and an application of two
abbrev two_images : Disk
two_images path =
    if path == 1 then some (1 ∷ 2 ∷ 3 ∷ []) else if path == 2 then some (8 ∷ 9 ∷ []) else none

abbrev any_file : ℕ → Bool
any_file path = true

abbrev as_number : ℕ → ℕ
as_number arg = arg

-- the boot loader at 0, the application at 5, into file 7
abbrev inputs : List ℕ
inputs = 1 ∷ 0 ∷ 2 ∷ 5 ∷ []

abbrev outcome : ℕ × Disk
outcome = merge_main any_file as_number (0 ∷ 7 ∷ inputs) two_images

merged_bytes : contents outcome.1 7 ≡ 1 ∷ 2 ∷ 3 ∷ 0xff ∷ 0xff ∷ 8 ∷ 9 ∷ []
unfolding merge_main merge_inputs merge
merged_bytes = refl

outcome_is_zero : outcome.0 ≡ 0
unfolding merge_main merge_inputs merge
outcome_is_zero = refl

inputs_are_other : AllOther 7 inputs
unfolding AllOther
inputs_are_other = (refl, (refl, tt))

merge_main-AllPlaced_example : AllPlaced as_number two_images (contents outcome.1 7) inputs
merge_main-AllPlaced_example =
    merge_main-AllPlaced any_file as_number 0 7 inputs two_images inputs_are_other outcome_is_zero
