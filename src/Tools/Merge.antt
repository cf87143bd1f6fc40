-- ===== src/Tools/Merge.antt =====
-- tools/merge_bin.c: several images go into one file, each at its offset.
pub mod Placed
use cherry_link.Base.{
  ℕ, zero, suc, ◌+◌, ◌-◌, ◌%◌, ◌^◌, Bool, true, false, not, ◌||◌, Option, none, some, List, [], ◌∷◌,
  ◌++◌, ◌==◌, ltb, if◌then◌else◌, length, replicate, u32,
}

-- The files by their names, which stand as numbers, and what is in them.
abbrev pub Disk : Type 0
Disk = ℕ → Option (List ℕ)

abbrev pub store : Disk → ℕ → List ℕ → Disk
store d path bytes q = if path == q then some bytes else d q

abbrev pub remove : Disk → ℕ → Disk
remove d path q = if path == q then none else d q

-- A file that is not there is empty when it is opened for appending.
abbrev pub contents : Disk → ℕ → List ℕ
contents d path = elim (d path) [ none ↦ [] | some bytes ↦ bytes ]

-- `writable` tells of which names `fopen(…, "ab+")` opens the file, `strtol` what number an argument
-- stands for. The source is not the destination: to append a file to itself would not end.
module _ (writable : ℕ → Bool) (strtol : ℕ → ℕ) where
  -- `merge`; the Boolean is false for the return of -1.
  unfoldable pub merge : ℕ → ℕ → ℕ → Disk → Bool × Disk
  merge src_path offset dest_path d = elim (d src_path) [
    | none ↦ (false, d)
    | some src ↦
        let dest = contents d dest_path in
        let opened = store d dest_path dest in
        if not (writable dest_path)
        then (false, d)
        else if ltb offset (length dest)
        then (false, opened)
        else (true, store opened dest_path ((dest ++ replicate (offset - length dest) 0xff) ++ src))
  ]

  -- the loop of `main` over the arguments after the output file, with its exit code
  unfoldable pub merge_inputs : ℕ → List ℕ → Disk → ℕ × Disk
  merge_inputs output_file [] d = (0, d)
  merge_inputs output_file (file ∷ []) d = (0, d)
  merge_inputs output_file (file ∷ offset ∷ rest) d =
      let r = merge file (u32 (strtol offset)) output_file d in
      let after = merge_inputs output_file rest r.1 in if r.0 then after else (1, r.1)

  -- `main`, with the arguments from the name of the program on
  unfoldable pub merge_main : List ℕ → Disk → ℕ × Disk
  merge_main [] d = (1, d)
  merge_main (program ∷ []) d = (1, d)
  merge_main (program ∷ output_file ∷ rest) d =
      let argc = length (program ∷ output_file ∷ rest) in
      if ltb argc 4 || not (argc % 2 == 0)
      then (1, d)
      else merge_inputs output_file rest (remove d output_file)
