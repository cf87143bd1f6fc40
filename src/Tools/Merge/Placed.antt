-- ===== src/Tools/Merge/Placed.antt =====
-- Where the images stand in the merged file.
use Prim.{tt}
use mathlib.Core.Path.{subst}
use cherry_link.Base.{
  ℕ, ◌-◌, ◌%◌, ◌≤◌, ◌≡◌, refl, sym, ap, ◌∙◌, Bool, true, false, not, ◌||◌, Option, none, some, List,
  [], ◌∷◌, ◌++◌, ◌==◌, ==_iff, append_assoc, append-nil, ltb, if◌then◌else◌, arith, length,
  replicate, length-append, length-replicate, u32,
}
use cherry_link.Tools.Merge.{Disk, store, remove, contents, merge, merge_inputs, merge_main}

-- `bytes` stand in `image` from `offset` on.
pub record ContainsAt (image : List ℕ) (offset : ℕ) (bytes : List ℕ) : Type 0 where
  pub before : List ℕ
  pub behind : List ℕ
  pub split : image ≡ before ++ bytes ++ behind
  pub start : length before ≡ offset

-- Each input stands in the image at the offset that is given for it.
pub AllPlaced : (ℕ → ℕ) → Disk → List ℕ → List ℕ → Type 0
AllPlaced strtol d image [] = Unit
AllPlaced strtol d image (file ∷ []) = Unit
AllPlaced strtol d image (file ∷ offset ∷ rest) =
    ContainsAt image (u32 (strtol offset)) (contents d file) × AllPlaced strtol d image rest

-- No input is the output file.
unfoldable pub AllOther : ℕ → List ℕ → Type 0
AllOther output_file [] = Unit
AllOther output_file (file ∷ []) = Unit
AllOther output_file (file ∷ offset ∷ rest) =
    ((output_file == file) ≡ false) × AllOther output_file rest

-- the bytes of 0xFF that a merge puts in between
abbrev padding : ℕ → List ℕ → List ℕ
padding offset dest = replicate (offset - length dest) 0xff

module _ (writable : ℕ → Bool) (strtol : ℕ → ℕ) where
  -- What a merge that succeeds does.
  record Merged (file offset output_file : ℕ) (d d' : Disk) : Type 0 where
    placed : ContainsAt (contents d' output_file) offset (contents d file)
    tail : List ℕ
    grown : contents d' output_file ≡ contents d output_file ++ tail
    others : (q : ℕ) → (output_file == q) ≡ false → d' q ≡ d q

  contents-store : (d : Disk) (p : ℕ) (bytes : List ℕ) → contents (store d p bytes) p ≡ bytes
  contents-store d p bytes =
      let same : (p == p) ≡ true = (==_iff p p).1 refl in rw (same, contents) refl

  store-other : (d : Disk) (p q : ℕ) (bytes : List ℕ) → (p == q) ≡ false → store d p bytes q ≡ d q
  store-other d p q bytes other = rw other refl

  -- The bytes that a merge appends: the padding up to the offset, then the source.
  appended :
      (file offset output_file : ℕ) (d : Disk) (dest src : List ℕ)
      → contents d output_file ≡ dest
      → contents d file ≡ src
      → length dest ≤ offset
      → let pad : List ℕ = padding offset dest in
        Merged file offset output_file d
          (store (store d output_file dest) output_file ((dest ++ pad) ++ src))
  appended file offset output_file d dest src ed es fits =
      let pad = padding offset dest in
      let filled : length pad ≡ offset - length dest =
        length-replicate (offset - length dest) 0xff in
      let now = contents-store (store d output_file dest) output_file ((dest ++ pad) ++ src) in
      record {
        placed = record {
          before = dest ++ pad;
          behind = [];
          split =
              now
              ∙ ap (λ x. (dest ++ pad) ++ x) (sym es)
              ∙ sym (append-nil ((dest ++ pad) ++ contents d file));
          start = omega (arith, length-append dest pad, filled);
        };
        tail = pad ++ src;
        grown = now ∙ append_assoc dest pad src ∙ ap (λ x. x ++ (pad ++ src)) (sym ed);
        others = λ q other.
            store-other (store d output_file dest) output_file q ((dest ++ pad) ++ src) other
            ∙ store-other d output_file q dest other;
      }

  merge-Merged :
      (file offset output_file : ℕ) (d : Disk)
      → (merge writable strtol file offset output_file d).0 ≡ true
      → Merged file offset output_file d (merge writable strtol file offset output_file d).1
  unfolding merge
  merge-Merged file offset output_file d e = split (d file) refl e
    where
      dest : List ℕ
      dest = contents d output_file

      opened : Disk
      opened = store d output_file dest

      whole : List ℕ → Bool × Disk
      whole src = (true, store opened output_file ((dest ++ padding offset dest) ++ src))

      sized : List ℕ → Bool → Bool × Disk
      sized src full = if full then (false, opened) else whole src

      allowed : List ℕ → Bool → Bool × Disk
      allowed src w = if not w then (false, d) else sized src (ltb offset (length dest))

      result : Option (List ℕ) → Bool × Disk
      result o = elim o [ none ↦ (false, d) | some src ↦ allowed src (writable output_file) ]

      Good : Bool × Disk → Type 0
      Good r = r.0 ≡ true → Merged file offset output_file d r.1

      sized_good :
          (src : List ℕ) (full : Bool)
          → contents d file ≡ src
          → ltb offset (length dest) ≡ full
          → Good (sized src full)
      sized_good src true es h e = absurd (ground arith)
      sized_good src false es h e =
          appended file offset output_file d dest src refl es (ground arith)

      allowed_good : (src : List ℕ) (w : Bool) → contents d file ≡ src → Good (allowed src w)
      allowed_good src false es e = absurd (ground arith)
      allowed_good src true es e = sized_good src (ltb offset (length dest)) es refl e

      split : (o : Option (List ℕ)) → d file ≡ o → Good (result o)
      split none h e = absurd (ground arith)
      split (some src) h e = allowed_good src (writable output_file) (rw (h, contents) refl) e

  ContainsAt-append :
      (image more bytes now : List ℕ) (offset : ℕ)
      → now ≡ image ++ more
      → ContainsAt image offset bytes
      → ContainsAt now offset bytes
  ContainsAt-append image more bytes now offset e c = record {
    before = c.before;
    behind = c.behind ++ more;
    split = e ∙ ap (λ x. x ++ more) c.split ∙ append_assoc (c.before ++ bytes) c.behind more;
    start = c.start;
  }

  -- The inputs are the same on two disks that differ in the output file only.
  AllPlaced-same :
      (inputs image : List ℕ) (output_file : ℕ) (d d' : Disk)
      → ((q : ℕ) → (output_file == q) ≡ false → d' q ≡ d q)
      → AllOther output_file inputs
      → AllPlaced strtol d' image inputs
      → AllPlaced strtol d image inputs
  unfolding AllPlaced AllOther
  AllPlaced-same [] image output_file d d' same other p = p
  AllPlaced-same (file ∷ []) image output_file d d' same other p = p
  AllPlaced-same (file ∷ offset ∷ rest) image output_file d d' same (one, other) (c, p) =
      let bytes : contents d' file ≡ contents d file =
        ap (λ o. elim o [ none ↦ [] | some b ↦ b ]) (same file one) in
      (
        subst (λ b. ContainsAt image (u32 (strtol offset)) b) bytes c,
        AllPlaced-same rest image output_file d d' same other p,
      )

  -- What the loop over the inputs does when its exit code is zero.
  record Built (inputs : List ℕ) (output_file : ℕ) (d d' : Disk) : Type 0 where
    placed : AllPlaced strtol d (contents d' output_file) inputs
    tail : List ℕ
    grown : contents d' output_file ≡ contents d output_file ++ tail

  merge_inputs-Built :
      (inputs : List ℕ) (output_file : ℕ) (d : Disk)
      → AllOther output_file inputs
      → (merge_inputs writable strtol output_file inputs d).0 ≡ 0
      → Built inputs output_file d (merge_inputs writable strtol output_file inputs d).1
  unfolding merge_inputs AllPlaced AllOther
  merge_inputs-Built [] output_file d other e = record {
    placed = tt;
    tail = [];
    grown = sym (append-nil (contents d output_file));
  }
  merge_inputs-Built (file ∷ []) output_file d other e = record {
    placed = tt;
    tail = [];
    grown = sym (append-nil (contents d output_file));
  }
  merge_inputs-Built (file ∷ offset ∷ rest) output_file d (one, other) e =
      split r.0 refl e (λ ended. merge_inputs-Built rest output_file r.1 other ended)
    where
      r : Bool × Disk
      r = merge writable strtol file (u32 (strtol offset)) output_file d

      after : ℕ × Disk
      after = merge_inputs writable strtol output_file rest r.1

      split :
          (ok : Bool)
          → r.0 ≡ ok
          → (if ok then after else (1, r.1)).0 ≡ 0
          → (after.0 ≡ 0 → Built rest output_file r.1 after.1)
          → Built (file ∷ offset ∷ rest) output_file d (if ok then after else (1, r.1)).1
      split false h e ih = absurd (omega arith)
      split true h e ih =
          let m = merge-Merged file (u32 (strtol offset)) output_file d h in
          let b = ih e in
          record {
            placed = (
              ContainsAt-append _ b.tail _ _ _ b.grown m.placed,
              AllPlaced-same rest _ output_file d r.1 m.others other b.placed,
            );
            tail = m.tail ++ b.tail;
            grown =
                b.grown
                ∙ ap (λ x. x ++ b.tail) m.grown
                ∙ append_assoc (contents d output_file) m.tail b.tail;
          }

  -- When the program ends with the exit code 0, each input stands in the output file as a whole, at
  -- the offset that its argument gives, and no later input has touched it. The output file is none
  -- of the inputs.
  pub merge_main-AllPlaced :
      (program output_file : ℕ) (inputs : List ℕ) (d : Disk)
      → AllOther output_file inputs
      → (merge_main writable strtol (program ∷ output_file ∷ inputs) d).0 ≡ 0
      → AllPlaced strtol d
          (contents (merge_main writable strtol (program ∷ output_file ∷ inputs) d).1 output_file)
          inputs
  unfolding merge_main
  merge_main-AllPlaced program output_file inputs d other e =
      split (ltb argc 4 || not (argc % 2 == 0)) e
    where
      argc : ℕ
      argc = length (program ∷ output_file ∷ inputs)

      run : Bool → ℕ × Disk
      run usage =
          if usage
          then (1, d)
          else merge_inputs writable strtol output_file inputs (remove d output_file)

      split :
          (usage : Bool)
          → (run usage).0 ≡ 0
          → AllPlaced strtol d (contents (run usage).1 output_file) inputs
      split true e = absurd (omega arith)
      split false e =
          let b = merge_inputs-Built inputs output_file (remove d output_file) other e in
          AllPlaced-same inputs _ output_file d (remove d output_file) (λ q o. rw o refl) other
            b.placed
