-- ===== src/Application/Ring/Contents.antt =====
-- What the ring buffers of application/usb_main.c hold, and what reading and writing does to it.
use cherry_link.Application.Ring.{Ring, RingBuffers}
use cherry_link.Base.{
  ℕ, zero, suc, ◌+◌, ◌-◌, ◌^◌, ◌<◌, ◌≤◌, ◌≡◌, refl, ap, ◌∙◌, ◌⊎◌, inl, inr, Bool, true, false, not,
  if◌then◌else◌, List, [], ◌∷◌, ◌++◌, ◌==◌, Memory, arith,
}

-- Whether both indices are in the same mirror.
unfoldable pub same_mirror : Ring → Bool
same_mirror rb = if rb.read_mirror then rb.write_mirror else not rb.write_mirror

-- The count of bytes: the mirrors tell a full buffer from an empty one.
unfoldable pub filled : Ring → ℕ
unfolding same_mirror
filled rb =
    if same_mirror rb
    then rb.write_index - rb.read_index
    else rb.buffer_size + rb.write_index - rb.read_index

-- A buffer whose size a `uint16_t` holds, with its indices within it and no more bytes than fit.
pub record IsRing (rb : Ring) : Type 0 where
  pub small : rb.buffer_size < 2 ^ 16
  pub read_within : rb.read_index < rb.buffer_size
  pub write_within : rb.write_index < rb.buffer_size
  pub ordered :
      ((same_mirror rb ≡ true) × (rb.read_index ≤ rb.write_index))
      ⊎ ((same_mirror rb ≡ false) × (rb.write_index ≤ rb.read_index))

-- What `ringbuffer.h` says of the two lengths.
pub record Counts (lib : RingBuffers) : Type 0 where
  pub filling : (rb : Ring) → IsRing rb → lib.rt_ringbuffer_data_len rb ≡ filled rb
  pub space : (rb : Ring) → IsRing rb → lib.rt_ringbuffer_space_len rb ≡ rb.buffer_size - filled rb

-- Some bytes from a place on, round the end of the buffer.
unfoldable pub bytes_round : Memory → ℕ → ℕ → ℕ → List ℕ
bytes_round buffer size at zero = []
bytes_round buffer size at (suc n) =
    buffer at ∷ bytes_round buffer size (if at + 1 == size then 0 else at + 1) n

-- Some bytes that lie one behind the other.
unfoldable pub bytes_from : Memory → ℕ → ℕ → List ℕ
bytes_from buffer at zero = []
bytes_from buffer at (suc n) = buffer at ∷ bytes_from buffer (at + 1) n

-- The bytes that a buffer holds, in order.
unfoldable pub contents : Ring → List ℕ
contents rb = bytes_round rb.buffer rb.buffer_size rb.read_index (filled rb)

-- A block up to the end of the buffer, then what goes on from there.
split-block :
    (buffer : Memory) (size at n m : ℕ)
    → at + n < size
    → bytes_round buffer size at (n + m)
      ≡ bytes_from buffer at n ++ bytes_round buffer size (at + n) m
unfolding bytes_round bytes_from
split-block buffer size at zero m h =
    let none_more : 0 + m ≡ m = omega arith in
    let here : at + 0 ≡ at = omega arith in rw (none_more, here) refl
split-block buffer size at (suc n) m h =
    let inside : (at + 1 == size) ≡ false = ground arith in
    let one_more : suc n + m ≡ suc (n + m) = omega arith in
    let further : at + suc n ≡ at + 1 + n = omega arith in
    rw (one_more, inside, further)
      (ap (λ rest. buffer at ∷ rest) (split-block buffer size (at + 1) n m (omega arith)))

-- The block that ends with the buffer.
split-end :
    (buffer : Memory) (size at n m : ℕ)
    → at + suc n ≡ size
    → bytes_round buffer size at (suc n + m)
      ≡ bytes_from buffer at (suc n) ++ bytes_round buffer size 0 m
unfolding bytes_round bytes_from
split-end buffer size at zero m h =
    let ends : (at + 1 == size) ≡ true = ground arith in
    let one_more : suc zero + m ≡ suc m = omega arith in rw (one_more, ends) refl
split-end buffer size at (suc n) m h =
    let inside : (at + 1 == size) ≡ false = ground arith in
    let one_more : suc (suc n) + m ≡ suc (suc n + m) = omega arith in
    rw (one_more, inside)
      (ap (λ rest. buffer at ∷ rest) (split-end buffer size (at + 1) n m (omega arith)))

-- The reader goes on within the buffer.
unfoldable pub read_on : ℕ → Ring → Ring
read_on n rb = record rb { read_index = rb.read_index + n }

-- The reader comes to the end of the buffer.
unfoldable pub read_round : Ring → Ring
read_round rb = record rb { read_mirror = not rb.read_mirror; read_index = 0 }

-- What a reader may take leaves a valid buffer that holds the rest.
pub record Taken (rb : Ring) (n : ℕ) (rb' : Ring) : Type 0 where
  pub valid : IsRing rb'
  pub rest : contents rb ≡ bytes_from rb.buffer rb.read_index n ++ contents rb'

flipped : (r w : Bool) → (if not r then w else not w) ≡ not (if r then w else not w)
flipped true true = refl
flipped true false = refl
flipped false true = refl
flipped false false = refl

pub filled_same : (rb : Ring) → same_mirror rb ≡ true → filled rb ≡ rb.write_index - rb.read_index
unfolding filled
filled_same rb e = rw e refl

pub filled_other :
    (rb : Ring)
    → same_mirror rb ≡ false
    → filled rb ≡ rb.buffer_size + rb.write_index - rb.read_index
unfolding filled
filled_other rb e = rw e refl

read_on-filled :
    (rb : Ring) (n : ℕ)
    → IsRing rb
    → n ≤ filled rb
    → rb.read_index + n < rb.buffer_size
    → IsRing (read_on n rb) × (filled rb ≡ n + filled (read_on n rb))
unfolding read_on same_mirror
read_on-filled rb n v some_bytes inside = elim (v.ordered) [
  | inl (e, before) ↦
      let f = filled_same rb e in
      let f' = filled_same (read_on n rb) e in
      (
        record {
          small = v.small;
          read_within = inside;
          write_within = v.write_within;
          ordered = inl (e, omega arith);
        },
        omega arith,
      )
  | inr (e, behind) ↦
      let f = filled_other rb e in
      let f' = filled_other (read_on n rb) e in
      (
        record {
          small = v.small;
          read_within = inside;
          write_within = v.write_within;
          ordered = inr (e, omega arith);
        },
        omega (arith, v.write_within),
      )
]

read_round-filled :
    (rb : Ring) (n : ℕ)
    → IsRing rb
    → n ≤ filled rb
    → rb.read_index + n ≡ rb.buffer_size
    → IsRing (read_round rb) × (filled rb ≡ n + filled (read_round rb))
unfolding read_round same_mirror
read_round-filled rb n v some_bytes ends = elim (v.ordered) [
  | inl (e, before) ↦ absurd (omega (arith, filled_same rb e, v.write_within))
  | inr (e, behind) ↦
      let turned : same_mirror (read_round rb) ≡ true =
        flipped rb.read_mirror rb.write_mirror ∙ ap not e in
      let f = filled_other rb e in
      let f' = filled_same (read_round rb) turned in
      (
        record {
          small = v.small;
          read_within = omega (arith, v.write_within);
          write_within = v.write_within;
          ordered = inl (turned, omega arith);
        },
        omega (arith, v.read_within),
      )
]

pub read_on-Taken :
    (rb : Ring) (n : ℕ)
    → IsRing rb
    → n ≤ filled rb
    → rb.read_index + n < rb.buffer_size
    → Taken rb n (read_on n rb)
unfolding read_on contents
read_on-Taken rb n v some_bytes inside =
    let (valid', less) = read_on-filled rb n v some_bytes inside in
    record {
      valid = valid';
      rest =
          ap (bytes_round rb.buffer rb.buffer_size rb.read_index) less
          ∙ split-block rb.buffer rb.buffer_size rb.read_index n (filled (read_on n rb)) inside;
    }

pub read_round-Taken :
    (rb : Ring) (n : ℕ)
    → IsRing rb
    → n ≤ filled rb
    → rb.read_index + n ≡ rb.buffer_size
    → Taken rb n (read_round rb)
unfolding read_round contents
read_round-Taken rb zero v some_bytes ends = absurd (omega (arith, v.read_within))
read_round-Taken rb (suc n) v some_bytes ends =
    let (valid', less) = read_round-filled rb (suc n) v some_bytes ends in
    record {
      valid = valid';
      rest =
          ap (bytes_round rb.buffer rb.buffer_size rb.read_index) less
          ∙ split-end rb.buffer rb.buffer_size rb.read_index n (filled (read_round rb)) ends;
    }
