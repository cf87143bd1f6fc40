-- ===== src/Application/Ring/Writing.antt =====
-- Moving the writer of the ring buffers of application/usb_main.c.
use cherry_link.Application.Ring.{Ring, RingBuffers, rt_update_write_index}
use cherry_link.Application.Ring.Contents.{
  IsRing, Counts, filled, same_mirror, filled_same, filled_other,
}
use cherry_link.Base.{
  ℕ, ◌+◌, ◌-◌, ◌^◌, ◌<◌, ◌≤◌, ◌≡◌, refl, ap, ◌∙◌, inl, inr, Bool, true, false, not, if◌then◌else◌,
  ltb, u16, arith, Bool-cases,
}

-- A place that is round the end of the buffer by less than its size.
unfoldable pub wrapped : ℕ → ℕ → ℕ
wrapped size at = if ltb at size then at else at - size

-- The writer has moved by `n`, and nothing else has changed.
pub record Moved (rb : Ring) (n : ℕ) (rb' : Ring) : Type 0 where
  pub valid : IsRing rb'
  pub more : filled rb' ≡ filled rb + n
  pub place : rb'.write_index ≡ wrapped rb.buffer_size (rb.write_index + n)
  pub same_reader : rb'.read_index ≡ rb.read_index
  pub same_size : rb'.buffer_size ≡ rb.buffer_size
  pub same_buffer : rb'.buffer ≡ rb.buffer

write_on : ℕ → Ring → Ring
write_on n rb = record rb { write_index = rb.write_index + n }

write_round : ℕ → Ring → Ring
write_round n rb = record rb {
  write_mirror = not rb.write_mirror;
  write_index = n - (rb.buffer_size - rb.write_index);
}

flipped : (r w : Bool) → (if r then not w else not (not w)) ≡ not (if r then w else not w)
flipped true true = refl
flipped true false = refl
flipped false true = refl
flipped false false = refl

write_on-Moved :
    (rb : Ring) (n : ℕ)
    → IsRing rb
    → filled rb + n ≤ rb.buffer_size
    → n < rb.buffer_size - rb.write_index
    → Moved rb n (write_on n rb)
unfolding write_on same_mirror wrapped
write_on-Moved rb n v fits inside = elim (v.ordered) [
  | inl (e, before) ↦
      let f = filled_same rb e in
      let f' = filled_same (write_on n rb) e in
      record {
        valid = record {
          small = v.small;
          read_within = v.read_within;
          write_within = omega arith;
          ordered = inl (e, omega arith);
        };
        more = omega arith;
        place = ground arith;
        same_reader = refl;
        same_size = refl;
        same_buffer = refl;
      }
  | inr (e, behind) ↦
      let f = filled_other rb e in
      let f' = filled_other (write_on n rb) e in
      record {
        valid = record {
          small = v.small;
          read_within = v.read_within;
          write_within = omega arith;
          ordered = inr (e, omega (arith, v.read_within));
        };
        more = omega (arith, v.read_within);
        place = ground arith;
        same_reader = refl;
        same_size = refl;
        same_buffer = refl;
      }
]

write_round-Moved :
    (rb : Ring) (n : ℕ)
    → IsRing rb
    → filled rb + n ≤ rb.buffer_size
    → rb.buffer_size - rb.write_index ≤ n
    → Moved rb n (write_round n rb)
unfolding write_round same_mirror wrapped
write_round-Moved rb n v fits ends = elim (v.ordered) [
  | inl (e, before) ↦
      let turned : same_mirror (write_round n rb) ≡ false =
        flipped rb.read_mirror rb.write_mirror ∙ ap not e in
      let f = filled_same rb e in
      let f' = filled_other (write_round n rb) turned in
      record {
        valid = record {
          small = v.small;
          read_within = v.read_within;
          write_within = omega (arith, v.read_within, v.write_within);
          ordered = inr (turned, omega (arith, v.write_within));
        };
        more = omega (arith, v.read_within, v.write_within);
        place = ground (arith, v.write_within);
        same_reader = refl;
        same_size = refl;
        same_buffer = refl;
      }
  | inr (e, behind) ↦ absurd (omega (arith, filled_other rb e, v.read_within, v.write_within))
]

-- The smaller of what is asked for and what is free.
unfoldable pub room : Ring → ℕ → ℕ
room rb n = if ltb (rb.buffer_size - filled rb) n then rb.buffer_size - filled rb else n

filled-le : (rb : Ring) → IsRing rb → filled rb ≤ rb.buffer_size
filled-le rb v = elim (v.ordered) [
  | inl (e, before) ↦ omega (arith, filled_same rb e, v.write_within)
  | inr (e, behind) ↦ omega (arith, filled_other rb e, behind)
]

-- For a valid buffer, lengths that count what is between its indices, and a `uint16_t`:
-- `rt_update_write_index` moves the writer round the buffer by as much as it is told, or by what is
-- free where that is less, says by how much, and leaves a valid buffer that holds that much more.
pub rt_update_write_index-Moved :
    (lib : RingBuffers) (rb : Ring) (n : ℕ)
    → Counts lib
    → IsRing rb
    → n < 2 ^ 16
    → ((rt_update_write_index lib n rb).0 ≡ room rb n)
      × Moved rb (room rb n) (rt_update_write_index lib n rb).1
unfolding rt_update_write_index room
rt_update_write_index-Moved lib rb n counts v small =
    let e1 : u16 (lib.rt_ringbuffer_space_len rb) ≡ rb.buffer_size - filled rb =
      omega (arith, counts.space rb v, v.small) in
    let e2 : u16 n ≡ n = omega arith in
    let m = room rb n in
    let fits : filled rb + m ≤ rb.buffer_size = ground (arith, filled-le rb v) in
    elim (Bool-cases (ltb m (rb.buffer_size - rb.write_index))) [
      | inl e ↦ rw (e1, e2, e) (refl, unfold write_on in write_on-Moved rb m v fits (ground arith))
      | inr e ↦
          rw (e1, e2, e) (refl, unfold write_round in write_round-Moved rb m v fits (ground arith))
    ]
