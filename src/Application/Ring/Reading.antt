-- ===== src/Application/Ring/Reading.antt =====
-- Taking blocks out of the ring buffers of application/usb_main.c.
use cherry_link.Application.Ring.{Ring, RingBuffers, rt_get_linear_buffer, rt_update_read_index}
use cherry_link.Application.Ring.Contents.{
  IsRing, Counts, Taken, bytes_from, read_on, read_round, read_on-Taken, read_round-Taken,
}
use cherry_link.Base.{
  ℕ, ◌-◌, ◌^◌, ◌<◌, ◌≤◌, ◌≡◌, refl, ◌⊎◌, inl, inr, true, false, ltb, ◌==◌, u16, arith,
}

-- How long a block may be.
linear-le :
    (lib : RingBuffers) (rb : Ring) (n : ℕ)
    → n ≤ (rt_get_linear_buffer lib rb).1
    → (n ≤ lib.rt_ringbuffer_data_len rb) × (n ≤ rb.buffer_size - rb.read_index)
unfolding rt_get_linear_buffer
linear-le lib rb n h = ground arith

none-Taken : (rb : Ring) → IsRing rb → Taken rb 0 rb
unfolding bytes_from
none-Taken rb v = record { valid = v; rest = refl }

module _ (lib : RingBuffers) (rb : Ring) (n : ℕ) (some_bytes : n ≤ lib.rt_ringbuffer_data_len rb)
    (small : n < 2 ^ 16) where
  taken_on :
      0 < lib.rt_ringbuffer_data_len rb
      → n < rb.buffer_size - rb.read_index
      → rt_update_read_index lib n rb ≡ (n, read_on n rb)
  unfolding rt_update_read_index read_on
  taken_on more inside =
      let e1 : (lib.rt_ringbuffer_data_len rb == 0) ≡ false = ground arith in
      let e2 : ltb (lib.rt_ringbuffer_data_len rb) (u16 n) ≡ false = ground arith in
      let e3 : ltb (u16 n) (rb.buffer_size - rb.read_index) ≡ true = ground arith in
      let e4 : u16 n ≡ n = omega arith in rw (e1, e2, e3, e4) refl

  taken_round :
      0 < lib.rt_ringbuffer_data_len rb
      → n ≡ rb.buffer_size - rb.read_index
      → rt_update_read_index lib n rb ≡ (n, read_round rb)
  unfolding rt_update_read_index read_round
  taken_round more ends =
      let e1 : (lib.rt_ringbuffer_data_len rb == 0) ≡ false = ground arith in
      let e2 : ltb (lib.rt_ringbuffer_data_len rb) (u16 n) ≡ false = ground arith in
      let e3 : ltb (u16 n) (rb.buffer_size - rb.read_index) ≡ false = ground arith in
      let e4 : u16 (rb.buffer_size - rb.read_index) ≡ n = omega arith in rw (e1, e2, e3, e4) refl

  taken_none : lib.rt_ringbuffer_data_len rb ≡ 0 → rt_update_read_index lib n rb ≡ (0, rb)
  unfolding rt_update_read_index
  taken_none e = let e1 : (lib.rt_ringbuffer_data_len rb == 0) ≡ true = ground arith in rw e1 refl

n_cases :
    (size n block : ℕ)
    → n ≤ size
    → n ≤ block
    → ((size ≡ 0) × (n ≡ 0)) ⊎ (((0 < size) × (n < block)) ⊎ ((0 < size) × (n ≡ block)))
n_cases size n block h k = ground arith

-- For a valid buffer, and lengths that count what is between its indices: `rt_update_read_index`,
-- for not more than the block of `rt_get_linear_buffer` has, moves by as much as it is told, leaves
-- a valid buffer, and what the buffer held is the first bytes of that block, followed by what it
-- holds now.
pub rt_update_read_index-Taken :
    (lib : RingBuffers) (rb : Ring) (n : ℕ)
    → Counts lib
    → IsRing rb
    → n ≤ (rt_get_linear_buffer lib rb).1
    → ((rt_update_read_index lib n rb).0 ≡ n) × Taken rb n (rt_update_read_index lib n rb).1
rt_update_read_index-Taken lib rb n counts v h =
    let (some_bytes, block) = linear-le lib rb n h in
    let counted = counts.filling rb v in
    let small : n < 2 ^ 16 = omega (arith, v.small) in
    elim (n_cases (lib.rt_ringbuffer_data_len rb) n (rb.buffer_size - rb.read_index) some_bytes
      block) [
        | inl (e, none) ↦ rw (taken_none lib rb n some_bytes small e, none) (refl, none-Taken rb v)
        | inr (inl (more, inside)) ↦
            rw (taken_on lib rb n some_bytes small more inside)
              (refl, read_on-Taken rb n v (omega arith) (omega (arith, v.read_within)))
        | inr (inr (more, ends)) ↦
            rw (taken_round lib rb n some_bytes small more ends)
              (refl, read_round-Taken rb n v (omega arith) (omega (arith, v.read_within)))
      ]
