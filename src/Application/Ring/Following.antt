-- ===== src/Application/Ring/Following.antt =====
-- The thread of application/usb_main.c that follows the DMA round its ring buffer.
use cherry_link.Application.Ring.{
  Ring, RingBuffers, Serial, rt_update_write_index, usart2usb_ringbuffer_size, usart_cdc_rev,
}
use cherry_link.Application.Ring.Contents.{
  IsRing, Counts, filled, filled_same, filled_other, bytes_round, contents,
}
use cherry_link.Application.Ring.Writing.{Moved, wrapped, room, rt_update_write_index-Moved}
use mathlib.Core.Path.{subst}
use cherry_link.Base.{
  ℕ, zero, suc, ◌+◌, ◌-◌, ◌^◌, ◌%◌, ◌<◌, ◌≤◌, ◌≡◌, refl, ap, sym, ◌∙◌, inl, inr, not, if◌then◌else◌,
  leb, ◌==◌, u32, arith, Bool-cases, ==_iff, List, ◌∷◌, ◌++◌, append-nil, Memory,
}

-- The place `n` bytes on, round the end of the buffer.
place_on : ℕ → ℕ → ℕ → ℕ
place_on size at zero = at
place_on size at (suc n) = place_on size (if at + 1 == size then 0 else at + 1) n

place_on-wrapped :
    (size at n : ℕ) → at < size → n ≤ size → place_on size at n ≡ wrapped size (at + n)
unfolding place_on wrapped
place_on-wrapped size at zero h k = ground arith
place_on-wrapped size at (suc n) h k = elim (Bool-cases (at + 1 == size)) [
  | inl e ↦
      let ends = (==_iff (at + 1) size).0 e in
      rw e (place_on-wrapped size 0 n (omega arith) (omega arith) ∙ ground arith)
  | inr e ↦
      let inside : at + 1 < size = ground arith in
      rw e (place_on-wrapped size (at + 1) n inside (omega arith) ∙ ground arith)
]

bytes_round-add :
    (buffer : Memory) (size at m n : ℕ)
    → bytes_round buffer size at (m + n)
      ≡ bytes_round buffer size at m ++ bytes_round buffer size (place_on size at m) n
unfolding bytes_round place_on
bytes_round-add buffer size at zero n = let none_more : 0 + n ≡ n = omega arith in rw none_more refl
bytes_round-add buffer size at (suc m) n =
    let one_more : suc m + n ≡ suc (m + n) = omega arith in
    rw one_more (
      ap (λ rest. buffer at ∷ rest)
        (bytes_round-add buffer size (if at + 1 == size then 0 else at + 1) m n))

-- Behind what it holds stands the writer.
writer-place :
    (rb : Ring) → IsRing rb → place_on rb.buffer_size rb.read_index (filled rb) ≡ rb.write_index
unfolding wrapped
writer-place rb v = elim (v.ordered) [
  | inl (e, before) ↦
      let f = filled_same rb e in
      place_on-wrapped rb.buffer_size rb.read_index (filled rb) v.read_within
        (omega (arith, v.write_within))
      ∙ ground (arith, v.write_within)
  | inr (e, behind) ↦
      let f = filled_other rb e in
      place_on-wrapped rb.buffer_size rb.read_index (filled rb) v.read_within
        (omega (arith, v.read_within))
      ∙ ground (arith, v.read_within, v.write_within)
]

-- What a writer that has moved adds.
Moved-contents :
    (rb rb' : Ring) (n : ℕ)
    → IsRing rb
    → Moved rb n rb'
    → contents rb' ≡ contents rb ++ bytes_round rb.buffer rb.buffer_size rb.write_index n
unfolding contents
Moved-contents rb rb' n v h =
    ap (bytes_round rb'.buffer rb'.buffer_size rb'.read_index) h.more
    ∙ rw (h.same_buffer, h.same_size, h.same_reader)
        (bytes_round-add rb.buffer rb.buffer_size rb.read_index (filled rb) n
          ∙ ap
              (λ at.
                bytes_round rb.buffer rb.buffer_size rb.read_index (filled rb)
                ++ bytes_round rb.buffer rb.buffer_size at n)
              (writer-place rb v))

-- How far the counter of the DMA has gone, as it goes down and starts again.
arrived : ℕ → ℕ → ℕ
arrived remaining_cnt counter =
    (usart2usb_ringbuffer_size + remaining_cnt - counter) % usart2usb_ringbuffer_size

-- Where the DMA writes next.
unfoldable pub dma_place : ℕ → ℕ
dma_place counter = (usart2usb_ringbuffer_size - counter) % usart2usb_ringbuffer_size

-- The writer is where the DMA was when the thread last ran.
pub record Follows (s : Serial) : Type 0 where
  pub valid : IsRing s.rb_usart2usb
  pub size : s.rb_usart2usb.buffer_size ≡ usart2usb_ringbuffer_size
  pub counter : s.remaining_cnt ≤ usart2usb_ringbuffer_size
  pub place : s.rb_usart2usb.write_index ≡ dma_place s.remaining_cnt

arrived-small : (remaining_cnt counter : ℕ) → arrived remaining_cnt counter < 2 ^ 16
unfolding arrived
arrived-small remaining_cnt counter = omega arith

place-step :
    (remaining_cnt counter : ℕ)
    → remaining_cnt ≤ usart2usb_ringbuffer_size
    → 0 < counter
    → counter ≤ usart2usb_ringbuffer_size
    → wrapped usart2usb_ringbuffer_size (dma_place remaining_cnt + arrived remaining_cnt counter)
      ≡ dma_place counter
unfolding wrapped dma_place arrived
place-step remaining_cnt counter h k l = ground arith

nothing-added :
    (buffer : Memory) (size at n : ℕ) (held : List ℕ)
    → n ≡ 0
    → held ≡ held ++ bytes_round buffer size at n
unfolding bytes_round
nothing-added buffer size at n held e = rw e (sym (append-nil held))

arrived-bytes :
    (remaining_cnt counter n : ℕ)
    → remaining_cnt ≤ usart2usb_ringbuffer_size
    → 0 < counter
    → counter ≤ usart2usb_ringbuffer_size
    → n < usart2usb_ringbuffer_size
    → dma_place counter ≡ (dma_place remaining_cnt + n) % usart2usb_ringbuffer_size
    → arrived remaining_cnt counter ≡ n
unfolding arrived dma_place
arrived-bytes remaining_cnt counter n h k l few e = omega arith

-- Let the lengths count what is between the indices, and let the writer be where the DMA was when
-- the thread last ran. If the DMA has since gone on by `n` bytes, fewer than the buffer has places and
-- not more than were free, and its counter, between 1 and that size, shows where it is, then a round
-- of `usart_cdc_rev_thread` brings the writer to where the DMA is; the buffer holds what it held,
-- followed by the `n` bytes that its memory has, round its end, from where the DMA was on; and the
-- other thread is woken exactly if there are any.
pub usart_cdc_rev-Follows :
    (lib : RingBuffers) (s : Serial) (counter n : ℕ)
    → Counts lib
    → Follows s
    → 0 < counter
    → counter ≤ usart2usb_ringbuffer_size
    → n < usart2usb_ringbuffer_size
    → dma_place counter ≡ (dma_place s.remaining_cnt + n) % usart2usb_ringbuffer_size
    → filled s.rb_usart2usb + n ≤ usart2usb_ringbuffer_size
    → let s' = (usart_cdc_rev lib counter s).1 in
      Follows s'
      × (contents s'.rb_usart2usb
          ≡ contents s.rb_usart2usb
            ++ bytes_round s.rb_usart2usb.buffer usart2usb_ringbuffer_size
                (dma_place s.remaining_cnt)
                n)
      × (filled s'.rb_usart2usb ≡ filled s.rb_usart2usb + n)
      × ((usart_cdc_rev lib counter s).0 ≡ not (n == 0))
unfolding usart_cdc_rev
usart_cdc_rev-Follows lib s counter n counts follows some_left within few gone fits =
    let rb = s.rb_usart2usb in
    let went = arrived-bytes s.remaining_cnt counter n follows.counter some_left within few gone in
    let received : (if leb counter s.remaining_cnt
          then s.remaining_cnt - counter
          else u32 (2 ^ 32 + usart2usb_ringbuffer_size + s.remaining_cnt - counter))
        ≡ n =
      unfold arrived in ground (arith, went) in
    let small : n < 2 ^ 16 = omega arith in
    let moved = (rt_update_write_index-Moved lib rb n counts follows.valid small).1 in
    let whole : room rb n ≡ n = unfold room in ground (arith, follows.size) in
    let moved' = subst (λ m. Moved rb m (rt_update_write_index lib n rb).1) whole moved in
    let added = Moved-contents rb _ n follows.valid moved' in
    elim (Bool-cases (n == 0)) [
      | inl e ↦
          let none = (==_iff n 0).0 e in
          rw (received, e)
            (follows, nothing-added rb.buffer _ _ n (contents rb) none, omega arith, refl)
      | inr e ↦
          rw (received, e)
            (
              record {
                valid = moved'.valid;
                size = moved'.same_size ∙ follows.size;
                counter = within;
                place =
                    moved'.place
                    ∙ rw (follows.size, follows.place, sym went)
                        (place-step s.remaining_cnt counter follows.counter some_left within);
              },
              added
                  ∙ ap (λ at. contents rb ++ bytes_round rb.buffer rb.buffer_size at n)
                      (follows.place)
                  ∙ ap
                      (λ size.
                        contents rb ++ bytes_round rb.buffer size (dma_place s.remaining_cnt) n)
                      (follows.size),
              moved'.more,
              refl,
            )
    ]
