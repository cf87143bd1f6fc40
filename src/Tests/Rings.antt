-- ===== src/Tests/Rings.antt =====
-- The theorems on the ring buffers of application/usb_main.c at concrete inputs.
use cherry_link.Application.Ring.{
  Ring, RingBuffers, Serial, rt_get_linear_buffer, rt_update_read_index, rt_update_write_index,
  usart_cdc_rev,
}
use cherry_link.Application.Ring.Contents.{
  IsRing, Counts, Taken, filled, same_mirror, contents, bytes_round,
}
use cherry_link.Application.Ring.Reading.{rt_update_read_index-Taken}
use cherry_link.Application.Ring.Writing.{Moved, room, rt_update_write_index-Moved}
use cherry_link.Application.Ring.Following.{Follows, dma_place, usart_cdc_rev-Follows}
use cherry_link.Base.{◌-◌, ◌+◌, ◌≡◌, ◌++◌, refl, inl, inr, true, false, not, ◌==◌, arith}

-- The two lengths by the indices and the mirrors.
abbrev lengths : RingBuffers
lengths = record {
  rt_ringbuffer_data_len = filled;
  rt_ringbuffer_space_len = λ rb. rb.buffer_size - filled rb;
}

lengths-Counts : Counts lengths
lengths-Counts = record { filling = λ rb v. refl; space = λ rb v. refl }

-- Five bytes, two of them before the end of a buffer of eight.
abbrev five : Ring
five = record {
  buffer = λ i. i + 1;
  read_mirror = false;
  read_index = 6;
  write_mirror = true;
  write_index = 3;
  buffer_size = 8;
}

five-IsRing : IsRing five
unfolding same_mirror
five-IsRing = record {
  small = omega arith;
  read_within = omega arith;
  write_within = omega arith;
  ordered = inr (refl, omega arith);
}

rt_update_read_index-Taken_example :
    ((rt_update_read_index lengths 2 five).0 ≡ 2)
    × Taken five 2 (rt_update_read_index lengths 2 five).1
unfolding rt_get_linear_buffer filled same_mirror
rt_update_read_index-Taken_example =
    rt_update_read_index-Taken lengths five 2 lengths-Counts five-IsRing (omega arith)

-- Only three of these bytes fit.
rt_update_write_index-Moved_example :
    ((rt_update_write_index lengths 7 five).0 ≡ room five 7)
    × Moved five (room five 7) (rt_update_write_index lengths 7 five).1
rt_update_write_index-Moved_example =
    rt_update_write_index-Moved lengths five 7 lengths-Counts five-IsRing (omega arith)

-- There are 96 bytes to the end of the buffer, and 6 more arrive than that.
abbrev serial : Serial
serial = record {
  remaining_cnt = 96;
  rb_usart2usb = record {
    buffer = λ i. i;
    read_mirror = false;
    read_index = 3990;
    write_mirror = false;
    write_index = 4000;
    buffer_size = 4096;
  };
}

serial-Follows : Follows serial
unfolding same_mirror dma_place
serial-Follows = record {
  valid = record {
    small = omega arith;
    read_within = omega arith;
    write_within = omega arith;
    ordered = inl (refl, omega arith);
  };
  size = refl;
  counter = omega arith;
  place = refl;
}

usart_cdc_rev-Follows_example :
    let s' = (usart_cdc_rev lengths 4090 serial).1 in
    Follows s'
    × (contents s'.rb_usart2usb
        ≡ contents serial.rb_usart2usb ++ bytes_round (λ i. i) 4096 (dma_place 96) 102)
    × (filled s'.rb_usart2usb ≡ filled serial.rb_usart2usb + 102)
    × ((usart_cdc_rev lengths 4090 serial).0 ≡ not (102 == 0))
unfolding filled same_mirror dma_place
usart_cdc_rev-Follows_example =
    usart_cdc_rev-Follows lengths serial 4090 102 lengths-Counts serial-Follows (omega arith)
      (omega arith) (omega arith) refl (omega arith)
