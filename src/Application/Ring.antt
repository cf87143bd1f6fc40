-- ===== src/Application/Ring.antt =====
-- The ring buffers between USB and the serial port in application/usb_main.c: the functions that
-- work on the fields of `struct rt_ringbuffer`, and the thread that follows the DMA.
pub mod Contents
pub mod Reading
pub mod Writing
pub mod Following
use cherry_link.Base.{
  ℕ, zero, suc, ◌+◌, ◌-◌, ◌*◌, ◌^◌, ◌<◌, ◌≤◌, ◌≡◌, ◌⊎◌, Bool, true, false, not, if◌then◌else◌,
  Option, none, some, List, [], ◌∷◌, ltb, leb, ◌==◌, u16, u32, Memory,
}

pub record Ring : Type 0 where
  pub buffer : Memory
  pub read_mirror : Bool
  pub read_index : ℕ
  pub write_mirror : Bool
  pub write_index : ℕ
  pub buffer_size : ℕ

-- What RT-Thread's `ringbuffer.h` gives, as far as this file calls it.
pub record RingBuffers : Type 0 where
  pub rt_ringbuffer_data_len : Ring → ℕ
  pub rt_ringbuffer_space_len : Ring → ℕ

-- `rt_get_linear_buffer`: where the block begins, if there is one, and its size
unfoldable pub rt_get_linear_buffer : RingBuffers → Ring → Option ℕ × ℕ
rt_get_linear_buffer lib rb =
    let size = lib.rt_ringbuffer_data_len rb in
    if size == 0
    then (none, 0)
    else if ltb size (rb.buffer_size - rb.read_index)
    then (some (rb.read_index), size)
    else (some (rb.read_index), rb.buffer_size - rb.read_index)

-- `rt_update_read_index`; the size is a `rt_uint16_t`
unfoldable pub rt_update_read_index : RingBuffers → ℕ → Ring → ℕ × Ring
rt_update_read_index lib read_size rb =
    let size = lib.rt_ringbuffer_data_len rb in
    let n = if ltb size (u16 read_size) then u16 size else u16 read_size in
    if size == 0
    then (0, rb)
    else if ltb n (rb.buffer_size - rb.read_index)
    then (n, record rb { read_index = rb.read_index + n })
    else (
      u16 (rb.buffer_size - rb.read_index),
      record rb { read_mirror = not rb.read_mirror; read_index = 0 },
    )

-- `rt_update_write_index`
unfoldable pub rt_update_write_index : RingBuffers → ℕ → Ring → ℕ × Ring
rt_update_write_index lib write_size rb =
    let size = u16 (lib.rt_ringbuffer_space_len rb) in
    let n = if ltb size (u16 write_size) then size else u16 write_size in
    if ltb n (rb.buffer_size - rb.write_index)
    then (n, record rb { write_index = rb.write_index + n })
    else (
      n,
      record rb {
        write_mirror = not rb.write_mirror;
        write_index = n - (rb.buffer_size - rb.write_index);
      },
    )

-- `remaining_cnt` and `rb_usart2usb` of `usart_cdc_info`.
pub record Serial : Type 0 where
  pub remaining_cnt : ℕ
  pub rb_usart2usb : Ring

-- `USART2USB_RINGBUFFER_SIZE`
abbrev pub usart2usb_ringbuffer_size : ℕ
usart2usb_ringbuffer_size = 4096

-- The body of `usart_cdc_rev_thread` after the semaphore, for what the counter of the DMA is, and
-- whether it releases `usart_empty_sem`.
unfoldable pub usart_cdc_rev : RingBuffers → ℕ → Serial → Bool × Serial
unfolding rt_update_write_index
usart_cdc_rev lib counter s =
    let recv_len =
      if leb counter s.remaining_cnt
      then s.remaining_cnt - counter
      else u32 (2 ^ 32 + usart2usb_ringbuffer_size + s.remaining_cnt - counter) in
    if recv_len == 0 then (false, s) else (
      true,
      record {
        remaining_cnt = counter;
        rb_usart2usb = (rt_update_write_index lib recv_len s.rb_usart2usb).1;
      },
    )
