-- ===== src/Board/Flash.antt =====
-- board/ch32f205_flash.c: the erase and the programming of a page.
pub mod Reject
pub mod Stuck
use cherry_link.Base.{
  ℕ, zero, suc, ◌+◌, ◌-◌, ◌*◌, ◌%◌, ◌^◌, Bool, true, false, bit_and, ◌==◌, if◌then◌else◌, u32, has,
  Memory, read_u32,
}

-- The registers of the flash controller and the memory behind it: `ctlr_set` and `ctlr_clear` are
-- `FLASH->CTLR |= …` and `FLASH->CTLR &= ~…`, `bsy` and `wr_bsy` a read of a bit of `FLASH->STATR`,
-- and `store` a store to an address of the flash.
pub record Controller (W : Type 0) : Type 0 where
  pub ctlr_set : ℕ → W → W
  pub ctlr_clear : ℕ → W → W
  pub set_addr : ℕ → W → W
  pub set_key : ℕ → W → W
  pub set_mode_key : ℕ → W → W
  pub bsy : W → Bool × W
  pub wr_bsy : W → Bool × W
  pub store : ℕ → ℕ → W → W

abbrev pub erase_time_out : ℕ
erase_time_out = 0x000b0000

abbrev pub program_time_out : ℕ
program_time_out = 0x00005000

-- `FLASH_CTLR_*`
abbrev pub ctlr_page_pg : ℕ
ctlr_page_pg = 0x10000

abbrev pub ctlr_page_er : ℕ
ctlr_page_er = 0x20000

abbrev pub ctlr_strt : ℕ
ctlr_strt = 0x40

abbrev pub ctlr_pg_strt : ℕ
ctlr_pg_strt = 0x200000

abbrev pub ctlr_lock : ℕ
ctlr_lock = 0x80

abbrev pub ctlr_fast_lock : ℕ
ctlr_fast_lock = 0x8000

abbrev pub flash_key1 : ℕ
flash_key1 = 0x45670123

abbrev pub flash_key2 : ℕ
flash_key2 = 0xcdef89ab

module _ {W : Type 0} where
  -- `while (busy && (timeout--));`, with what `timeout` is after it: the `uint32_t` wraps when the
  -- loop ends for want of time.
  unfoldable pub wait_while : (W → Bool × W) → ℕ → W → ℕ × W
  wait_while busy zero w = let (b, w') = busy w in (if b then 2 ^ 32 - 1 else 0, w')
  wait_while busy (suc timeout) w =
      let (b, w') = busy w in
      let rest = wait_while busy timeout w' in if b then rest else (suc timeout, w')

module _ {W : Type 0} (c : Controller W) where
  open c use {ctlr_set, ctlr_clear, set_addr, set_key, set_mode_key, bsy, wr_bsy, store}

  abbrev pub flash_lock : W → W
  flash_lock w = ctlr_set ctlr_lock (ctlr_set ctlr_fast_lock w)

  abbrev pub flash_unlock : W → W
  flash_unlock w =
      set_mode_key flash_key2 (set_mode_key flash_key1 (set_key flash_key2 (set_key flash_key1 w)))

  -- The words of the page, from number `i` on with `size` to go; the last `timeout`, or zero.
  unfoldable pub program_words : Memory → ℕ → ℕ → ℕ → ℕ → W → ℕ × W
  program_words buf addr zero i timeout w = (timeout, w)
  program_words buf addr (suc size) i timeout w =
      let (timeout', w') =
        wait_while wr_bsy program_time_out (store (u32 (addr + 4 * i)) (read_u32 buf (4 * i)) w) in
      let rest = program_words buf addr size (i + 1) timeout' w' in
      if timeout' == 0 then (0, w') else rest

  -- The result is 0 or 1, as in C.
  unfoldable pub flash_program_256byte : ℕ → Memory → W → ℕ × W
  flash_program_256byte addr buf w =
      if has addr 0xffffff00
      then (1, w)
      else (let (timeout1, w1) = wait_while bsy program_time_out (ctlr_set ctlr_page_pg w) in
          if timeout1 == 0
          then (1, w1)
          else (let (timeout2, w2) = wait_while wr_bsy program_time_out w1 in
              if timeout2 == 0
              then (1, w2)
              else (let (timeout3, w3) = program_words buf addr 64 0 timeout2 w2 in
                  if timeout3 == 0
                  then (1, w3)
                  else (let (timeout4, w4) = wait_while bsy timeout3 (ctlr_set ctlr_pg_strt w3) in
                      if timeout4 == 0 then (1, w4) else (0, ctlr_clear ctlr_page_pg w4)))))

  unfoldable pub flash_erase_256byte : ℕ → W → ℕ × W
  flash_erase_256byte addr w =
      if has addr 0xffffff00
      then (1, w)
      else (let w1 = ctlr_set ctlr_strt (set_addr addr (ctlr_set ctlr_page_er w)) in
          let (timeout, w2) = wait_while bsy erase_time_out w1 in
          if timeout == 0 then (1, w2) else (0, ctlr_clear ctlr_page_er w2))
