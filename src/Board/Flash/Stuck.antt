-- ===== src/Board/Flash/Stuck.antt =====
-- The time-outs of board/ch32f205_flash.c.
use cherry_link.Base.{
  ℕ, zero, suc, ◌+◌, ◌-◌, ◌*◌, ◌^◌, ◌≡◌, Bool, true, false, arith, has, u32, read_u32, Memory,
}
use cherry_link.Board.Flash.{
  Controller, wait_while, program_words, flash_erase_256byte, flash_program_256byte, erase_time_out,
  program_time_out,
}

module _ {W : Type 0} where
  wait_while-stuck :
      (busy : W → Bool × W)
      → ((w : W) → (busy w).0 ≡ true)
      → (timeout : ℕ) (w : W) → (wait_while busy timeout w).0 ≡ 2 ^ 32 - 1
  unfolding wait_while
  wait_while-stuck busy always zero w = ground (arith, always w)
  wait_while-stuck busy always (suc timeout) w =
      ground (arith, always w, wait_while-stuck busy always timeout (busy w).1)

  program_words-stuck :
      (c : Controller W)
      → ((w : W) → (c.wr_bsy w).0 ≡ true)
      → (buf : Memory) (addr size i timeout : ℕ) (w : W) → timeout ≡ 2 ^ 32 - 1
      → (program_words c buf addr size i timeout w).0 ≡ 2 ^ 32 - 1
  unfolding program_words
  program_words-stuck c always buf addr zero i timeout w e = e
  program_words-stuck c always buf addr (suc size) i timeout w e =
      let w1 = c.store (u32 (addr + 4 * i)) (read_u32 buf (4 * i)) w in
      let waited = wait_while-stuck c.wr_bsy always program_time_out w1 in
      let r = wait_while c.wr_bsy program_time_out w1 in
      ground (arith, waited, program_words-stuck c always buf addr size (i + 1) r.0 r.1 waited)

  -- The time-outs are never seen: with a controller that stays busy for good, an erase and a
  -- programming of a page whose address is accepted report success.
  pub flash_256byte-stuck :
      (c : Controller W)
      → ((w : W) → (c.bsy w).0 ≡ true)
      → ((w : W) → (c.wr_bsy w).0 ≡ true)
      → (addr : ℕ) (buf : Memory) (w : W) → has addr 0xffffff00 ≡ false
      → ((flash_erase_256byte c addr w).0 ≡ 0) × ((flash_program_256byte c addr buf w).0 ≡ 0)
  unfolding flash_erase_256byte flash_program_256byte
  flash_256byte-stuck c bsy wr_bsy addr buf w accepted =
      let erased =
        wait_while-stuck c.bsy bsy erase_time_out
          (c.ctlr_set 64 (c.set_addr addr (c.ctlr_set 0x20000 w))) in
      let w1 = c.ctlr_set 0x10000 w in
      let r1 = wait_while c.bsy program_time_out w1 in
      let r2 = wait_while c.wr_bsy program_time_out r1.1 in
      let first = wait_while-stuck c.bsy bsy program_time_out w1 in
      let second = wait_while-stuck c.wr_bsy wr_bsy program_time_out r1.1 in
      let r3 = program_words c buf addr 64 0 r2.0 r2.1 in
      let words = program_words-stuck c wr_bsy buf addr 64 0 r2.0 r2.1 second in
      let last = wait_while-stuck c.bsy bsy r3.0 (c.ctlr_set 0x200000 r3.1) in
      (ground (arith, erased), ground (arith, first, second, words, last))
