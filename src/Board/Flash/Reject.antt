-- ===== src/Board/Flash/Reject.antt =====
-- The addresses that board/ch32f205_flash.c accepts.
use cherry_link.Bits.{bit_and-pages}
use cherry_link.Base.{ℕ, ◌^◌, ◌≤◌, ◌<◌, ◌≡◌, refl, true, arith, has, Memory}
use cherry_link.Board.Flash.{Controller, flash_erase_256byte, flash_program_256byte}

-- No address from 256 on is accepted: for each below 2 ^ 32 the erase and the programming of the
-- page report an error and leave the controller and the flash as they are.
pub flash_256byte_rejects :
    {W : Type 0} (c : Controller W) (addr : ℕ) (buf : Memory) (w : W)
    → 256 ≤ addr
    → addr < 2 ^ 32
    → (flash_erase_256byte c addr w ≡ (1, w)) × (flash_program_256byte c addr buf w ≡ (1, w))
unfolding flash_erase_256byte flash_program_256byte
flash_256byte_rejects c addr buf w low high =
    let refused : has addr 0xffffff00 ≡ true = ground (arith, bit_and-pages addr high) in
    rw refused (refl, refl)
