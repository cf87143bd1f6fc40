-- ===== src/Tests/Board.antt =====
-- The theorems on board/ch32f205_flash.c at concrete inputs.
use cherry_link.Base.{ℕ, ◌+◌, ◌≡◌, refl, true, arith, Memory}
use cherry_link.Board.Flash.{Controller, flash_erase_256byte, flash_program_256byte}
use cherry_link.Board.Flash.Reject.{flash_256byte_rejects}
use cherry_link.Board.Flash.Stuck.{flash_256byte-stuck}

-- a controller that never gets ready; the world counts the stores
abbrev stuck_controller : Controller ℕ
stuck_controller = record {
  ctlr_set = λ bits w. w;
  ctlr_clear = λ bits w. w;
  set_addr = λ addr w. w;
  set_key = λ key w. w;
  set_mode_key = λ key w. w;
  bsy = λ w. (true, w);
  wr_bsy = λ w. (true, w);
  store = λ addr v w. w + 1;
}

abbrev some_page : Memory
some_page i = 0x55

flash_256byte_rejects_example :
    (flash_erase_256byte stuck_controller 0x08005000 0 ≡ (1, 0))
    × (flash_program_256byte stuck_controller 0x08005000 some_page 0 ≡ (1, 0))
flash_256byte_rejects_example =
    flash_256byte_rejects stuck_controller 0x08005000 some_page 0 (omega arith) (omega arith)

flash_256byte-stuck_example :
    ((flash_erase_256byte stuck_controller 0 0).0 ≡ 0)
    × ((flash_program_256byte stuck_controller 0 some_page 0).0 ≡ 0)
flash_256byte-stuck_example =
    flash_256byte-stuck stuck_controller (λ w. refl) (λ w. refl) 0 some_page 0 refl
