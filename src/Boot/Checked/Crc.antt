-- ===== src/Boot/Checked/Crc.antt =====
-- The CRC over the pages of the application, as bootloader/usb_main.c has it computed.
use cherry_link.Base.{
  ℕ, zero, suc, ◌+◌, ◌*◌, ◌/◌, ◌≡◌, refl, ap, ◌∙◌, true, ==_iff, arith, u32, read_u32,
}
use cherry_link.Boot.Loader.{Loader, Chip, chip_app_start, crc_feed_all, crc_cal_data}
use cherry_link.Boot.Update.{crc_matches, crc_of_pages}
use cherry_link.Boot.Checked.{crc_fed}

module _ {W : Type 0} (chip : Chip W) where
  -- The last word comes after the others.
  feed_last :
      (addr n : ℕ) (w : W)
      → crc_feed_all chip addr (suc n) w ≡ (
          let w' = crc_feed_all chip addr n w in
          chip.crc_feed (chip.load (u32 (addr + 4 * n)) w') w')
  unfolding crc_feed_all
  feed_last addr zero w = let here : addr + 4 * 0 ≡ addr = omega arith in rw here refl
  feed_last addr (suc n) w =
      let place : addr + 4 * suc n ≡ addr + 4 + 4 * n = omega arith in
      rw place (feed_last (addr + 4) n (chip.crc_feed (chip.load (u32 addr) w) w))

  fed-eq :
      (n : ℕ) (w : W)
      → crc_feed_all chip (chip_app_start chip) n (chip.crc_reset w) ≡ crc_fed chip n w
  unfolding crc_feed_all crc_fed
  fed-eq zero w = refl
  fed-eq (suc n) w =
      feed_last (chip_app_start chip) n (chip.crc_reset w)
      ∙ ap (λ w'. chip.crc_feed (chip.load (u32 (chip_app_start chip + 4 * n)) w') w') (fed-eq n w)

  pub matches-crc_fed :
      (b : Loader W)
      → crc_matches chip b ≡ true
      → read_u32 b.rece.message_data 0
        ≡ chip.crc_value (crc_fed chip (64 * b.rece.header.value) b.world)
  unfolding crc_matches crc_of_pages crc_cal_data
  matches-crc_fed b e =
      let n = b.rece.header.value in
      let words : n * 256 / 4 ≡ 64 * n = omega arith in
      (==_iff (read_u32 b.rece.message_data 0) _).0 e
      ∙ ap
          (λ k. chip.crc_value (crc_feed_all chip (chip_app_start chip) k (chip.crc_reset b.world)))
          words
      ∙ ap chip.crc_value (fed-eq (64 * n) b.world)
