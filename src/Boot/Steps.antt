-- ===== src/Boot/Steps.antt =====
-- The steps of the boot loader: the callbacks of the USB stack and the rounds of the main loop.
use cherry_link.Base.{ℕ, ◌≡◌, true, false}
use cherry_link.Boot.Message.{Packet}
use cherry_link.Boot.Loader.{Loader, Chip, usb_transfer_start}
use cherry_link.Boot.Callbacks.{boot_out_callback, boot_in_callback}
use cherry_link.Boot.Update.{boot_update_main}

module _ {W : Type 0} (chip : Chip W) where
  -- A packet arrives only into a buffer that was given for it, and one is sent only if it was given
  -- to the USB stack. The host may connect at any time.
  pub data Step : Loader W → Loader W → Type 0 where
    received :
        (b : Loader W) (p : Packet) (nbytes : ℕ)
        → b.reading ≡ true
        → Step b (boot_out_callback nbytes (record b { rece = p; reading = false }))
    was_sent :
        (b : Loader W) (nbytes : ℕ)
        → b.writing ≡ true
        → Step b (boot_in_callback nbytes (record b { writing = false }))
    round : (b : Loader W) → Step b (boot_update_main chip b)
    connected : (b : Loader W) → Step b (usb_transfer_start b)

  -- What steps lead to that store nothing past `page_cur_buffer`: behind such a store C says nothing.
  pub data Reach (start : Loader W) : Loader W → Type 0 where
    here : Reach start start
    after : {b b' : Loader W} → Reach start b → Step b b' → b'.fault ≡ false → Reach start b'
