-- ===== src/Boot/Checked.antt =====
-- An update ends only after the check of its CRC, and a page is written only as a whole.
pub mod Crc
pub mod Rounds
pub mod Arrivals
pub mod Ends
use Prim.Native.Nat.{min}
use cherry_link.Base.{
  read_u32, ℕ, zero, suc, ◌+◌, ◌≤◌, ◌<◌, ◌≡◌, refl, ap, ◌∙◌, Bool, true, false, not, ◌&&◌, ◌||◌,
  ◌*◌, ◌%◌, ◌^◌, u32, Bool-cases, inl, inr, ◌==◌, ==_iff, if◌then◌else◌, arith,
}
use cherry_link.Boot.Message.{Packet, Header, Flags}
use cherry_link.Boot.Loader.{
  State, idle, send_page_size, send_reply, write_flash, crc_verification, send_wait, reve_wait,
  timeout, end, Wait, wait_forever, wait_for, Loader, Chip, usb_transfer_start, usb_data_init,
  chip_app_start,
}
use cherry_link.Boot.Callbacks.{
  copy_data, take_data, ask_again, take_packet, boot_out_callback, sent, boot_in_callback,
}
use cherry_link.Boot.Update.{
  write_page, verify_crc, tell_page_size, wait_round, update_in, boot_update_main, crc_matches,
  send_now, retry,
}
use cherry_link.Board.Flash.{flash_erase_256byte, flash_program_256byte}
use cherry_link.Boot.Steps.{Step, received, was_sent, round, connected, Reach, here, after}

-- the states in which no packet can arrive
unfoldable pub is_busy : State → Bool
is_busy s = elim s [
  | send_page_size ↦ true
  | send_reply ↦ true
  | write_flash ↦ true
  | crc_verification ↦ true
  | end ↦ true
  | _ ↦ false
]

-- the states in which the answer to a data packet stands ready
unfoldable pub is_replying : State → Bool
is_replying s = elim s [ send_reply ↦ true | write_flash ↦ true | _ ↦ false ]

unfoldable pub is_writing : State → Bool
is_writing s = elim s [ write_flash ↦ true | _ ↦ false ]

unfoldable pub is_send_wait : State → Bool
is_send_wait s = elim s [ send_wait ↦ true | _ ↦ false ]

unfoldable pub is_end : State → Bool
is_end s = elim s [ end ↦ true | _ ↦ false ]

-- The last packet holds a page as a whole.
pub record Whole {W : Type 0} (b : Loader W) : Type 0 where
  pub first : b.rece.header.request.page_index_start ≡ true
  pub last : b.rece.header.request.page_index_end ≡ true
  pub enough : 256 ≤ b.rece.header.length

writing_is_replying : (s : State) → is_replying s ≡ false → is_writing s ≡ false
unfolding is_writing is_replying
writing_is_replying write_flash h = absurd (ground arith)
writing_is_replying s h = refl

module _ {W : Type 0} (chip : Chip W) where
  -- The CRC unit after a reset and the first `n` words of the application.
  pub crc_fed : ℕ → W → W
  crc_fed zero w = chip.crc_reset w
  crc_fed (suc n) w =
      let w' = crc_fed n w in
      chip.crc_feed (chip.load (u32 (0x08000000 + chip.boot_size + 4 * n)) w') w'

module _ {W : Type 0} (chip : Chip W) (start : Loader W) where
  -- Before, with the same last packet, the loader stood in the state of the CRC check, and the
  -- CRC of the pages in the flash, of 64 words each, was that of the packet.
  pub record Passed (b : Loader W) : Type 0 where
    pub earlier : Loader W
    pub reached : Reach chip start earlier
    pub checking : earlier.state ≡ crc_verification
    pub same : b.rece ≡ earlier.rece
    pub matches :
        read_u32 earlier.rece.message_data 0
        ≡ chip.crc_value (crc_fed chip (64 * earlier.rece.header.value) earlier.world)

  -- What holds in every state that is reached.
  pub record IsSound (b : Loader W) : Type 0 where
    pub busy : is_busy b.state ≡ true → b.reading ≡ false
    pub replying : is_replying b.state ≡ true → b.send.type ≡ 0x20
    pub waiting : is_send_wait b.state ≡ true → b.send.type ≡ 0x30 → b.reading ≡ false
    pub passed :
        is_send_wait b.state ≡ true
        → b.send.type ≡ 0x30
        → b.send.request.crc_unmatched ≡ false
        → Passed b
    pub ended : is_end b.state ≡ true → Passed b
    pub whole : is_writing b.state ≡ true → Whole b

  -- In a state in which no check has passed, less is enough.
  pub unchecked :
      (b : Loader W)
      → (is_busy b.state ≡ true → b.reading ≡ false)
      → (is_replying b.state ≡ true → b.send.type ≡ 0x20)
      → is_end b.state ≡ false
      → (is_send_wait b.state ≡ true → b.send.type ≡ 0x30 → ⊥)
      → (is_writing b.state ≡ true → Whole b)
      → IsSound b
  unchecked b busy replying not_end no_crc whole = record {
    whole = whole;
    busy = busy;
    replying = replying;
    waiting = λ s e. absurd (no_crc s e);
    passed = λ s e u. absurd (no_crc s e);
    ended = λ e. absurd (ground arith);
  }

  -- The same states of a loader that differs elsewhere only: nothing else is asked about.
  pub kept :
      (b b' : Loader W)
      → b'.state ≡ b.state
      → b'.reading ≡ b.reading
      → b'.send ≡ b.send
      → b'.rece ≡ b.rece
      → IsSound b
      → IsSound b'
  kept b b' state reading send rece i =
      let again : Passed b → Passed b' = λ p. record {
        earlier = p.earlier;
        reached = p.reached;
        checking = p.checking;
        same = rece ∙ p.same;
        matches = p.matches;
      } in
      record {
        busy = λ h. ground (arith, i.busy);
        replying = λ h. ground (arith, i.replying);
        waiting = λ h t. ground (arith, i.waiting);
        passed = λ h t u. again (i.passed (rw state at h) (rw send at t) (rw send at u));
        ended = λ h. again (i.ended (rw state at h));
        whole = λ h.
            let w = i.whole (rw state at h) in
            record {
              first = ap (λ p. p.header.request.page_index_start) rece ∙ w.first;
              last = ap (λ p. p.header.request.page_index_end) rece ∙ w.last;
              enough = omega (arith, ap (λ p. p.header.length) rece, w.enough);
            };
      }

  -- Of the states that are not named above, nothing is asked.
  pub quiet :
      (b : Loader W)
      → is_busy b.state ≡ false
      → is_replying b.state ≡ false
      → is_send_wait b.state ≡ false
      → is_end b.state ≡ false
      → IsSound b
  quiet b busy replying waiting ended =
      unchecked b (λ h. absurd (ground arith)) (λ h. absurd (ground arith)) ended
        (λ h t. absurd (ground arith))
        (λ h. absurd (let not_writing = writing_is_replying b.state replying in ground arith))

  pub IsSound-if :
      (c : Bool) (x y : Loader W)
      → (c ≡ true → IsSound x)
      → (c ≡ false → IsSound y)
      → IsSound (if c then x else y)
  IsSound-if true x y i j = i refl
  IsSound-if false x y i j = j refl

  -- What is sent is not the result of a check.
  pub no_check : (b : Loader W) → b.state ≡ send_wait → ¬ (b.send.type ≡ 0x30) → IsSound b
  unfolding is_busy is_replying is_send_wait is_end is_writing
  no_check b e other =
      unchecked b (λ h. absurd (ground arith)) (λ h. absurd (ground arith)) (ground arith)
        (λ h t. other t) (λ h. absurd (ground arith))
