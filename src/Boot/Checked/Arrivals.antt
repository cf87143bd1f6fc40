-- ===== src/Boot/Checked/Arrivals.antt =====
-- The callbacks.
use Prim.Native.Nat.{min}
use cherry_link.Base.{
  ℕ, zero, suc, ◌+◌, ◌<◌, u16, ◌≡◌, refl, ap, ◌∙◌, Bool, true, false, not, ◌&&◌, ◌%◌, Bool-cases,
  inl, inr, ◌==◌, ==_iff, if◌then◌else◌, arith,
}
use cherry_link.Boot.Message.{Packet}
use cherry_link.Boot.Loader.{
  State, idle, send_page_size, send_reply, write_flash, crc_verification, send_wait, reve_wait,
  timeout, end, Loader, Chip,
}
use cherry_link.Boot.Callbacks.{
  copy_one, copy_data, take_data, ask_again, take_packet, boot_out_callback, sent, boot_in_callback,
}
use cherry_link.Boot.Checked.{
  is_busy, is_replying, is_writing, is_send_wait, is_end, Whole, IsSound, unchecked, kept, quiet,
  IsSound-if,
}

module _ {W : Type 0} (chip : Chip W) (start : Loader W) where
  end_is_busy : (s : State) → is_end s ≡ true → is_busy s ≡ true
  unfolding is_end is_busy
  end_is_busy end h = refl
  end_is_busy idle h = absurd (ground arith)
  end_is_busy send_page_size h = refl
  end_is_busy send_reply h = refl
  end_is_busy write_flash h = refl
  end_is_busy crc_verification h = refl
  end_is_busy send_wait h = absurd (ground arith)
  end_is_busy reve_wait h = absurd (ground arith)
  end_is_busy timeout h = absurd (ground arith)

  copy_data-rece : (n i : ℕ) (b : Loader W) → (copy_data n i b).rece ≡ b.rece
  unfolding copy_data
  copy_data-rece zero i b = refl
  copy_data-rece (suc n) i b = copy_data-rece n (i + 1) _

  copy_data-page_cur_point :
      (n i : ℕ) (b : Loader W)
      → b.page_cur_point < 65536
      → (copy_data n i b).page_cur_point ≡ u16 (b.page_cur_point + n)
  unfolding copy_data
  copy_data-page_cur_point zero i b small = omega arith
  copy_data-page_cur_point (suc n) i b small =
      omega (arith, copy_data-page_cur_point n (i + 1) (copy_one i b) (omega arith))

  copy_data-reading : (n i : ℕ) (b : Loader W) → (copy_data n i b).reading ≡ b.reading
  unfolding copy_data
  copy_data-reading zero i b = refl
  copy_data-reading (suc n) i b = copy_data-reading n (i + 1) _

  -- A reply to a data packet stands ready, while no packet can arrive.
  replies :
      (b : Loader W)
      → b.reading ≡ false
      → b.send.type ≡ 0x20
      → is_end b.state ≡ false
      → is_send_wait b.state ≡ false
      → (is_writing b.state ≡ true → Whole b)
      → IsSound chip start b
  replies b still reply not_end not_waiting whole =
      unchecked chip start b (λ _. still) (λ _. reply) not_end (λ h t. ground arith) whole

  -- The first packet of a page.
  take_data-IsSound :
      (nbytes : ℕ) (b : Loader W)
      → b.reading ≡ false
      → b.rece.header.request.page_index_start ≡ true
      → IsSound chip start (take_data nbytes b)
  unfolding take_data is_end is_send_wait is_writing
  take_data-IsSound nbytes b still first =
      let h = b.rece.header in
      let n = min nbytes h.length in
      let b1 = record b { page_cur_point = 0; page_cur_page = h.value; page_cur_index = h.index } in
      let b2 = copy_data n 0 b1 in
      let same = copy_data-reading n 0 b1 ∙ still in
      let rece = copy_data-rece n 0 b1 in
      let point = copy_data-page_cur_point n 0 b1 (omega arith) in
      IsSound-if chip start h.request.page_index_end _ _
        (λ last.
          IsSound-if chip start (b2.page_cur_point == 256) _ _
            (λ full. replies _ same refl refl refl λ _. record {
              first = ap (λ p. p.header.request.page_index_start) rece ∙ first;
              last = ap (λ p. p.header.request.page_index_end) rece ∙ last;
              enough =
                  let all = (==_iff _ _).0 full in
                  omega (arith, ap (λ p. p.header.length) rece, point, all);
            })
            (λ _. replies _ same refl refl refl (λ w. absurd (ground arith))))
        (λ _. replies _ same refl refl refl (λ w. absurd (ground arith)))

  take_packet-IsSound :
      (nbytes : ℕ) (b : Loader W)
      → b.state ≡ reve_wait
      → b.reading ≡ false
      → IsSound chip start (take_packet nbytes b)
  unfolding take_packet ask_again is_end is_send_wait is_busy is_replying is_writing
  take_packet-IsSound nbytes b e still =
      let h = b.rece.header in
      IsSound-if chip start (h.type == 0x21) _ _
        (λ _.
          IsSound-if chip start h.request.page_num_end _ _
            (λ _.
              unchecked chip start _ (λ _. still) (λ w. absurd (ground arith)) refl
                (λ w t. absurd (ground arith)) (λ w. absurd (ground arith)))
            (λ _.
              IsSound-if chip start h.request.page_index_start _ _
                (λ first. take_data-IsSound nbytes b still first)
                (λ _. replies _ still refl refl refl (λ w. absurd (ground arith)))))
        (λ _.
          IsSound-if chip start (h.type == 0x11) _ _
            (λ _.
              unchecked chip start _ (λ _. still) (λ w. absurd (ground arith)) refl
                (λ w t. absurd (ground arith)) (λ w. absurd (ground arith)))
            (λ _.
              quiet chip start b (ap is_busy e) (ap is_replying e) (ap is_send_wait e)
                (ap is_end e)))

  writing_is_busy : (s : State) → is_writing s ≡ true → is_busy s ≡ true
  unfolding is_writing is_busy
  writing_is_busy write_flash h = refl
  writing_is_busy s h = absurd (ground arith)

  -- A packet that arrives in a state that does not wait for one is lost.
  lost :
      (b : Loader W) (p : Packet)
      → b.reading ≡ true
      → IsSound chip start b
      → IsSound chip start (record b { rece = p; reading = false })
  lost b p q i =
      unchecked chip start _ (λ _. refl) i.replying
        (elim (Bool-cases (is_end b.state)) [
          | inl e ↦ absurd (let still = i.busy (end_is_busy b.state e) in ground arith)
          | inr e ↦ e
        ])
        (λ h t. let still = i.waiting h t in ground arith)
        (λ h. absurd (let still = i.busy (writing_is_busy b.state h) in ground arith))

  pub received-IsSound :
      (nbytes : ℕ) (b : Loader W) (p : Packet)
      → b.reading ≡ true
      → IsSound chip start b
      → IsSound chip start (boot_out_callback nbytes (record b { rece = p; reading = false }))
  unfolding boot_out_callback
  received-IsSound nbytes b p q i = split b.state refl
    where
      b' : Loader W
      b' = record b { rece = p; reading = false }

      split :
          (s : State)
          → b.state ≡ s
          → IsSound chip start (elim s [ reve_wait ↦ take_packet nbytes b' | _ ↦ b' ])
      split reve_wait e = take_packet-IsSound nbytes b' e refl
      split idle e = lost b p q i
      split send_page_size e = lost b p q i
      split send_reply e = lost b p q i
      split write_flash e = lost b p q i
      split crc_verification e = lost b p q i
      split send_wait e = lost b p q i
      split timeout e = lost b p q i
      split end e = lost b p q i

  sent-IsSound :
      (b : Loader W) → b.state ≡ send_wait → IsSound chip start b → IsSound chip start (sent b)
  unfolding sent is_end is_send_wait is_busy is_replying is_writing
  sent-IsSound b e i =
      IsSound-if chip start (b.send.type == 0x30) _ _
        (λ crc. ends b.send.request.crc_unmatched refl ((==_iff _ _).0 crc))
        (λ _. quiet chip start _ refl refl refl refl)
    where
      ends :
          (u : Bool)
          → b.send.request.crc_unmatched ≡ u
          → b.send.type ≡ 0x30
          → IsSound chip start (record b { state = if u then timeout else end })
      ends true u t = quiet chip start _ refl refl refl refl
      ends false u t =
          let p = i.passed (ap is_send_wait e) t u in
          record {
            busy = λ _. i.waiting (ap is_send_wait e) t;
            replying = λ h. absurd (ground arith);
            waiting = λ h. absurd (ground arith);
            passed = λ h. absurd (ground arith);
            whole = λ h. absurd (ground arith);
            ended = λ h. record {
              earlier = p.earlier;
              reached = p.reached;
              checking = p.checking;
              same = p.same;
              matches = p.matches;
            };
          }

  pub was_sent-IsSound :
      (nbytes : ℕ) (b : Loader W)
      → IsSound chip start b
      → IsSound chip start (boot_in_callback nbytes (record b { writing = false }))
  unfolding boot_in_callback
  was_sent-IsSound nbytes b i =
      IsSound-if chip start ((nbytes % 512 == 0) && not (nbytes == 0)) _ _
        (λ _. kept chip start b _ refl refl refl refl i) (λ _. split b.state refl)
    where
      b' : Loader W
      b' = record b { writing = false }

      same : IsSound chip start b'
      same = kept chip start b b' refl refl refl refl i

      split :
          (s : State) → b.state ≡ s → IsSound chip start (elim s [ send_wait ↦ sent b' | _ ↦ b' ])
      split send_wait e = sent-IsSound b' e same
      split idle e = same
      split send_page_size e = same
      split send_reply e = same
      split write_flash e = same
      split crc_verification e = same
      split reve_wait e = same
      split timeout e = same
      split end e = same
