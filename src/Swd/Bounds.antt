-- ===== src/Swd/Bounds.antt =====
-- The ranges that the parameters of cmsis-dap/swd.c keep, over any sequence of calls.
use cherry_link.Base.{
  ℕ, ◌+◌, ◌^◌, ◌≤◌, ◌<◌, ◌≡◌, ◌∙◌, Bool, some, List, arith, Memory, shr, bit_and,
}
use cherry_link.Dap.Driver.{Reply}
use cherry_link.Swd.Bits.{
  dap_swd_seqout, dap_swd_seqin, write_io, read_io, seqin_bytes, seqin_rest, swd_write_io_quick,
  swd_write_io_slow, swd_read_io_quick, swd_read_io_slow,
}
use cherry_link.Swd.Control.{Line, dap_swd_init, dap_swd_deinit, dap_swd_config}
use cherry_link.Swd.Read.{dap_swd_read}
use cherry_link.Swd.Results.{Keeps, dap_swd_read-RepliesAs, dap_swd_write-RepliesAs}
use cherry_link.Swd.Write.{dap_swd_write}
use cherry_link.Wire.{Wire}

module _ {W : Type 0} where
  -- A turnaround of at most 14 clocks, at most 192 idle cycles, and so at most 206 clocks after the
  -- data of a transfer; the retries are a `uint16_t`.
  pub record IsBounded (l : Line W) : Type 0 where
    pub trn : l.control.trn ≤ 14
    pub idle : l.control.idle ≤ 192
    pub trailing : l.control.trn + l.control.idle ≤ 206
    pub retry_limit : l.control.retry_limit < 2 ^ 16

  Keeps-IsBounded : (l l' : Line W) → Keeps l.control l'.control → IsBounded l → IsBounded l'
  Keeps-IsBounded l l' k h = ground arith

  module _ (b : Wire W) where
    -- A call of the driver, with any arguments, that returns.
    pub data Step (l : Line W) : Line W → Type 0 where
      init : {l' : Line W} → l' ≡ dap_swd_init b l → Step l l'
      deinit : {l' : Line W} → l' ≡ dap_swd_deinit b l → Step l l'
      config :
          {l' : Line W} (khz retry idle trn : ℕ) (data_force : Bool)
          → l' ≡ dap_swd_config b khz retry idle trn data_force l
          → Step l l'
      read :
          {l' : Line W} (request : ℕ) (r : Reply (Line W))
          → dap_swd_read b request l ≡ some r
          → l' ≡ r.world
          → Step l l'
      write :
          {l' : Line W} (request word : ℕ) (r : Reply (Line W))
          → dap_swd_write b request word l ≡ some r
          → l' ≡ r.world
          → Step l l'
      seqout :
          {l' : Line W} (buffer : Memory) (bitlen : ℕ)
          → dap_swd_seqout b buffer bitlen l ≡ some l'
          → Step l l'
      seqin :
          {l' : Line W} (bitlen : ℕ) (bytes : List ℕ)
          → dap_swd_seqin b bitlen l ≡ some (bytes, l')
          → Step l l'

    -- What `dap_swd_init` and any calls after it lead to.
    pub data Reach : Line W → Type 0 where
      start : {l : Line W} (l0 : Line W) → l ≡ dap_swd_init b l0 → Reach l
      next : {l l' : Line W} → Reach l → Step l l' → Reach l'

    init-IsBounded : (l l' : Line W) → l' ≡ dap_swd_init b l → IsBounded l'
    unfolding dap_swd_init
    init-IsBounded l l' e = ground arith

    deinit-IsBounded : (l l' : Line W) → l' ≡ dap_swd_deinit b l → IsBounded l → IsBounded l'
    unfolding dap_swd_deinit
    deinit-IsBounded l l' e h = ground arith

    config-IsBounded :
        (l l' : Line W) (khz retry idle trn : ℕ) (data_force : Bool)
        → l' ≡ dap_swd_config b khz retry idle trn data_force l
        → IsBounded l'
    unfolding dap_swd_config
    config-IsBounded l l' khz retry idle trn data_force e = ground arith

    write_io-control :
        (byte bits : ℕ) (l l' : Line W) → write_io b byte bits l ≡ some l' → l'.control ≡ l.control
    unfolding write_io swd_write_io_quick swd_write_io_slow
    write_io-control byte bits l l' e = ground arith

    seqout-control :
        (l l' : Line W) (buffer : Memory) (bitlen : ℕ)
        → dap_swd_seqout b buffer bitlen l ≡ some l'
        → l'.control ≡ l.control
    unfolding dap_swd_seqout
    seqout-control l l' buffer bitlen e =
        ground
          (arith, λ (m : Line W). write_io-control (buffer (shr bitlen 3)) (bit_and bitlen 7) m l')

    read_io-control :
        (bits byte : ℕ) (l l' : Line W)
        → read_io b bits l ≡ some (byte, l')
        → l'.control ≡ l.control
    unfolding read_io swd_read_io_quick swd_read_io_slow
    read_io-control bits byte l l' e = ground arith

    seqin_bytes-control : (bytes : ℕ) (l : Line W) → (seqin_bytes b bytes l).1.control ≡ l.control
    unfolding seqin_bytes
    seqin_bytes-control bytes l = ground arith

    seqin_rest-control :
        (bits : ℕ) (received bytes : List ℕ) (l l' : Line W)
        → seqin_rest b bits received l ≡ some (bytes, l')
        → l'.control ≡ l.control
    unfolding seqin_rest
    seqin_rest-control bits received bytes l l' e =
        ground (arith, λ (byte : ℕ) (m : Line W). read_io-control bits byte l m)

    seqin-control :
        (l l' : Line W) (bitlen : ℕ) (bytes : List ℕ)
        → dap_swd_seqin b bitlen l ≡ some (bytes, l')
        → l'.control ≡ l.control
    unfolding dap_swd_seqin
    seqin-control l l' bitlen bytes e =
        seqin_rest-control (bit_and bitlen 7) (seqin_bytes b (shr bitlen 3) l).0 bytes _ l' e
        ∙ seqin_bytes-control (shr bitlen 3) l

    same-IsBounded : (l l' : Line W) → l'.control ≡ l.control → IsBounded l → IsBounded l'
    same-IsBounded l l' e h = ground arith

    Step-IsBounded : {l l' : Line W} → Step l l' → IsBounded l → IsBounded l'
    Step-IsBounded {l} {l'} (init e) h = init-IsBounded l l' e
    Step-IsBounded {l} {l'} (deinit e) h = deinit-IsBounded l l' e h
    Step-IsBounded {l} {l'} (config khz retry idle trn force e) h =
        config-IsBounded l l' khz retry idle trn force e
    Step-IsBounded {l} {l'} (read request r e w) h =
        rw w (Keeps-IsBounded l r.world (dap_swd_read-RepliesAs b request l r e).kept h)
    Step-IsBounded {l} {l'} (write request word r e w) h =
        rw w (Keeps-IsBounded l r.world (dap_swd_write-RepliesAs b request word l r e).kept h)
    Step-IsBounded {l} {l'} (seqout buffer bitlen e) h =
        same-IsBounded l l' (seqout-control l l' buffer bitlen e) h
    Step-IsBounded {l} {l'} (seqin bitlen bytes e) h =
        same-IsBounded l l' (seqin-control l l' bitlen bytes e) h

    -- After `dap_swd_init` and any sequence of calls that return, with any arguments: at most 14
    -- turnaround clocks, at most 192 idle cycles, at most 206 of both together, and a limit of
    -- retries that fits its 16 bits.
    pub Reach-IsBounded : {l : Line W} → Reach l → IsBounded l
    Reach-IsBounded {l} (start l0 e) = init-IsBounded l0 l e
    Reach-IsBounded (next r st) = Step-IsBounded st (Reach-IsBounded r)
