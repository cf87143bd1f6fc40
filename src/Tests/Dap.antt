-- ===== src/Tests/Dap.antt =====
-- The theorems on cmsis-dap/dap_main.c at concrete inputs.
use cherry_link.Base.{
  ltb, ℕ, ◌<◌, ◌≡◌, refl, true, false, some, write, ◌+◌, arith, ◌==◌, if◌then◌else◌, Memory,
  IsBytes,
}
use cherry_link.Dap.Driver.{Driver}
use cherry_link.Dap.Machine.{Machine}
use cherry_link.Dap.Chain.{dap_jtag_configure}
use cherry_link.Dap.Chain.Layout.{IsChain, Layout, dap_jtag_configure-Layout}
use cherry_link.Dap.Chain.Overrun.{dap_jtag_configure_overrun}
use cherry_link.Dap.SwdTransfer.{dap_swd_transfer}
use cherry_link.Dap.SwdTransfer.Count.{dap_swd_transfer-cnt}
use cherry_link.Dap.JtagTransfer.{dap_jtag_transfer}
use cherry_link.Dap.JtagTransfer.Count.{dap_jtag_transfer-cnt}
use cherry_link.Dap.Skip.{dap_dummy_transfer}
use cherry_link.Dap.Skip.Encoded.{encoded_one, encoded, dap_dummy_transfer-encoded}
use cherry_link.Dap.Handler.{dap_request_handler}
use cherry_link.Dap.Handler.Unknown.{is_among, commands, dap_request_handler-invalid}
use cherry_link.Dap.Handler.Advance.{BlocksFit}
use cherry_link.Tests.Target.{counting_target, info_at, probe}

-- `ID_DAP_Transfer` for device 0 with two transfers: a read of DP 4 and a read of an AP register.
abbrev two_reads : Memory
two_reads p =
    if p == 0 then 5 else if p == 2 then 2 else if p == 3 then 6 else if p == 4 then 0x0f else 0

two_reads-IsBytes : IsBytes two_reads
two_reads-IsBytes p = ground arith

two_reads-BlocksFit : BlocksFit two_reads
two_reads-BlocksFit p e = ground arith

-- the probe after it has read the byte of the command
abbrev after_command : ℕ → ℕ → Machine ℕ
after_command port count = record (probe port count) { req_ptr = 1; resp_ptr = 1 }

-- A target on which a poll says twice to go on, and then to stop.
abbrev polled_target : Driver ℕ
polled_target = record counting_target {
  get_cur_tick = λ w. w;
  wait_us_noblock = λ tick delay w. (ltb w (tick + 2), w + 1);
}

-- `ID_DAP_SWJ_Pins`: clock high, with up to 100 microseconds for the pin to follow
abbrev drive_clock : Memory
drive_clock p =
    if p == 0 then 0x10 else if p == 1 then 1 else if p == 2 then 1 else if p == 3 then 100 else 0

dap_swd_transfer-cnt_example :
    let m' = dap_swd_transfer counting_target two_reads (after_command 1 0) in
    (m'.transfer_cnt ≡ 2) × (m'.info.port ≡ 1) × (m'.info.count ≡ 0)
dap_swd_transfer-cnt_example =
    dap_swd_transfer-cnt counting_target two_reads (after_command 1 0) two_reads-IsBytes

dap_jtag_transfer-cnt_example :
    let r = dap_jtag_transfer counting_target two_reads (after_command 2 1) in
    (r.0 ≡ true) × (r.1.transfer_cnt ≡ 2) × (r.1.info.port ≡ 2) × (r.1.info.count ≡ 1)
dap_jtag_transfer-cnt_example =
    dap_jtag_transfer-cnt counting_target two_reads (after_command 2 1) two_reads-IsBytes
      (omega arith)

-- `ID_DAP_JTAG_Configure` for two devices with instruction registers of 4 and 5 bits
abbrev two_devices : Memory
two_devices p =
    if p == 0 then 0x15 else if p == 1 then 2 else if p == 2 then 4 else if p == 3 then 5 else 0

two_devices-IsBytes : IsBytes two_devices
two_devices-IsBytes p = ground arith

dap_jtag_configure-Layout_example :
    let m' = dap_jtag_configure two_devices (after_command 2 0) in
    ((k : ℕ) → k < 2 → Layout two_devices (after_command 2 0) m' k)
    × (m'.info.count ≡ 2)
    × (m'.fault ≡ false)
    × IsChain m'.info
dap_jtag_configure-Layout_example =
    dap_jtag_configure-Layout two_devices (after_command 2 0) two_devices-IsBytes
      (record { lengths = refl; befores = refl; afters = refl }) (omega arith) (omega arith)

-- `ID_DAP_JTAG_Configure` for six devices
abbrev six_devices : Memory
six_devices p = if p == 0 then 0x15 else if p == 1 then 6 else 4

dap_jtag_configure_overrun_example :
    (dap_jtag_configure six_devices (after_command 2 0)).fault ≡ true
dap_jtag_configure_overrun_example =
    dap_jtag_configure_overrun six_devices (after_command 2 0) (omega arith)

two_reads_length : encoded two_reads 3 2 ≡ 2
unfolding encoded encoded_one
two_reads_length = refl

dap_dummy_transfer-encoded_example :
    let m' = dap_dummy_transfer two_reads (after_command 0 0) in
    (m'.req_ptr ≡ 3 + encoded two_reads 3 2)
    × (m'.resp_ptr ≡ 3)
    × (m'.response 1 ≡ 0)
    × (m'.response 2 ≡ 0)
    × (m'.info ≡ info_at 0 0)
    × (m'.world ≡ 0)
dap_dummy_transfer-encoded_example =
    dap_dummy_transfer-encoded two_reads (after_command 0 0) (omega (arith, two_reads_length))
      (omega arith)

-- `ID_DAP_TransferAbort`, which is not for this handler
abbrev abort_packet : Memory
abort_packet p = if p == 0 then 7 else 0

dap_request_handler-invalid_example :
    dap_request_handler counting_target abort_packet 512 0 512 (probe 1 0)
    ≡ some (record (probe 1 0) {
      req_ptr = 1;
      resp_ptr = 1;
      response = write (write (λ i. 0) 0 7) 0 0xff;
    })
unfolding is_among commands
dap_request_handler-invalid_example =
    dap_request_handler-invalid counting_target abort_packet 512 0 512 (probe 1 0) (omega arith)
      refl refl

-- `ID_DAP_SWD_Configure` with a turnaround of three cycles
abbrev three_cycles : Memory
three_cycles p = if p == 0 then 0x13 else if p == 1 then 2 else 0

abbrev configured : Machine ℕ
configured = record (probe 1 0) {
  info = record (info_at 1 0) { turnaround = 3 };
  req_ptr = 2;
  resp_ptr = 2;
  response = write (write (λ i. 0) 0 0x13) 1 0;
}
