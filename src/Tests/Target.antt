-- ===== src/Tests/Target.antt =====
-- A target and a probe to run the code against: `W` counts the words that were read.
use cherry_link.Base.{ℕ, suc, ◌%◌, ◌^◌, false, none, some, [], ◌∷◌}
use cherry_link.Dap.Driver.{Driver, Reply}
use cherry_link.Dap.Machine.{Info, Machine}

-- It acknowledges every access, and its n-th read gives the word n.
abbrev pub read_next : ℕ → Reply ℕ
read_next w = record { ack = 1; word = some (w % 2 ^ 32); world = suc w }

abbrev pub accept_write : ℕ → Reply ℕ
accept_write w = record { ack = 1; word = none; world = w }

abbrev pub counting_target : Driver ℕ
counting_target = record {
  swd_init = λ w. w;
  swd_deinit = λ w. w;
  swd_io_reconfig = λ w. w;
  swd_config = λ speed retries idle turnaround phase w. w;
  swd_read = λ q w. read_next w;
  swd_write = λ q v w. accept_write w;
  swd_seqout = λ p bits w. w;
  swd_seqin = λ bits w. ([], w);
  swd_get_timestamp = λ w. w;
  jtag_init = λ w. w;
  jtag_deinit = λ w. w;
  jtag_io_reconfig = λ w. w;
  jtag_config = λ speed retries idle w. w;
  jtag_raw = λ bits tms tdi tdo w. (tdi, w);
  jtag_ir = λ ir length before after w. w;
  jtag_dr = λ q v before after w. read_next w;
  jtag_get_timestamp = λ w. w;
  set_mode = λ p mode w. w;
  set_pin = λ p b w. w;
  get_pin = λ p w. 0;
  set_light = λ l b w. w;
  gpio_init = λ w. w;
  timestamp_init = λ w. w;
  us_delay = λ n w. w;
  get_cur_tick = λ w. w;
  wait_us_noblock = λ tick delay w. (false, w);
  set_backup_data = λ v w. w;
  get_backup_data = λ w. 0;
  abort_requested = λ w. false;
}

abbrev pub info_at : ℕ → ℕ → Info
info_at port count = record {
  port = port;
  do_abort = false;
  port_io_need_reconfig = false;
  speed_khz = 4500;
  idle_cycles = 0;
  retry_count = 255;
  match_retry = 0;
  match_mask = 0;
  turnaround = 1;
  data_phase = 0;
  count = count;
  index = 0;
  ir_length = 4 ∷ 0 ∷ 0 ∷ 0 ∷ [];
  ir_before = 0 ∷ 0 ∷ 0 ∷ 0 ∷ [];
  ir_after = 0 ∷ 0 ∷ 0 ∷ 0 ∷ [];
  buf_tdi = 0;
  buf_tms = 0;
  buf_tdo = 0;
}

-- A probe with the port and the number of JTAG devices given.
abbrev pub probe : ℕ → ℕ → Machine ℕ
probe port count = record {
  info = info_at port count;
  req_ptr = 0;
  resp_ptr = 0;
  transfer_cnt = 0;
  transfer_ack = 0;
  response = λ i. 0;
  update_flag = 0;
  fault = false;
  hung = false;
  reset = false;
  world = 0;
}
