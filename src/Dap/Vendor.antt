-- ===== src/Dap/Vendor.antt =====
-- cmsis-dap/dap_vendor.c, with `BACK_UP_DATA` of board/ch32f205_backup.h.
use cherry_link.Base.{ℕ, ◌+◌, true, ◌&&◌, ◌==◌, if◌then◌else◌, u8, shr, Memory, write}
use cherry_link.Dap.Driver.{Driver}
use cherry_link.Dap.Machine.{Machine, touch}
use cherry_link.Dap.Codes.{dap_ok, dap_error}

abbrev pub back_up_data : ℕ
back_up_data = 0x1257

-- `*response = v`
abbrev pub answer : {W : Type 0} → ℕ → Machine W → Machine W
answer v m = record m { response = write m.response m.resp_ptr v }

-- `dap_vendor_request_handler`, with the counts of bytes read and answered that its result packs
-- into one word. Its pointers are those of the machine.
unfoldable pub dap_vendor_request_handler :
    {W : Type 0}
    → Driver W
    → Memory
    → ℕ
    → Machine W
    → record { read : ℕ; answered : ℕ; machine : Machine W }
dap_vendor_request_handler d request cmd_id m =
    if cmd_id == 0x80
    then (let matches =
          (request m.req_ptr == u8 back_up_data)
          && (request (m.req_ptr + 1) == u8 (shr back_up_data 8)) in
        record {
          read = 2;
          answered = 1;
          machine =
              if matches
              then answer dap_ok (record m { update_flag = 1 })
              else answer dap_error (record m { update_flag = 0 });
        })
    else if cmd_id == 0x81
    then (let m1 = touch (d.set_backup_data back_up_data) m in
        record {
          read = 0;
          answered = 1;
          machine =
              if m.update_flag == 1
              then (if d.get_backup_data m1.world == back_up_data
                  then record m1 { reset = true }
                  else answer dap_error m1)
              else answer dap_error m;
        })
    else record { read = 0; answered = 0; machine = m }
