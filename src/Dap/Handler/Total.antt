-- ===== src/Dap/Handler/Total.antt =====
-- The loop of `dap_request_handler` ends.
use cherry_link.Dap.Driver.{Driver}
use cherry_link.Dap.Machine.{Machine}
