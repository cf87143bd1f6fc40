-- ===== src/Dap/Skip/Laws.antt =====
-- Skipping transfers moves the request index and counts; it touches nothing else.
use cherry_link.Base.{ℕ, zero, suc, ◌+◌, ◌<◌, ◌≡◌, arith, u16, Memory}
use cherry_link.Dap.Machine.{Machine}
use cherry_link.Dap.Skip.{skip_request, skip_rounds}

pub record Skipped {W : Type 0} (n : ℕ) (m m' : Machine W) : Type 0 where
  pub cnt : m'.transfer_cnt ≡ m.transfer_cnt + n
  pub same : m' ≡ record m { transfer_cnt = m'.transfer_cnt; req_ptr = m'.req_ptr }

module _ {W : Type 0} (request : Memory) where
  pub skip_rounds_lem :
      (n : ℕ) (m : Machine W) → m.transfer_cnt + n < 65536 → Skipped n m (skip_rounds request n m)
  unfolding skip_rounds
  skip_rounds_lem zero m h = ground arith
  skip_rounds_lem (suc n) m h =
      let m1 = skip_request request m in
      let rest =
        skip_rounds_lem n (record m1 { transfer_cnt = u16 (m1.transfer_cnt + 1) }) (ground arith) in
      ground (arith, rest.cnt, rest.same)
