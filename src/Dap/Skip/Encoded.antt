-- ===== src/Dap/Skip/Encoded.antt =====
-- How far the transfers that are not carried out move the request index.
use cherry_link.Base.{ℕ, zero, suc, ◌+◌, ◌<◌, ◌≡◌, ◌∙◌, if◌then◌else◌, arith, has, Memory}
use cherry_link.Dap.Machine.{Machine, advance_req}
use cherry_link.Dap.Skip.{skip_request, skip_requests, dap_dummy_transfer}

-- The bytes that a transfer request takes in the packet: its own, and four for a word behind every
-- write (bit 1 clear) and behind a read that matches a value (bit 4 set).
unfoldable pub encoded_one : ℕ → ℕ
encoded_one q = if has q 2 then (if has q 16 then 5 else 1) else 5

-- The bytes that `n` of them take, from offset `p` on.
unfoldable pub encoded : Memory → ℕ → ℕ → ℕ
encoded request p zero = 0
encoded request p (suc n) = let one = encoded_one (request p) in one + encoded request (p + one) n

module _ {W : Type 0} (request : Memory) where
  skip_request-encoded :
      (m : Machine W)
      → m.req_ptr + encoded_one (request m.req_ptr) < 65536
      → skip_request request m ≡ record m { req_ptr = m.req_ptr + encoded_one (request m.req_ptr) }
  unfolding skip_request encoded_one
  skip_request-encoded m room = ground arith

  skip_requests-encoded :
      (n : ℕ) (m : Machine W)
      → m.req_ptr + encoded request m.req_ptr n < 65536
      → skip_requests request n m ≡ record m { req_ptr = m.req_ptr + encoded request m.req_ptr n }
  unfolding skip_requests encoded
  skip_requests-encoded zero m room = ground arith
  skip_requests-encoded (suc n) m room =
      let one = encoded_one (request m.req_ptr) in
      let m1 = record m { req_ptr = m.req_ptr + one } in
      rw (skip_request-encoded m (omega arith))
        (skip_requests-encoded n m1 (omega arith) ∙ ground arith)

  -- A transfer command that is not carried out, for want of a port or of a device, is passed over as
  -- a whole: the request index moves on by exactly the bytes of its requests, each followed by a word
  -- of four bytes if it writes or matches a value, and the answer is a count of zero with no acknowledge. The packet and the answer end
  -- below the 64 KiB that the indices count.
  pub dap_dummy_transfer-encoded :
      (m : Machine W)
      → m.req_ptr + 2 + encoded request (m.req_ptr + 2) (request (m.req_ptr + 1)) < 65536
      → m.resp_ptr + 2 < 65536
      → let m' = dap_dummy_transfer request m in
        (m'.req_ptr ≡ m.req_ptr + 2 + encoded request (m.req_ptr + 2) (request (m.req_ptr + 1)))
        × (m'.resp_ptr ≡ m.resp_ptr + 2)
        × (m'.response m.resp_ptr ≡ 0)
        × (m'.response (m.resp_ptr + 1) ≡ 0)
        × (m'.info ≡ m.info)
        × (m'.world ≡ m.world)
  unfolding dap_dummy_transfer
  dap_dummy_transfer-encoded m room answer =
      let n = request (m.req_ptr + 1) in
      let m1 = record m { req_ptr = m.req_ptr + 2 } in
      let start : advance_req 2 m ≡ m1 = ground arith in
      let skipped = skip_requests-encoded n m1 room in rw (start, skipped) (ground arith)
