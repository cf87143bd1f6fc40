-- ===== src/Dap/Chain/Layout.antt =====
-- What `dap_jtag_configure` leaves in the arrays of the chain.
use Prim.Native.Nat.{min}
use cherry_link.Base.{
  ℕ, zero, suc, ◌+◌, ◌-◌, ◌*◌, ◌^◌, ◌≤◌, ◌<◌, ◌≡◌, refl, arith, length, get_or, length-set,
  get_or-set_self, get_or-set_ne, u16, u32, Memory, IsBytes,
}
use cherry_link.Dap.Machine.{Info, Machine, advance_req}
use cherry_link.Dap.Chain.{read_length, read_lengths, fill_one, fill_after, dap_jtag_configure}

-- The `k` bytes from offset `p` on, added up.
pub sum_bytes : Memory → ℕ → ℕ → ℕ
sum_bytes request p zero = 0
sum_bytes request p (suc k) = request p + sum_bytes request (p + 1) k

-- The arrays have a place for each device.
pub record IsChain (i : Info) : Type 0 where
  pub lengths : length i.ir_length ≡ 4
  pub befores : length i.ir_before ≡ 4
  pub afters : length i.ir_after ≡ 4

module _ (request : Memory) where
  sum_bytes-le : (p k : ℕ) → IsBytes request → sum_bytes request p k ≤ 255 * k
  unfolding sum_bytes
  sum_bytes-le p zero b = omega arith
  sum_bytes-le p (suc k) b = omega (arith, sum_bytes-le (p + 1) k b, b p)

  -- The outcome of the first loop.
  record Read {W : Type 0} (left n bits : ℕ) (m : Machine W) (r : ℕ × Machine W) : Type 0 where
    total : r.0 ≡ bits + sum_bytes request m.req_ptr left
    read : r.1.req_ptr ≡ m.req_ptr + left
    chain : IsChain r.1.info
    sound : r.1.fault ≡ m.fault
    count : r.1.info.count ≡ m.info.count
    kept_length : (k : ℕ) → k < n → get_or r.1.info.ir_length k 0 ≡ get_or m.info.ir_length k 0
    kept_before : (k : ℕ) → k < n → get_or r.1.info.ir_before k 0 ≡ get_or m.info.ir_before k 0
    filled_length :
        (k : ℕ) → k < left → get_or r.1.info.ir_length (n + k) 0 ≡ request (m.req_ptr + k)
    filled_before :
        (k : ℕ)
        → k < left
        → get_or r.1.info.ir_before (n + k) 0 ≡ bits + sum_bytes request m.req_ptr k

  module _ {W : Type 0} where
    -- One round of it.
    read_length_lem :
        (n bits : ℕ) (m : Machine W)
        → IsChain m.info
        → n < 4
        → m.req_ptr + 1 < 65536
        → bits < 65536
        → Read 1 n bits m (bits + request m.req_ptr, read_length request n bits m)
    unfolding read_length sum_bytes
    read_length_lem n bits m c fits room small = record {
      total = omega arith;
      read = omega arith;
      chain = ground (
        arith,
        length-set m.info.ir_length n (request m.req_ptr),
        length-set m.info.ir_before n (u16 bits),
      );
      sound = ground arith;
      count = refl;
      kept_length = λ k h. get_or-set_ne m.info.ir_length n k (request m.req_ptr) 0 (omega arith);
      kept_before = λ k h. get_or-set_ne m.info.ir_before n k (u16 bits) 0 (omega arith);
      filled_length = λ k h.
          let here : k ≡ 0 = omega arith in
          ground (arith, get_or-set_self m.info.ir_length n (request m.req_ptr) 0);
      filled_before = λ k h.
          let here : k ≡ 0 = omega arith in
          rw here (ground (arith, get_or-set_self m.info.ir_before n (u16 bits) 0));
    }

    extend :
        (left n bits : ℕ) (m : Machine W) (r : ℕ × Machine W)
        (one : Read 1 n bits m (bits + request m.req_ptr, read_length request n bits m))
        → Read left (n + 1) (bits + request m.req_ptr) (read_length request n bits m) r
        → Read (suc left) n bits m r
    unfolding sum_bytes
    extend left n bits m r one more = record {
      total = ground (arith, more.total, one.read);
      read = ground (arith, more.read, one.read);
      chain = more.chain;
      sound = ground (arith, more.sound, one.sound);
      count = ground (arith, more.count, one.count);
      kept_length = λ k h. ground (arith, more.kept_length k, one.kept_length k);
      kept_before = λ k h. ground (arith, more.kept_before k, one.kept_before k);
      filled_length = length_at;
      filled_before = before_at;
    }
      where
        length_at :
            (k : ℕ) → k < suc left → get_or r.1.info.ir_length (n + k) 0 ≡ request (m.req_ptr + k)
        length_at zero h = ground (arith, more.kept_length (n + 0), one.filled_length 0)
        length_at (suc k) h = ground (arith, more.filled_length k, one.read)

        before_at :
            (k : ℕ)
            → k < suc left
            → get_or r.1.info.ir_before (n + k) 0 ≡ bits + sum_bytes request m.req_ptr k
        before_at zero h = ground (arith, more.kept_before (n + 0), one.filled_before 0)
        before_at (suc k) h = ground (arith, more.filled_before k, one.read)

    read_lengths_lem :
        (left n bits : ℕ) (m : Machine W)
        → IsBytes request
        → IsChain m.info
        → n + left ≤ 4
        → m.req_ptr + left < 65536
        → bits + 255 * left < 65536
        → Read left n bits m (read_lengths request left n bits m)
    unfolding read_lengths sum_bytes
    read_lengths_lem zero n bits m b c fits room small = record {
      total = omega arith;
      read = omega arith;
      chain = c;
      sound = refl;
      count = refl;
      kept_length = λ k h. refl;
      kept_before = λ k h. refl;
      filled_length = λ k h. elim h [ ];
      filled_before = λ k h. elim h [ ];
    }
    read_lengths_lem (suc left) n bits m b c fits room small =
        let len = request m.req_ptr in
        let wide : u32 (bits + len) ≡ bits + len = omega (arith, b m.req_ptr) in
        let m1 = read_length request n bits m in
        let one = read_length_lem n bits m c (omega arith) (omega arith) (omega arith) in
        let more =
          read_lengths_lem left (n + 1) (bits + len) m1 b one.chain (omega arith)
            (omega (arith, one.read)) (omega (arith, b m.req_ptr)) in
        rw wide (extend left n bits m _ one more)

  -- The outcome of the second loop: `p` is the offset of the length of device `n`.
  record Filled {W : Type 0} (left n p : ℕ) (m m' : Machine W) : Type 0 where
    chain : IsChain m'.info
    sound : m'.fault ≡ m.fault
    count : m'.info.count ≡ m.info.count
    same_length : m'.info.ir_length ≡ m.info.ir_length
    same_before : m'.info.ir_before ≡ m.info.ir_before
    kept : (k : ℕ) → k < n → get_or m'.info.ir_after k 0 ≡ get_or m.info.ir_after k 0
    filled :
        (k : ℕ)
        → k < left
        → get_or m'.info.ir_after (n + k) 0 ≡ sum_bytes request (p + k + 1) (left - k - 1)

  module _ {W : Type 0} where
    fill_one_lem :
        (n bits : ℕ) (m : Machine W)
        → IsChain m.info
        → n < 4
        → bits < 65536
        → let m' = fill_one n bits m in
          IsChain m'.info
          × (m'.fault ≡ m.fault)
          × ((m'.info.count ≡ m.info.count)
              × (m'.info.ir_length ≡ m.info.ir_length)
              × (m'.info.ir_before ≡ m.info.ir_before))
          × (get_or m'.info.ir_after n 0 ≡ bits)
          × ((k : ℕ) → k < n → get_or m'.info.ir_after k 0 ≡ get_or m.info.ir_after k 0)
    unfolding fill_one
    fill_one_lem n bits m c fits small = (
      ground (arith, length-set m.info.ir_after n (u16 bits)),
      ground arith,
      (refl, refl, refl),
      ground (arith, get_or-set_self m.info.ir_after n (u16 bits) 0),
      λ k h. get_or-set_ne m.info.ir_after n k (u16 bits) 0 (omega arith),
    )

    fill_after_lem :
        (left n bits p : ℕ) (m : Machine W)
        → IsChain m.info
        → n + left ≤ 4
        → bits < 65536
        → bits ≡ sum_bytes request p left
        → ((k : ℕ) → k < left → get_or m.info.ir_length (n + k) 0 ≡ request (p + k))
        → Filled left n p m (fill_after left n bits m)
    unfolding fill_after sum_bytes
    fill_after_lem zero n bits p m c fits small e lens = record {
      chain = c;
      sound = refl;
      count = refl;
      same_length = refl;
      same_before = refl;
      kept = λ k h. refl;
      filled = λ k h. elim h [ ];
    }
    fill_after_lem (suc left) n bits p m c fits small e lens =
        let rest = sum_bytes request (p + 1) left in
        let here : get_or m.info.ir_length n 0 ≡ request p = ground (arith, lens 0) in
        let minus : u32 (bits + 2 ^ 32 - get_or m.info.ir_length n 0) ≡ rest = omega arith in
        let m1 = fill_one n rest m in
        let (chain, sound, same, value, others) =
          fill_one_lem n rest m c (omega arith) (omega arith) in
        let more =
          fill_after_lem left (n + 1) rest (p + 1) m1 chain (omega arith) (omega arith) refl
            (λ k h. ground (arith, lens (suc k))) in
        rw minus (record {
          chain = more.chain;
          sound = ground (arith, more.sound);
          count = ground (arith, more.count);
          same_length = ground (arith, more.same_length);
          same_before = ground (arith, more.same_before);
          kept = λ k h. ground (arith, more.kept k, others k);
          filled = after_at rest m1 (fill_after left (n + 1) rest m1) value more;
        })
      where
        after_at :
            (rest : ℕ) (m1 m' : Machine W)
            → get_or m1.info.ir_after n 0 ≡ sum_bytes request (p + 1) left
            → Filled left (n + 1) (p + 1) m1 m'
            → (k : ℕ) → k < suc left
            → get_or m'.info.ir_after (n + k) 0 ≡ sum_bytes request (p + k + 1) (suc left - k - 1)
        after_at rest m1 m' value more zero h = ground (arith, more.kept (n + 0))
        after_at rest m1 m' value more (suc k) h = ground (arith, more.filled k)

  -- What the arrays hold of device `k`: its own length, the bits of the devices before it, and the
  -- bits of those after it.
  pub record Layout {W : Type 0} (m m' : Machine W) (k : ℕ) : Type 0 where
    pub own : get_or m'.info.ir_length k 0 ≡ request (u16 (m.req_ptr + 1) + k)
    pub before : get_or m'.info.ir_before k 0 ≡ sum_bytes request (u16 (m.req_ptr + 1)) k
    pub after :
        get_or m'.info.ir_after k 0
        ≡ sum_bytes request (u16 (m.req_ptr + 1) + k + 1) (request m.req_ptr - k - 1)

  module _ {W : Type 0} where
    -- A configuration of at most four devices, whose arrays have their four places, sets for each
    -- device its length and the bits before and after it, sets the number of devices, leaves the
    -- arrays in place and goes out of none of them. The packet ends below the 64 KiB that the
    -- request index counts.
    pub dap_jtag_configure-Layout :
        (m : Machine W)
        → IsBytes request
        → IsChain m.info
        → m.req_ptr + 5 < 65536
        → request m.req_ptr ≤ 4
        → let m' = dap_jtag_configure request m in
          ((k : ℕ) → k < request m.req_ptr → Layout m m' k)
          × (m'.info.count ≡ request m.req_ptr)
          × (m'.fault ≡ m.fault)
          × IsChain m'.info
    unfolding dap_jtag_configure
    dap_jtag_configure-Layout m b c room few =
        let n = request m.req_ptr in
        let m1 = advance_req 1 m in
        let m2 = record m1 { info = record (m1.info) { count = min n 4 } } in
        let p = u16 (m.req_ptr + 1) in
        let r = read_lengths request n 0 0 m2 in
        let read =
          read_lengths_lem n 0 0 m2 b
            (record { lengths = c.lengths; befores = c.befores; afters = c.afters }) (omega arith)
            (omega arith) (omega arith) in
        let filled =
          fill_after_lem n 0 r.0 p r.1 read.chain (omega arith)
            (omega (arith, read.total, sum_bytes-le p n b)) (omega (arith, read.total))
            (λ k h. read.filled_length k h) in
        (
          λ k h. record {
            own = ground (arith, filled.same_length, read.filled_length k);
            before = ground (arith, filled.same_before, read.filled_before k);
            after = ground (arith, filled.filled k);
          },
          ground (arith, filled.count, read.count),
          ground (arith, filled.sound, read.sound),
          filled.chain,
        )
