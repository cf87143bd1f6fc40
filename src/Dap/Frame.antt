-- ===== src/Dap/Frame.antt =====
-- What a stage of a command leaves alone, and by how much it moves the response index.
use cherry_link.Base.{ℕ, suc, ◌+◌, ◌*◌, u16, ◌≤◌, ◌<◌, ◌≡◌, Bool, true, false, arith, if◌then◌else◌}
use cherry_link.Dap.Machine.{Machine, advance_req}
use cherry_link.Dap.Flow.{Flow, next, stop, ◌>>=◌, state_of}

-- From `m` to `m'` the port, the chain and the counts stay, and the response index moves
-- forward by at most `k`, if there is room for that below 2 ^ 16.
pub record Frame {W : Type 0} (k : ℕ) (m m' : Machine W) : Type 0 where
  pub cnt : m'.transfer_cnt ≡ m.transfer_cnt
  pub port : m'.info.port ≡ m.info.port
  pub count : m'.info.count ≡ m.info.count
  pub index : m'.info.index ≡ m.info.index
  pub ir_length : m'.info.ir_length ≡ m.info.ir_length
  pub ir_before : m'.info.ir_before ≡ m.info.ir_before
  pub ir_after : m'.info.ir_after ≡ m.info.ir_after
  pub turnaround : m'.info.turnaround ≡ m.info.turnaround
  pub undefined : m.fault ≡ true → m'.fault ≡ true
  pub hung : m'.hung ≡ m.hung
  pub reset : m'.reset ≡ m.reset
  pub forward : m.resp_ptr + k < 65536 → m.resp_ptr ≤ m'.resp_ptr
  pub bounded : m.resp_ptr + k < 65536 → m'.resp_ptr ≤ m.resp_ptr + k

module _ {W : Type 0} where
  pub Frame-refl : (m : Machine W) → Frame 0 m m
  Frame-refl m = ground arith

  pub Frame-trans :
      {j k : ℕ} {m1 m2 m3 : Machine W} → Frame j m1 m2 → Frame k m2 m3 → Frame (j + k) m1 m3
  Frame-trans f g = record {
    cnt = ground arith;
    port = ground arith;
    count = ground arith;
    index = ground arith;
    ir_length = ground arith;
    ir_before = ground arith;
    ir_after = ground arith;
    turnaround = ground arith;
    undefined = λ e. g.undefined (f.undefined e);
    hung = ground arith;
    reset = ground arith;
    forward = λ h. ground (arith, f.forward, f.bounded, g.forward);
    bounded = λ h. ground (arith, f.forward, f.bounded, g.bounded);
  }

  pub Frame-weaken : {j k : ℕ} {m m' : Machine W} → j ≤ k → Frame j m m' → Frame k m m'
  Frame-weaken le f = ground (arith, f.forward, f.bounded)

-- The same of a flow over loop states that hold a machine.
module _ {W L : Type 0} (machine : L → Machine W) where
  pub record Stays (k : ℕ) (l : L) (f : Flow L) : Type 0 where
    pub frame : Frame k (machine l) (machine (state_of f))

  pub Stays-bind :
      (j k : ℕ) (l : L) (f : Flow L) (g : L → Flow L)
      → Stays j l f
      → ((l' : L) → Stays k l' (g l'))
      → Stays (j + k) l (f >>= g)
  Stays-bind j k l (next l') g s t = record { frame = Frame-trans s.frame (Stays.frame (t l')) }
  Stays-bind j k l (stop l') g s t = record { frame = Frame-weaken (omega arith) s.frame }

  pub Stays-if :
      (k : ℕ) (l : L) (b : Bool) (f g : Flow L)
      → Stays k l f
      → Stays k l g
      → Stays k l (if b then f else g)
  Stays-if k l true f g s t = s
  Stays-if k l false f g s t = t

  pub Stays-weaken : {j k : ℕ} {l : L} {f : Flow L} → j ≤ k → Stays j l f → Stays k l f
  Stays-weaken le s = record { frame = Frame-weaken le s.frame }

-- From one loop state to another, in at most `n` rounds of at most 16 bytes each.
pub record Looped {W : Type 0} (n : ℕ) (m m' : Machine W) : Type 0 where
  pub counted_up : m.transfer_cnt ≤ m'.transfer_cnt
  pub counted_to : m'.transfer_cnt ≤ m.transfer_cnt + n
  pub frame : Frame (16 * n) (record m { transfer_cnt = m'.transfer_cnt }) m'

-- The machine when a transfer has been counted and its request byte read.
abbrev pub counted_machine : {W : Type 0} → Machine W → Machine W
counted_machine m = advance_req 1 (record m { transfer_cnt = u16 (m.transfer_cnt + 1) })

module _ {W : Type 0} where
  pub Looped-one :
      {n : ℕ} {m m' : Machine W}
      → Frame 16 (counted_machine m) m'
      → m.transfer_cnt + suc n < 65536
      → Looped (suc n) m m'
  Looped-one f h = ground (arith, f.forward, f.bounded)

  pub Looped-more :
      {n : ℕ} {m m1 m' : Machine W}
      → Frame 16 (counted_machine m) m1
      → m.transfer_cnt + suc n < 65536
      → (m1.transfer_cnt + n < 65536 → Looped n m1 m')
      → Looped (suc n) m m'
  Looped-more f h ih =
      let rest = ih (omega arith) in
      ground (arith, f.forward, f.bounded, rest.frame.forward, rest.frame.bounded)

  -- a round that may not have counted its transfer
  pub Looped-last : {n : ℕ} {m m' : Machine W} → Looped 1 m m' → Looped (suc n) m m'
  Looped-last one = ground (arith, one.frame.forward, one.frame.bounded)

  pub Looped-trans :
      {n : ℕ} {m m1 m' : Machine W} → Looped 1 m m1 → Looped n m1 m' → Looped (suc n) m m'
  Looped-trans one rest =
      ground (arith, one.frame.forward, one.frame.bounded, rest.frame.forward, rest.frame.bounded)
