-- ===== src/Dap/Handler/Valid.antt =====
-- The settings that the commands of cmsis-dap/dap_main.c leave in `dap_info`.
pub mod Commands
pub mod Loops
pub mod Packet
use Prim.Native.Nat.{min}
use cherry_link.Bits.{bit_and-le}
use cherry_link.Base.{
  ℕ, zero, suc, ◌+◌, ◌-◌, ◌*◌, ◌/◌, ◌%◌, ◌^◌, ◌≤◌, ◌<◌, ◌≡◌, refl, ◌∙◌, Bool, true, false, arith,
  bit_and, leb, ltb, ◌==◌, if◌then◌else◌, length, length-set, set, get_or, List,
}
use cherry_link.Dap.Machine.{Info, Machine}

-- The port is one of the three, the chain has at most `DAP_JTAG_DEV_CNT` devices and each array a
-- place for each, and the turnaround is one of the four that SWD knows.
pub record IsValid (i : Info) : Type 0 where
  pub port : i.port ≤ 2
  pub count : i.count ≤ 4
  pub lengths : length i.ir_length ≡ 4
  pub befores : length i.ir_before ≡ 4
  pub afters : length i.ir_after ≡ 4
  pub turnaround_low : 1 ≤ i.turnaround
  pub turnaround_high : i.turnaround ≤ 4

-- A step between two machines that leaves valid settings valid, forgets no access or shift that C
-- leaves undefined, and in which the polling of the pins ends.
pub record Keeps {W : Type 0} (m m' : Machine W) : Type 0 where
  pub valid : IsValid m.info → IsValid m'.info
  pub undefined : m.fault ≡ true → m'.fault ≡ true
  pub polled : m'.hung ≡ m.hung

module _ {W : Type 0} where
  pub Keeps-refl : (m : Machine W) → Keeps m m
  Keeps-refl m = record { valid = λ v. v; undefined = λ e. e; polled = refl }

  pub Keeps-trans : {m m1 m' : Machine W} → Keeps m m1 → Keeps m1 m' → Keeps m m'
  Keeps-trans f g = record {
    valid = λ v. g.valid (f.valid v);
    undefined = λ e. g.undefined (f.undefined e);
    polled = g.polled ∙ f.polled;
  }

  pub Keeps-if :
      {m : Machine W} (b : Bool) {x y : Machine W}
      → Keeps m x
      → Keeps m y
      → Keeps m (if b then x else y)
  Keeps-if true f g = f
  Keeps-if false f g = g
