-- ===== src/Base/Words.antt =====
-- Machine integers of the 64-bit target as numbers below a power of two.
use Prim.Native.Nat.{ℕ, ◌+◌, ◌*◌, ◌%◌}
use mathlib.Core.Bool.{Bool}
use mathlib.Core.Option.{Option, none, some}
use Prim.Native.Nat.{◌^◌}
use winluks.Base.Logic.{ltb, ◌==◌, if◌then◌else◌}

-- The number of values of a `u64`, and of a `usize`.
abbrev pub u64_size : ℕ
u64_size = 2 ^ 64

-- `a.checked_add(b)`, `a.checked_mul(b)`
abbrev pub checked_add : ℕ → ℕ → Option ℕ
checked_add a b = if ltb (a + b) u64_size then some (a + b) else none

abbrev pub checked_mul : ℕ → ℕ → Option ℕ
checked_mul a b = if ltb (a * b) u64_size then some (a * b) else none

-- `n.is_multiple_of(d)` for a constant d that is not 0.
abbrev pub is_multiple_of : ℕ → ℕ → Bool
is_multiple_of n d = n % d == 0

-- `fetch_add(1)` on an `AtomicU64` wraps.
abbrev pub fetch_add_one : ℕ → ℕ
fetch_add_one n = (n + 1) % u64_size
