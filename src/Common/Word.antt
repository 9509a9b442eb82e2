-- ===== src/Common/Word.antt =====
-- Machine words as native numbers below a power of two, with the wrap-around written out.
-- `usize` and `u64` have 64 bits on both targets of the kernel; a release build wraps.
use Prim.Native.Nat.{ℕ, ◌+◌, ◌-◌, ◌%◌, ◌^◌}
use mathlib.Core.Option.{Option, none, some}
use moss.Common.Tests.{ltb, if◌then◌else◌}

abbrev pub usize_mod : ℕ
usize_mod = 2 ^ 64

abbrev pub usize_max : ℕ
usize_max = 2 ^ 64 - 1

abbrev pub u32_mod : ℕ
u32_mod = 2 ^ 32

-- `a + b` and `a - b` on `usize` or `u64`.
abbrev pub wadd : ℕ → ℕ → ℕ
wadd a b = (a + b) % usize_mod

abbrev pub wsub : ℕ → ℕ → ℕ
wsub a b = (a + usize_mod - b) % usize_mod

-- `a.checked_add(b)`
abbrev pub checked_add : ℕ → ℕ → Option ℕ
checked_add a b = if ltb (a + b) usize_mod then some (a + b) else none

-- `a.saturating_sub(b)`: subtraction on ℕ stops at 0.
abbrev pub saturating_sub : ℕ → ℕ → ℕ
saturating_sub a b = a - b
