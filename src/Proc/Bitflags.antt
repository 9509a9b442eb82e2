-- ===== src/Proc/Bitflags.antt =====
-- What the kernel uses of the crate `bitflags` (not part of the repository): a type of flag sets
-- with the sets that its macro generates. `contains a b` holds when every flag of `b` is in `a`.
use moss.Common.{ℕ, Bool, true, ◌≡◌}

pub record Bitflags : Type 1 where
  pub Flags : Type 0
  -- the set that holds the one flag `1 << k`
  pub bit : ℕ → Flags
  pub all : Flags
  pub empty : Flags
  pub contains : Flags → Flags → Bool
  pub contains_refl : (a : Flags) → contains a a ≡ true
  pub contains_trans :
      (a b c : Flags) → contains a b ≡ true → contains b c ≡ true → contains a c ≡ true
