-- ===== src/Sched/Time.antt =====
-- src/drivers/timer/mod.rs and src/sched/runqueue/vclock.rs: instants of the hardware timer, the time between
-- them, and the virtual clock of a run queue.
use moss.Common.{
  ℕ, ◌+◌, ◌-◌, ◌*◌, ◌/◌, ◌%◌, ◌^◌, min, Option, none, some, if◌then◌else◌, ltb, ◌==◌, usize_mod,
  Exec, done, panicked,
}
use Prim.Native.Nat.{compare, Ordering}

abbrev pub u128_mod : ℕ
u128_mod = 2 ^ 128

-- `a.saturating_add(b)` on u128 and on u64
unfoldable pub saturating_add_u128 : ℕ → ℕ → ℕ
saturating_add_u128 a b = min (a + b) (u128_mod - 1)

unfoldable pub saturating_add : ℕ → ℕ → ℕ
saturating_add a b = min (a + b) (usize_mod - 1)

-- `core::time::Duration`: whole seconds, and nanoseconds below 1_000_000_000
pub record Duration : Type 0 where
  pub secs : ℕ
  pub nanos : ℕ

abbrev pub nanos_per_sec : ℕ
nanos_per_sec = 1000000000

abbrev pub as_nanos : Duration → ℕ
as_nanos d = d.secs * nanos_per_sec + d.nanos

pub record Instant : Type 0 where
  pub ticks : ℕ
  pub freq : ℕ

-- `cmp` of `Ord for Instant`
abbrev pub cmp_instant : Instant → Instant → Ordering
cmp_instant a b = compare a.ticks b.ticks

-- What `Sub` answers where its divisions by the frequency do not panic.
unfoldable pub elapsed : Instant → Instant → Duration
elapsed a b =
    let diff_ticks = a.ticks - b.ticks in
    record {
      secs = diff_ticks / a.freq;
      nanos = diff_ticks % a.freq * nanos_per_sec / a.freq % 2 ^ 32;
    }

unfoldable pub sub : Instant → Instant → Exec Duration
sub a b = if a.freq == 0 then panicked else done (elapsed a b)

unfoldable pub add : Instant → Duration → Instant
add a d =
    let secs_tick = d.secs * a.freq % usize_mod in
    let nsecs_tick = a.freq * d.nanos / nanos_per_sec % usize_mod in
    record a { ticks = (a.ticks + secs_tick + nsecs_tick) % usize_mod }

abbrev pub vt_fixed_shift : ℕ
vt_fixed_shift = 63

abbrev pub vclock_epsilon : ℕ
vclock_epsilon = 2 ^ vt_fixed_shift

-- `(ns << VT_FIXED_SHIFT) / weight` on u128
unfoldable pub virtual_time : ℕ → ℕ → ℕ
virtual_time ns weight = ns * 2 ^ vt_fixed_shift % u128_mod / weight

pub record VClock : Type 0 where
  pub last_update : Option Instant
  pub clk : ℕ

abbrev pub new_vclock : VClock
new_vclock = record { last_update = none; clk = 0 }

abbrev pub fast_forward : ℕ → VClock → VClock
fast_forward new_clk c = record c { clk = new_clk }

-- the clock after `delta` has passed
unfoldable pub run_for : Duration → ℕ → ℕ → ℕ
run_for delta weight clk =
    if ltb 0 weight then saturating_add_u128 clk (virtual_time (as_nanos delta) weight) else clk

unfoldable pub advance : Instant → ℕ → VClock → Exec VClock
advance now weight c = elim c.last_update [
  | none ↦ done (record c { last_update = some now })
  | some prev ↦ elim (sub now prev) [
    | panicked ↦ panicked
    | done delta ↦ done (record c { last_update = some now; clk = run_for delta weight c.clk })
  ]
]
