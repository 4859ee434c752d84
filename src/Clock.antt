-- ===== src/Clock.antt =====
-- src/clock.c and src/ms.c: a 32-bit millisecond reading carried across its wraps onto a 64-bit
-- epoch, and the arithmetic over the epoch. A call that writes a clock returns it.
pub mod Epoch
mod Tests
use idem_ip.Base.{ℕ, ◌+◌, ◌-◌, ◌*◌, ◌/◌, ◌%◌, ◌^◌, Bool, bit_and, bit_or, ltb, if◌then◌else◌}
use idem_ip.Base.{u32, u64, sub32, ◌<<<◌, ◌>>>◌}

-- `IdemIpClock`. A build without a tick has neither of its two words, and leaves them alone here.
pub record Clock : Type 0 where
  pub reading : ℕ
  pub hi : ℕ
  pub stamp : ℕ
  pub tick : ℕ
  pub tick_stamp : ℕ

-- `((IdemIpMs)hi << 32) | (IdemIpMs)lo`, which `clock.c` writes out and `ms.c` names.
pub join : ℕ → ℕ → ℕ
join hi lo = bit_or (u64 (hi <<< 32)) lo

pub refresh : Clock → ℕ → Clock × ℕ
refresh c now_ms =
    let hi = if ltb now_ms c.reading then u32 (c.hi + 1) else c.hi in
    (record c { hi = hi; reading = now_ms }, join hi now_ms)

pub open_pass : Bool → Clock → Clock
open_pass has_tick c =
    let c = record c { stamp = c.reading } in
    if has_tick then record c { tick_stamp = c.tick } else c

pub now : Clock → ℕ
now c = c.reading

pub stamp : Clock → ℕ
stamp c = c.stamp

pub elapsed : Clock → ℕ
elapsed c = sub32 c.reading c.stamp

pub epoch : Clock → ℕ
epoch c = join c.hi c.reading

-- `ms_from_s`, on `uint64_t`.
pub from_s : ℕ → ℕ
from_s s = u64 (u64 (u64 (s <<< 10) + 2 ^ 64 - u64 (s <<< 4)) + 2 ^ 64 - u64 (s <<< 3))

pub hi_of : ℕ → ℕ
hi_of t = u32 (t >>> 32)

pub lo_of : ℕ → ℕ
lo_of t = u32 (bit_and t 0xffff_ffff)

-- The two words that `ms_extend` writes, and the epoch.
pub record Extended : Type 0 where
  pub last_ms : ℕ
  pub hi : ℕ
  pub epoch : ℕ

pub extend : ℕ → ℕ → ℕ → Extended
extend last_ms hi now_ms =
    let raised = if ltb now_ms last_ms then u32 (hi + 1) else hi in
    record { last_ms = now_ms; hi = raised; epoch = join raised now_ms }
