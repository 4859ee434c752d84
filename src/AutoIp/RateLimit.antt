-- ===== src/AutoIp/RateLimit.antt =====
-- How often an address may be drawn once the conflicts are many.
use idem_ip.Base.{ℕ, ◌+◌, ◌^◌, ◌≤◌, ◌<◌, ◌≡◌, ◌≢◌}
use idem_ip.Base.{true, false, bit_xor, List, [], ◌∷◌, Option, none, some}
use idem_ip.Base.{arith, refl, u32, sub32}
use idem_ip.Endian.{Octets}
use idem_ip.Config.{ok, busy}
use idem_ip.AutoIp.{Ctx, Borrow, is_ready, next, select}
use idem_ip.AutoIp.{advance, begin, start_with, start, conflict, bind, stop, tick}
use idem_ip.AutoIp.{due, enter, is_off}
use idem_ip.AutoIp.Draw.{IsLinkLocal, draw-IsLinkLocal}
use idem_ip.AutoIp.Invariant.{Call, call, clearing, starting, conflicting, binding, stopping}
use idem_ip.AutoIp.Invariant.{ticking, run}

-- The call is not a clear, and its clock, where it reads one, is less than 60000 ms past `t`.
abbrev pub IsWithin : ℕ → Call → Type 0
IsWithin t clearing = ⊥
IsWithin t (starting mac rand now) = (now < 2 ^ 32) × (sub32 now t < 60000)
IsWithin t (conflicting rand now) = Unit {0}
IsWithin t binding = Unit {0}
IsWithin t stopping = Unit {0}
IsWithin t (ticking now rand) = (now < 2 ^ 32) × (sub32 now t < 60000)

abbrev pub AllWithin : ℕ → List Call → Type 0
AllWithin t [] = Unit {0}
AllWithin t (c ∷ cs) = IsWithin t c × AllWithin t cs

-- A draw is held back until 60000 ms past `t` at least, and the address and the count are these.
record IsHeld (t ip tried : ℕ) (c : Ctx) : Type 0 where
  pub held_is : c.held ≡ true
  pub many : 10 < c.conflicts
  pub not_before : 60000 ≤ sub32 c.deadline_ms t
  pub not_after : sub32 c.deadline_ms t < 120000
  pub small : c.deadline_ms < 2 ^ 32
  pub ip_is : c.ipaddr ≡ ip
  pub tried_is : c.tried ≡ tried

not_due :
    (now t d : ℕ)
    → now < 2 ^ 32
    → t < 2 ^ 32
    → d < 2 ^ 32
    → sub32 now t < 60000
    → 60000 ≤ sub32 d t
    → sub32 d t < 120000
    → due now d ≡ false
unfolding due
not_due now t d n b s near least most = ground arith

conflict-IsHeld :
    (w : Borrow) (rand now : ℕ)
    → is_ready w ≡ true
    → is_off w.ctx.state ≡ false
    → w.ctx.held ≡ false
    → 10 ≤ w.ctx.conflicts
    → w.ctx.conflicts ≤ 255
    → now < 2 ^ 32
    → ((conflict w rand now).io.status ≡ busy)
      × IsHeld now w.ctx.ipaddr w.ctx.tried (conflict w rand now).ctx
unfolding conflict advance is_ready
conflict-IsHeld w rand now r s h many few small =
    let least : 60000 ≤ sub32 (u32 (now + 60000)) now = omega arith in
    let most : sub32 (u32 (now + 60000)) now < 120000 = omega arith in ground arith

module _ (t ip tried : ℕ) (small : t < 2 ^ 32) where
  start_with-IsHeld :
      (m : Option Octets) (w : Borrow) (rand now : ℕ)
      → w.io.claim ≡ false
      → IsHeld t ip tried w.ctx
      → now < 2 ^ 32
      → sub32 now t < 60000
      → IsHeld t ip tried (start_with m w rand now).ctx
        × ((start_with m w rand now).io.claim ≡ false)
  unfolding begin advance
  start_with-IsHeld none w rand now e h n near = (h, e)
  start_with-IsHeld (some mac) w rand now e h n near =
      let least : 60000 ≤ sub32 (u32 (now + 60000)) t = omega arith in
      let most : sub32 (u32 (now + 60000)) t < 120000 = omega arith in ground arith

  call-IsHeld :
      (c : Call) (w : Borrow)
      → IsWithin t c
      → IsHeld t ip tried w.ctx
      → IsHeld t ip tried (call c w).ctx × ((call c w).io.claim ≡ false)
  unfolding call start conflict bind stop tick
  call-IsHeld clearing w i h = elim i [ ]
  call-IsHeld (starting mac rand now) w i h =
      start_with-IsHeld mac (enter w) rand now refl h i.0 i.1
  call-IsHeld (conflicting rand now) w i h = ground arith
  call-IsHeld binding w i h = ground arith
  call-IsHeld stopping w i h = ground arith
  call-IsHeld (ticking now rand) w i h =
      let early = not_due now t w.ctx.deadline_ms i.0 small h.small i.1 h.not_before h.not_after in
      ground arith

  run-IsHeld :
      (cs : List Call) (w : Borrow)
      → AllWithin t cs
      → IsHeld t ip tried w.ctx
      → IsHeld t ip tried (run cs w).ctx
  unfolding run
  run-IsHeld [] w i h = h
  run-IsHeld (c ∷ cs) w i h = run-IsHeld cs (call c w) i.1 (call-IsHeld c w i.0 h).0

-- In a cleared borrow, a conflict over the address that the interface has out, with ten or more
-- conflicts counted before it, is BUSY; after it, whatever calls but a clear are made at times
-- less than 60000 ms past it, no address is drawn, and none of them has the caller claim one.
pub conflict_holds :
    (w : Borrow) (rand now : ℕ) (cs : List Call) (c : Call)
    → is_ready w ≡ true
    → is_off w.ctx.state ≡ false
    → w.ctx.held ≡ false
    → 10 ≤ w.ctx.conflicts
    → w.ctx.conflicts ≤ 255
    → now < 2 ^ 32
    → AllWithin now cs
    → IsWithin now c
    → let after = run cs (conflict w rand now) in
      ((conflict w rand now).io.status ≡ busy)
      × (after.ctx.ipaddr ≡ w.ctx.ipaddr)
      × (after.ctx.tried ≡ w.ctx.tried)
      × ((call c after).io.claim ≡ false)
conflict_holds w rand now cs c r s h many few small within last =
    let held = conflict-IsHeld w rand now r s h many few small in
    let after =
      run-IsHeld now w.ctx.ipaddr w.ctx.tried small cs (conflict w rand now) within held.1 in
    let told =
      call-IsHeld now w.ctx.ipaddr w.ctx.tried small c (run cs (conflict w rand now)) last after in
    (held.0, after.ip_is, after.tried_is, told.1)

-- In a cleared borrow of an interface that is on, a tick at or after the deadline of a draw that
-- is held back takes it: a new address of the range is handed out to claim, and nothing is held
-- back any more.
pub tick_releases :
    (w : Borrow) (now rand : ℕ)
    → is_ready w ≡ true
    → is_off w.ctx.state ≡ false
    → w.ctx.held ≡ true
    → due now w.ctx.deadline_ms ≡ true
    → let after = tick w now rand in
      (after.io.status ≡ ok)
      × (after.io.claim ≡ true)
      × IsLinkLocal after.io.ipaddr
      × (after.io.ipaddr ≢ w.ctx.ipaddr)
      × (after.ctx.held ≡ false)
unfolding tick is_ready select
tick_releases w now rand r s h d =
    let range = draw-IsLinkLocal (next (bit_xor w.ctx.seed rand)) w.ctx.ipaddr in
    ground (arith, range)
