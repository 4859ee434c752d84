-- ===== src/AutoIp/Claims.antt =====
-- What the caller is told to claim, and what a stop leaves.
use idem_ip.Base.{ℕ, ◌+◌, ◌<◌, ◌≡◌, ◌≢◌}
use idem_ip.Base.{true, false, bit_xor, List, Option, none, some}
use idem_ip.Base.{arith, refl}
use idem_ip.Endian.{Octets}
use idem_ip.Config.{ok}
use idem_ip.AutoIp.{checking, Ctx, Borrow, is_ready, next, select}
use idem_ip.AutoIp.{advance, begin, start_with, start, conflict, bind, stop, tick, clear}
use idem_ip.AutoIp.{enter, claim, is_off, struck, seed}
use idem_ip.AutoIp.Draw.{IsLinkLocal, draw-IsLinkLocal}
use idem_ip.AutoIp.Invariant.{
  IsValid, Call, call, clearing, starting, conflicting, binding, stopping,
}
use idem_ip.AutoIp.Invariant.{ticking, run, run-clear-IsValid}

-- An address is to be claimed: it lies in the range, it is the one the context has selected, and the
-- interface is not bound to it.
pub record IsClaim (w : Borrow) : Type 0 where
  pub status_is : w.io.status ≡ ok
  pub state_is : w.io.state ≡ checking
  pub same : w.io.ipaddr ≡ w.ctx.ipaddr
  pub in_range : IsLinkLocal w.io.ipaddr
  pub unmasked : w.io.netmask ≡ 0

advance_claims :
    (w : Borrow) (c : Ctx) (rand now : ℕ)
    → c.state ≡ checking
    → (advance c rand now).has_candidate ≡ true
    → IsClaim (claim w (advance c rand now))
unfolding advance select
advance_claims w c rand now s h =
    let range = draw-IsLinkLocal (next (bit_xor c.seed rand)) c.ipaddr in ground (arith, range)

begin_claims :
    (w : Borrow) (c : Ctx) (mac : Octets) (rand now : ℕ)
    → (begin c mac rand now).has_candidate ≡ true
    → IsClaim (claim w (begin c mac rand now))
unfolding begin
begin_claims w c mac rand now h =
    let seeded = record c { seed = seed mac rand; state = checking } in
    ground (arith, advance_claims w seeded 0 now refl)

-- A call other than `clear`, which leaves the results of the call before it.
abbrev pub IsReporting : Call → Type 0
IsReporting clearing = ⊥
IsReporting _ = Unit {0}

start_claims :
    (m : Option Octets) (w : Borrow) (rand now : ℕ)
    → w.io.claim ≡ false
    → (start_with m w rand now).io.claim ≡ true
    → IsClaim (start_with m w rand now)
start_claims none w rand now e h = ground arith
start_claims (some mac) w rand now e h = ground (arith, begin_claims w w.ctx mac rand now)

conflict_claims :
    (w : Borrow) (rand now : ℕ)
    → (conflict w rand now).io.claim ≡ true
    → IsClaim (conflict w rand now)
unfolding conflict
conflict_claims w rand now h = ground (arith, advance_claims (enter w) (struck w.ctx) rand now refl)

tick_claims :
    (w : Borrow) (now rand : ℕ)
    → IsValid w.ctx
    → (tick w now rand).io.claim ≡ true
    → IsClaim (tick w now rand)
unfolding tick select
tick_claims w now rand v h =
    let range = draw-IsLinkLocal (next (bit_xor w.ctx.seed rand)) w.ctx.ipaddr in
    ground (arith, range)

call_claims :
    (c : Call) (w : Borrow)
    → IsValid w.ctx
    → IsReporting c
    → (call c w).io.claim ≡ true
    → IsClaim (call c w)
unfolding call start bind stop
call_claims clearing w v r h = elim r [ ]
call_claims (starting mac rand now) w v r h = start_claims mac (enter w) rand now refl h
call_claims (conflicting rand now) w v r h = conflict_claims w rand now h
call_claims binding w v r h = ground arith
call_claims stopping w v r h = ground arith
call_claims (ticking now rand) w v r h = tick_claims w now rand v h

-- Whatever calls have been made since the clear, when the next one but a clear reports an address
-- to claim, it reports OK, the state is CHECKING with no mask, and the address lies in the range
-- and is the one the context has selected.
pub run_claims :
    (cs : List Call) (c : Call) (w : Borrow)
    → IsReporting c
    → (call c (run cs (clear w))).io.claim ≡ true
    → IsClaim (call c (run cs (clear w)))
run_claims cs c w r h = call_claims c (run cs (clear w)) (run-clear-IsValid cs w) r h

-- In a valid context, a conflict over the address that the interface has out, with fewer than ten
-- conflicts counted before it, has the caller claim another address of the range.
pub conflict_moves :
    (w : Borrow) (rand now : ℕ)
    → IsValid w.ctx
    → is_off w.ctx.state ≡ false
    → w.ctx.held ≡ false
    → w.ctx.conflicts < 10
    → let after = conflict w rand now in
      (after.io.claim ≡ true)
      × IsLinkLocal after.io.ipaddr
      × (after.io.ipaddr ≢ w.ctx.ipaddr)
      × (after.ctx.conflicts ≡ w.ctx.conflicts + 1)
unfolding conflict is_ready advance select
conflict_moves w rand now v s h few =
    let range = draw-IsLinkLocal (next (bit_xor w.ctx.seed rand)) w.ctx.ipaddr in
    ground (arith, range)

-- In a valid context with an address out, a stop takes the address and the mask off the interface,
-- and the next start claims the address that was selected, with no new one drawn.
pub stop-start :
    (w : Borrow) (mac : Octets) (rand now : ℕ)
    → IsValid w.ctx
    → is_off w.ctx.state ≡ false
    → w.ctx.held ≡ false
    → let stopped = stop w in
      let after = start stopped (some mac) rand now in
      (stopped.io.ipaddr ≡ 0)
      × (stopped.io.netmask ≡ 0)
      × (after.io.claim ≡ true)
      × (after.io.ipaddr ≡ w.ctx.ipaddr)
      × (after.ctx.tried ≡ w.ctx.tried)
unfolding stop start is_ready begin
stop-start w mac rand now v s h = ground arith
