-- ===== src/Acd/RateLimit.antt =====
-- How often an address may be tried once the conflicts are many.
use idem_ip.Base.{ℕ, ◌+◌, ◌^◌, ◌≤◌, ◌<◌, ◌≡◌, ◌≢◌, Bool, true, false, List, [], ◌∷◌}
use idem_ip.Base.{Option, none, some, arith, refl, sub32, u32, ◌∙◌}
use idem_ip.Endian.{Octets}
use idem_ip.Host.{Width}
use idem_ip.Config.{ok, busy, err}
use idem_ip.Acd.{State, off, probe_wait, probing, announce_wait, announcing, ongoing, rate_limit}
use idem_ip.Acd.{Ctx, Borrow, StartArgs, is_ready, due, fire, fire_in, tick, enter}
use idem_ip.Acd.{start, start_with, claim, stop, cease, send_probe, send_announce}
use idem_ip.Acd.Invariant.{Call, clearing, starting, stopping, packet_in, ticking, call, run}

-- Calls that neither start a claim, nor hand a packet in, nor clear the context.
abbrev pub IsQuiet : List Call → Type 0
IsQuiet [] = Unit {0}
IsQuiet (ticking now rand ∷ cs) = IsQuiet cs
IsQuiet (stopping ∷ cs) = IsQuiet cs
IsQuiet (_ ∷ cs) = ⊥

-- The two contexts agree on what limits the rate.
abbrev pub SameLimit : Ctx → Ctx → Type 0
SameLimit c d = (c.conflicts ≡ d.conflicts) × (c.next_claim_ms ≡ d.next_claim_ms)

fire_in-SameLimit :
    (s : State) (w : Borrow) (now rand : ℕ) → SameLimit (fire_in s w now rand).ctx w.ctx
unfolding send_probe send_announce
fire_in-SameLimit off w now rand = (refl, refl)
fire_in-SameLimit ongoing w now rand = (refl, refl)
fire_in-SameLimit probe_wait w now rand = ground arith
fire_in-SameLimit probing w now rand = ground arith
fire_in-SameLimit announce_wait w now rand = ground arith
fire_in-SameLimit announcing w now rand = ground arith
fire_in-SameLimit rate_limit w now rand = ground arith

tick-SameLimit : (w : Borrow) (now rand : ℕ) → SameLimit (tick w now rand).ctx w.ctx
unfolding tick fire
tick-SameLimit w now rand = ground (arith, fire_in-SameLimit w.ctx.state (enter w) now rand)

stop-SameLimit : (w : Borrow) → SameLimit (stop w).ctx w.ctx
unfolding stop cease
stop-SameLimit w = ground arith

module _ (little : Bool) (wd : Width) where
  run-SameLimit :
      (cs : List Call) (w : Borrow) → IsQuiet cs → SameLimit (run little wd cs w).ctx w.ctx
  unfolding run call
  run-SameLimit [] w q = (refl, refl)
  run-SameLimit (ticking now rand ∷ cs) w q =
      let rest = run-SameLimit cs (tick w now rand) q in
      let one = tick-SameLimit w now rand in (rest.0 ∙ one.0, rest.1 ∙ one.1)
  run-SameLimit (stopping ∷ cs) w q =
      let rest = run-SameLimit cs (stop w) q in
      let one = stop-SameLimit w in (rest.0 ∙ one.0, rest.1 ∙ one.1)
  run-SameLimit (clearing ∷ cs) w q = elim q [ ]
  run-SameLimit (starting a ∷ cs) w q = elim q [ ]
  run-SameLimit (packet_in p now ∷ cs) w q = elim q [ ]

-- What a start that was taken with many conflicts leaves.
start_with-limit :
    (m : Option Octets) (w : Borrow) (a : StartArgs)
    → 10 ≤ w.ctx.conflicts
    → w.io.status ≡ err
    → (start_with m w a).io.status ≡ ok
    → (10 ≤ (start_with m w a).ctx.conflicts)
      × ((start_with m w a).ctx.next_claim_ms ≡ u32 (a.now_ms + 60000))
unfolding claim is_ready
start_with-limit none w a h e s = ground arith
start_with-limit (some mac) w a h e s = ground arith

-- A start inside the interval.
start_with-early :
    (m : Option Octets) (w : Borrow) (a : StartArgs)
    → 10 ≤ w.ctx.conflicts
    → w.io.status ≡ err
    → due a.now_ms w.ctx.next_claim_ms ≡ false
    → ((start_with m w a).io.status ≢ ok) × ((start_with m w a).ctx ≡ w.ctx)
unfolding claim is_ready
start_with-early none w a h e d = ground arith
start_with-early (some mac) w a h e d = ground arith

not_due :
    (now before : ℕ)
    → now < 2 ^ 32
    → before < 2 ^ 32
    → sub32 now before < 60000
    → due now (u32 (before + 60000)) ≡ false
unfolding due
not_due now before n b l = ground arith

-- With ten or more conflicts counted, and times that are 32-bit words, claims are
-- RATE_LIMIT_INTERVAL apart: after a start that is taken, and any ticks and stops, a start at a
-- time less than 60000 ms after it is not taken, and it changes nothing in the context.
pub claims_apart :
    (little : Bool) (wd : Width) (w : Borrow) (a b : StartArgs) (cs : List Call)
    → 10 ≤ w.ctx.conflicts
    → (start w a).io.status ≡ ok
    → IsQuiet cs
    → a.now_ms < 2 ^ 32
    → b.now_ms < 2 ^ 32
    → sub32 b.now_ms a.now_ms < 60000
    → let between = run little wd cs (start w a) in
      ((start between b).io.status ≢ ok) × ((start between b).ctx ≡ between.ctx)
unfolding start
claims_apart little wd w a b cs many taken q ta tb near =
    let left = start_with-limit a.mac (enter w) a many refl taken in
    let between = run little wd cs (start w a) in
    let same = run-SameLimit little wd cs (start w a) q in
    start_with-early b.mac (enter between) b (omega (arith, left.0, same.0)) refl
      (rw (same.1 ∙ left.1) (not_due b.now_ms a.now_ms tb ta near))

-- In a cleared borrow with ten or more conflicts counted, a start with every operand in order is
-- refused as BUSY when it comes 2 ^ 31 ms or more, and less than 2 ^ 32, after the interval has
-- ended, since the deadline is then read as one to come.
pub start_stale :
    (w : Borrow) (a : StartArgs) (mac : Octets) (d : ℕ)
    → is_ready w ≡ true
    → a.mac ≡ some mac
    → a.ipaddr ≢ 0
    → a.defense ≤ 2
    → 10 ≤ w.ctx.conflicts
    → w.ctx.next_claim_ms < 2 ^ 32
    → a.now_ms ≡ u32 (w.ctx.next_claim_ms + d)
    → 2 ^ 31 ≤ d
    → d < 2 ^ 32
    → ((start w a).io.status ≡ busy) × ((start w a).ctx ≡ w.ctx)
unfolding start claim is_ready due
start_stale w a mac d r m n f c s t least most = rw m (ground arith)
