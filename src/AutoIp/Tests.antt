-- ===== src/AutoIp/Tests.antt =====
-- The link-local address at concrete inputs.
use idem_ip.Base.{ℕ, ◌≡◌, ◌≢◌, true, false, some, List, [], ◌∷◌}
use idem_ip.Base.{arith, refl}
use idem_ip.Endian.{Octets}
use idem_ip.Config.{ok, busy, err}
use idem_ip.AutoIp.{off, checking, Io, Borrow, ready_mark, is_ready, draw, zero_ctx}
use idem_ip.AutoIp.{start, conflict, stop, tick, clear, due, next, seed, begin, advance, select}
use idem_ip.AutoIp.{candidate, fold, bind}
use idem_ip.AutoIp.Draw.{IsLinkLocal, draw-IsLinkLocal}
use idem_ip.AutoIp.Invariant.{IsValid, Call, call, run, run-clear-IsValid, starting, conflicting}
use idem_ip.AutoIp.Invariant.{binding, stopping, ticking}
use idem_ip.AutoIp.Claims.{IsClaim, run_claims, conflict_moves, stop-start}
use idem_ip.AutoIp.RateLimit.{conflict_holds, tick_releases}

abbrev no_results : Io
no_results = record {
  ipaddr = 0;
  netmask = 0;
  deadline_ms = 0;
  status = err;
  state = off;
  tried = 0;
  claim = false;
}

abbrev link_mac : Octets
link_mac = 2 ∷ 0 ∷ 0 ∷ 0 ∷ 0 ∷ 1 ∷ []

abbrev blank : Borrow
blank = record { io = no_results; ctx = zero_ctx }

-- An interface with the address 169.254.7.7 out.
abbrev has_address : ℕ → Borrow
has_address conflicts = record blank {
  ctx = record zero_ctx {
    ready = ready_mark;
    ipaddr = 0xa9fe_0707;
    seed = 12345;
    state = checking;
    tried = 3;
    conflicts = conflicts;
  };
}

abbrev holding : Borrow
holding = record blank {
  ctx = record zero_ctx {
    ready = ready_mark;
    ipaddr = 0xa9fe_0707;
    seed = 12345;
    state = checking;
    tried = 12;
    conflicts = 11;
    held = true;
    deadline_ms = 65000;
  };
}

abbrev some_calls : List Call
some_calls = starting (some link_mac) 99 1000 ∷ conflicting 5 2000 ∷ binding ∷ stopping ∷ []

draw-IsLinkLocal_example :
    IsLinkLocal (draw 12345 0xa9fe_0707).ipaddr × ((draw 12345 0xa9fe_0707).ipaddr ≢ 0xa9fe_0707)
draw-IsLinkLocal_example = draw-IsLinkLocal 12345 0xa9fe_0707

run-clear-IsValid_example : IsValid (run some_calls (clear blank)).ctx
run-clear-IsValid_example = run-clear-IsValid some_calls blank

abbrev restart : Call
restart = starting (some link_mac) 7 3000

claimed : (call restart (run some_calls (clear blank))).io.claim ≡ true
unfolding call run clear start stop begin conflict advance select is_ready draw next seed candidate
    fold bind
claimed = refl

run_claims_example : IsClaim (call restart (run some_calls (clear blank)))
run_claims_example = run_claims some_calls restart blank _ claimed

has_address-IsValid : IsValid (has_address 2).ctx
has_address-IsValid = ground arith

conflict_moves_run :
    let after = conflict (has_address 2) 5 9000 in
    (after.io.claim ≡ true)
    × IsLinkLocal after.io.ipaddr
    × (after.io.ipaddr ≢ 0xa9fe_0707)
    × (after.ctx.conflicts ≡ 3)
conflict_moves_run =
    conflict_moves (has_address 2) 5 9000 has_address-IsValid refl refl (omega arith)

stop-start_run :
    let stopped = stop (has_address 2) in
    let after = start stopped (some link_mac) 5 9000 in
    (stopped.io.ipaddr ≡ 0)
    × (stopped.io.netmask ≡ 0)
    × (after.io.claim ≡ true)
    × (after.io.ipaddr ≡ 0xa9fe_0707)
    × (after.ctx.tried ≡ 3)
stop-start_run = stop-start (has_address 2) link_mac 5 9000 has_address-IsValid refl refl

is_ready_all : (is_ready (has_address 11) ≡ true) × (is_ready holding ≡ true)
unfolding is_ready
is_ready_all = (refl, refl)

abbrev calls_within : List Call
calls_within = ticking 7000 1 ∷ stopping ∷ starting (some link_mac) 3 8000 ∷ []

conflict_holds_example :
    let after = run calls_within (conflict (has_address 11) 5 6000) in
    ((conflict (has_address 11) 5 6000).io.status ≡ busy)
    × (after.ctx.ipaddr ≡ 0xa9fe_0707)
    × (after.ctx.tried ≡ 3)
    × ((call (ticking 65000 1) after).io.claim ≡ false)
conflict_holds_example =
    conflict_holds (has_address 11) 5 6000 calls_within (ticking 65000 1) is_ready_all.0 refl refl
      (omega arith) (omega arith) (omega arith)
      ((omega arith, omega arith), (_, ((omega arith, omega arith), _))) (omega arith, omega arith)

is_due : due 65000 65000 ≡ true
unfolding due
is_due = refl

tick_releases_run :
    let after = tick holding 65000 8 in
    (after.io.status ≡ ok)
    × (after.io.claim ≡ true)
    × IsLinkLocal after.io.ipaddr
    × (after.io.ipaddr ≢ 0xa9fe_0707)
    × (after.ctx.held ≡ false)
tick_releases_run = tick_releases holding 65000 8 is_ready_all.1 refl refl is_due

-- The generator's state zero and its substitute step to the same state.
next_zero : next 0 ≡ next 0x9e37_79b9
unfolding next
next_zero = refl
