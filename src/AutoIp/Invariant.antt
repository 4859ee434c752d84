-- ===== src/AutoIp/Invariant.antt =====
-- What holds of a cleared context between calls, and what an entry then reports.
use idem_ip.Base.{ℕ, ◌≤◌, ◌<◌, ◌≡◌, ◌≢◌, ◌⊎◌}
use idem_ip.Base.{true, false, bit_xor, List, [], ◌∷◌, Option, none, some}
use idem_ip.Base.{arith}
use idem_ip.Endian.{Octets}
use idem_ip.AutoIp.{checking, bound, Ctx, Borrow, ready_mark, is_ready, next, select}
use idem_ip.AutoIp.{advance, begin, start_with, start, conflict, bind, stop, tick, clear}
use idem_ip.AutoIp.{enter, is_off, struck, seed}
use idem_ip.AutoIp.Draw.{IsLinkLocal, draw-IsLinkLocal}

-- No address has been drawn and no conflict counted, or the address is one of the range.
abbrev pub IsDrawn : Ctx → Type 0
IsDrawn c =
    (c.tried ≡ 0) × (c.ipaddr ≡ 0) × (c.conflicts ≡ 0) ⊎ (1 ≤ c.tried) × IsLinkLocal c.ipaddr

-- An interface that is on has drawn an address, a bound one has counted no conflict since, and a
-- draw is held back only over the conflict limit.
pub record IsValid (c : Ctx) : Type 0 where
  pub marked : c.ready ≡ ready_mark
  pub drawn : IsDrawn c
  pub few_tried : c.tried ≤ 255
  pub few_conflicts : c.conflicts ≤ 255
  pub held_many : c.held ≡ true → (10 < c.conflicts) × (1 ≤ c.tried)
  pub free_deadline : c.held ≡ false → c.deadline_ms ≡ 0
  pub on_drawn : is_off c.state ≡ false → 1 ≤ c.tried
  pub bound_free : c.state ≡ bound → c.conflicts ≡ 0

clear-IsValid : (w : Borrow) → IsValid (clear w).ctx
unfolding clear
clear-IsValid w = ground arith

-- Over the states that a drawn candidate may come in.
select-IsValid :
    (c : Ctx) (rand : ℕ)
    → c.ready ≡ ready_mark
    → c.tried ≤ 255
    → c.conflicts ≤ 255
    → c.state ≢ bound
    → IsValid (select c rand)
unfolding select
select-IsValid c rand m t f s =
    let range = draw-IsLinkLocal (next (bit_xor c.seed rand)) c.ipaddr in ground (arith, range)

advance-IsValid :
    (c : Ctx) (rand now : ℕ)
    → c.ready ≡ ready_mark
    → IsDrawn c
    → c.tried ≤ 255
    → c.conflicts ≤ 255
    → c.state ≢ bound
    → IsValid (advance c rand now).ctx
unfolding advance
advance-IsValid c rand now m d t f s = ground (arith, select-IsValid c rand m t f s)

begin-IsValid :
    (c : Ctx) (mac : Octets) (rand now : ℕ) → IsValid c → IsValid (begin c mac rand now).ctx
unfolding begin
begin-IsValid c mac rand now v =
    let free : checking ≢ bound = ground arith in
    let seeded = record c { seed = seed mac rand; state = checking } in
    ground (arith, advance-IsValid seeded 0 now v.marked v.drawn v.few_tried v.few_conflicts free)

start_with-IsValid :
    (m : Option Octets) (w : Borrow) (rand now : ℕ)
    → IsValid w.ctx
    → IsValid (start_with m w rand now).ctx
unfolding is_ready
start_with-IsValid none w rand now v = v
start_with-IsValid (some mac) w rand now v = ground (arith, begin-IsValid w.ctx mac rand now v)

conflict-IsValid : (w : Borrow) (rand now : ℕ) → IsValid w.ctx → IsValid (conflict w rand now).ctx
unfolding conflict is_ready
conflict-IsValid w rand now v =
    let free : checking ≢ bound = ground arith in
    let few : (struck w.ctx).conflicts ≤ 255 = ground arith in
    let drawn : is_off w.ctx.state ≡ false → IsDrawn (struck w.ctx) = ground arith in
    ground (
      arith,
      λ (on : is_off w.ctx.state ≡ false).
          advance-IsValid (struck w.ctx) rand now v.marked (drawn on) v.few_tried few free,
    )

bind-IsValid : (w : Borrow) → IsValid w.ctx → IsValid (bind w).ctx
unfolding bind is_ready
bind-IsValid w v = ground arith

stop-IsValid : (w : Borrow) → IsValid w.ctx → IsValid (stop w).ctx
unfolding stop is_ready
stop-IsValid w v = ground arith

tick-IsValid : (w : Borrow) (now rand : ℕ) → IsValid w.ctx → IsValid (tick w now rand).ctx
unfolding tick is_ready
tick-IsValid w now rand v =
    let unbound : w.ctx.held ≡ true → w.ctx.state ≢ bound = ground arith in
    ground (
      arith,
      λ (h : w.ctx.held ≡ true).
          select-IsValid w.ctx rand v.marked v.few_tried v.few_conflicts (unbound h),
    )

-- The calls of a client.
pub data Call : Type 0 where
  clearing : Call
  starting : Option Octets → ℕ → ℕ → Call
  conflicting : ℕ → ℕ → Call
  binding : Call
  stopping : Call
  ticking : ℕ → ℕ → Call

unfoldable pub call : Call → Borrow → Borrow
call clearing w = clear w
call (starting mac rand now) w = start w mac rand now
call (conflicting rand now) w = conflict w rand now
call binding w = bind w
call stopping w = stop w
call (ticking now rand) w = tick w now rand

unfoldable pub run : List Call → Borrow → Borrow
run [] w = w
run (c ∷ cs) w = run cs (call c w)

call-IsValid : (c : Call) (w : Borrow) → IsValid w.ctx → IsValid (call c w).ctx
unfolding call start
call-IsValid clearing w v = clear-IsValid w
call-IsValid (starting mac rand now) w v = start_with-IsValid mac (enter w) rand now v
call-IsValid (conflicting rand now) w v = conflict-IsValid w rand now v
call-IsValid binding w v = bind-IsValid w v
call-IsValid stopping w v = stop-IsValid w v
call-IsValid (ticking now rand) w v = tick-IsValid w now rand v

run_keeps : (cs : List Call) (w : Borrow) → IsValid w.ctx → IsValid (run cs w).ctx
unfolding run
run_keeps [] w v = v
run_keeps (c ∷ cs) w v = run_keeps cs (call c w) (call-IsValid c w v)

-- Whatever the borrow held and whatever calls follow the clear, the context is valid: any address
-- it has drawn lies in the range, an interface that is on has drawn one, a draw is held back only
-- with more than ten conflicts counted, and a deadline stands only while one is held back.
pub run-clear-IsValid : (cs : List Call) (w : Borrow) → IsValid (run cs (clear w)).ctx
run-clear-IsValid cs w = run_keeps cs (clear w) (clear-IsValid w)
