-- ===== src/AutoIp.antt =====
-- src/autoip/autoip.c: the RFC 3927 link-local address of one interface. An entry takes the borrow,
-- its context and the results it last reported, and the operands that the caller wrote for it; it
-- returns the borrow. `mac` is `none` for NULL and otherwise the octets pointed to.
pub mod Draw
pub mod Invariant
pub mod Claims
pub mod RateLimit
mod Tests
use idem_ip.Base.{ℕ, zero, suc, ◌+◌, ◌-◌, ◌*◌, ◌/◌, ◌%◌, ◌^◌, Bool, true, false, not, ◌&&◌, ◌||◌}
use idem_ip.Base.{bit_and, bit_or, bit_xor, Option, none, some, ltb, leb, ◌==◌, if◌then◌else◌}
use idem_ip.Base.{u8, u32, sub32, ◌<<<◌, ◌>>>◌}
use idem_ip.Endian.{Octets, octet}
use idem_ip.Config.{Status, ok, busy, err, acd_max_conflicts, acd_rate_limit_interval_ms}
use idem_ip.Config.{autoip_prefix, autoip_first, autoip_last, autoip_netmask}

-- `IdemIpAutoIpState`
pub data State : Type 0 where
  off checking bound : State

abbrev pub ready_mark : ℕ
ready_mark = 0x4149_4f50

abbrev pub mix : ℕ
mix = 0x9e37_79b9

abbrev pub draw_tries : ℕ
draw_tries = 4

abbrev pub address_span : ℕ
address_span = autoip_last - autoip_first + 1

abbrev pub count_max : ℕ
count_max = 0xff

abbrev pub mac_octets : ℕ
mac_octets = 6

-- `AutoIpCtx`
pub record Ctx : Type 0 where
  pub ready : ℕ
  pub ipaddr : ℕ
  pub deadline_ms : ℕ
  pub seed : ℕ
  pub state : State
  pub tried : ℕ
  pub conflicts : ℕ
  pub held : Bool

-- The results of `AutoIpIo`.
pub record Io : Type 0 where
  pub ipaddr : ℕ
  pub netmask : ℕ
  pub deadline_ms : ℕ
  pub status : Status
  pub state : State
  pub tried : ℕ
  pub claim : Bool

pub record Borrow : Type 0 where
  pub io : Io
  pub ctx : Ctx

pub is_ready : Borrow → Bool
is_ready w = w.ctx.ready == ready_mark

-- `autoip_next`: `s` is the state after the test for zero, then after each shift.
pub next : ℕ → ℕ
next seed =
    let s = if seed == 0 then mix else seed in
    let s = bit_xor s (u32 (s <<< 13)) in let s = bit_xor s (s >>> 17) in bit_xor s (u32 (s <<< 5))

-- `autoip_seed`: the loop, with the octets that are left and the index.
abbrev pub seed_octets : ℕ → ℕ → Octets → ℕ → ℕ
seed_octets zero i mac s = s
seed_octets (suc n) i mac s =
    seed_octets n (i + 1) mac (next (bit_xor (bit_xor s (octet mac i)) mix))

pub seed : Octets → ℕ → ℕ
seed mac rand = seed_octets mac_octets 0 mac rand

-- A generator's state and an address.
pub record Drawn : Type 0 where
  pub seed : ℕ
  pub ipaddr : ℕ

pub candidate : ℕ → ℕ
candidate s = bit_or autoip_prefix (bit_and s 0xffff)

abbrev pub wanted : ℕ → ℕ → Bool
wanted addr taken = leb autoip_first addr && leb addr autoip_last && not (addr == taken)

-- What is done to the last draw when no draw was wanted.
pub fold : ℕ → ℕ → ℕ
fold addr taken =
    let raised = if ltb addr autoip_first then u32 (addr + address_span) else addr in
    let lowered = if ltb autoip_last raised then raised - address_span else raised in
    if lowered == taken
    then (if lowered == autoip_last then autoip_first else u32 (lowered + 1))
    else lowered

-- The draws that are left, after the one that gave `addr`.
abbrev pub draws : ℕ → ℕ → ℕ → ℕ → Drawn
draws zero s addr taken = record { seed = s; ipaddr = fold addr taken }
draws (suc n) s addr taken =
    let stepped = next s in
    let drawn = candidate stepped in
    let rest = draws n stepped drawn taken in
    if wanted drawn taken then record { seed = stepped; ipaddr = drawn } else rest

pub draw : ℕ → ℕ → Drawn
draw s taken = draws draw_tries s 0 taken

pub select : Ctx → ℕ → Ctx
select c rand =
    let drawn = draw (next (bit_xor c.seed rand)) c.ipaddr in
    record c {
      seed = drawn.seed;
      ipaddr = drawn.ipaddr;
      tried = if ltb c.tried count_max then u8 (c.tried + 1) else c.tried;
      held = false;
      deadline_ms = 0;
    }

-- `autoip_advance`: the context, and whether a candidate is ready.
pub record Advanced : Type 0 where
  pub ctx : Ctx
  pub has_candidate : Bool

pub advance : Ctx → ℕ → ℕ → Advanced
advance c rand now =
    if ltb acd_max_conflicts c.conflicts
    then record {
      ctx = record c { held = true; deadline_ms = u32 (now + acd_rate_limit_interval_ms) };
      has_candidate = false;
    }
    else record { ctx = select c rand; has_candidate = true }

pub due : ℕ → ℕ → Bool
due now deadline = ltb (sub32 now deadline) 0x8000_0000

abbrev pub is_off : State → Bool
is_off off = true
is_off _ = false

abbrev pub mask_in : State → ℕ
mask_in bound = autoip_netmask
mask_in _ = 0

abbrev pub report : Borrow → Borrow
report w = record w {
  io = record (w.io) {
    ipaddr = if is_off w.ctx.state || w.ctx.held then 0 else w.ctx.ipaddr;
    netmask = mask_in w.ctx.state;
    deadline_ms = w.ctx.deadline_ms;
    state = w.ctx.state;
    tried = w.ctx.tried;
  };
}

abbrev pub status : Status → Borrow → Borrow
status s w = record w { io = record (w.io) { status = s } }

-- What every entry but `clear` does before its checks.
abbrev pub enter : Borrow → Borrow
enter w = record w { io = record (w.io) { status = err; claim = false } }

-- The end of an entry that drew or held: the context, and whether there is a candidate to claim.
abbrev pub claim : Borrow → Advanced → Borrow
claim w a =
    let told = report (record w { ctx = a.ctx }) in
    record told {
      io = record (told.io) {
        claim = a.has_candidate;
        status = if a.has_candidate then ok else busy;
      };
    }

abbrev pub zero_ctx : Ctx
zero_ctx = record {
  ready = 0;
  ipaddr = 0;
  deadline_ms = 0;
  seed = 0;
  state = off;
  tried = 0;
  conflicts = 0;
  held = false;
}

pub clear : Borrow → Borrow
clear w = status ok (record w { ctx = record zero_ctx { ready = ready_mark } })

-- The start of an interface that is off.
pub begin : Ctx → Octets → ℕ → ℕ → Advanced
begin c mac rand now =
    let seeded = record c { seed = seed mac rand; state = checking } in
    if c.held || ltb c.ipaddr autoip_first || ltb autoip_last c.ipaddr
    then advance seeded 0 now
    else record { ctx = seeded; has_candidate = true }

abbrev pub start_with : Option Octets → Borrow → ℕ → ℕ → Borrow
start_with none w rand now = w
start_with (some mac) w rand now =
    if is_ready w
    then (if is_off w.ctx.state
        then claim w (begin w.ctx mac rand now)
        else status (if w.ctx.held then busy else ok) (report w))
    else w

pub start : Borrow → Option Octets → ℕ → ℕ → Borrow
start w mac rand now = start_with mac (enter w) rand now

-- A conflict, counted.
abbrev pub struck : Ctx → Ctx
struck c = record c {
  conflicts = if ltb c.conflicts count_max then u8 (c.conflicts + 1) else c.conflicts;
  state = checking;
}

pub conflict : Borrow → ℕ → ℕ → Borrow
conflict w rand now =
    let e = enter w in
    if not (is_ready e) || is_off e.ctx.state || e.ctx.held
    then e
    else claim e (advance (struck e.ctx) rand now)

pub bind : Borrow → Borrow
bind w =
    let e = enter w in
    if not (is_ready e) || is_off e.ctx.state || e.ctx.held
    then e
    else status ok (
        report
          (record e { ctx = record (e.ctx) { state = bound; conflicts = 0; deadline_ms = 0 } }))

pub stop : Borrow → Borrow
stop w =
    let e = enter w in
    if is_ready e then status ok (report (record e { ctx = record (e.ctx) { state = off } })) else e

pub tick : Borrow → ℕ → ℕ → Borrow
tick w now rand =
    let e = enter w in
    if not (is_ready e)
    then e
    else if is_off e.ctx.state || not e.ctx.held
    then status ok (report e)
    else if due now e.ctx.deadline_ms
    then claim e (record { ctx = select e.ctx rand; has_candidate = true })
    else status busy (report e)
