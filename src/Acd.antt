-- ===== src/Acd.antt =====
-- src/acd/acd.c: address conflict detection (RFC 5227) over one address. An entry takes the borrow,
-- its context and the results it last reported, and the operands that the caller wrote for it; it
-- returns the borrow. A pointer operand is an `Option`, `none` for NULL; what it points to is read
-- when it is handed over. `packet` has the octets of a whole ARP packet.
pub mod Invariant
pub mod Timing
pub mod Conflicts
pub mod RateLimit
mod Tests
pub mod Schedule
use idem_ip.Base.{
  ℕ, ◌+◌, ◌-◌, ◌*◌, ◌/◌, ◌%◌, ◌^◌, Bool, true, false, not, ◌&&◌, ◌||◌, bit_and, [], Option, none,
  some,
}
use idem_ip.Base.{ltb, leb, ◌==◌, if◌then◌else◌, u8, u32, sub32, ◌>>>◌}
use idem_ip.Endian.{Octets}
use idem_ip.Host.{Width}
use idem_ip.Span.{bytes_eq}
use idem_ip.Arp.Packet.{spa, tpa, sha, is_request, is_reply, is_ethernet_ipv4, mac_len}
use idem_ip.Config.{Status, ok, busy, err, acd_probe_wait_ms, acd_probe_num, acd_probe_min_ms}
use idem_ip.Config.{acd_probe_max_ms, acd_announce_wait_ms, acd_announce_num}
use idem_ip.Config.{acd_announce_interval_ms, acd_max_conflicts, acd_rate_limit_interval_ms}
use idem_ip.Config.{acd_defend_interval_ms}

-- `IdemIpAcdState`
pub data State : Type 0 where
  off probe_wait probing announce_wait announcing ongoing rate_limit : State

-- `IdemIpAcdDefense`. The operand is an octet, which may hold a value above the last.
abbrev pub defend_never : ℕ
defend_never = 0

abbrev pub defend_once : ℕ
defend_once = 1

abbrev pub defend_always : ℕ
defend_always = 2

abbrev pub ready_mark : ℕ
ready_mark = 0x4143_4431

abbrev pub conflicts_max : ℕ
conflicts_max = 0xff

-- `AcdCtx`
pub record Ctx : Type 0 where
  pub ready : ℕ
  pub ipaddr : ℕ
  pub deadline_ms : ℕ
  pub last_defend_ms : ℕ
  pub next_claim_ms : ℕ
  pub mac : Octets
  pub state : State
  pub defense : ℕ
  pub sent : ℕ
  pub conflicts : ℕ
  pub defended : Bool

-- The results of `AcdIo`.
pub record Io : Type 0 where
  pub status : Status
  pub ipaddr : ℕ
  pub deadline_ms : ℕ
  pub state : State
  pub sent : ℕ
  pub conflicts : ℕ
  pub send_probe : Bool
  pub send_announce : Bool
  pub conflict : Bool
  pub abandon : Bool

pub record Borrow : Type 0 where
  pub io : Io
  pub ctx : Ctx

pub is_ready : Borrow → Bool
is_ready w = w.ctx.ready == ready_mark

pub due : ℕ → ℕ → Bool
due now deadline = ltb (sub32 now deadline) 0x8000_0000

pub draw : ℕ → ℕ → ℕ
draw rand span = u32 (bit_and rand 0xffff * (span + 1)) >>> 16

abbrev pub publish : Borrow → Borrow
publish w = record w {
  io = record (w.io) {
    ipaddr = w.ctx.ipaddr;
    deadline_ms = w.ctx.deadline_ms;
    state = w.ctx.state;
    sent = w.ctx.sent;
    conflicts = w.ctx.conflicts;
  };
}

abbrev pub report : Status → Borrow → Borrow
report s w = record w { io = record (w.io) { status = s } }

abbrev pub clear_results : Io → Io
clear_results io = record io {
  send_probe = false;
  send_announce = false;
  conflict = false;
  abandon = false;
}

-- What every entry does before its checks.
abbrev pub enter : Borrow → Borrow
enter w = report err (record w { io = clear_results w.io })

pub count_conflict : Ctx → ℕ → Ctx
count_conflict c now =
    let n = if ltb c.conflicts conflicts_max then c.conflicts + 1 else c.conflicts in
    record c {
      conflicts = n;
      next_claim_ms =
          if leb acd_max_conflicts n
          then u32 (now + acd_rate_limit_interval_ms)
          else c.next_claim_ms;
    }

pub abandon : Borrow → ℕ → Borrow
abandon w now =
    let c = count_conflict w.ctx now in
    let limited = leb acd_max_conflicts c.conflicts in
    record w {
      io = record (w.io) { abandon = true };
      ctx = record c {
        ipaddr = 0;
        sent = 0;
        defended = false;
        last_defend_ms = 0;
        state = if limited then rate_limit else off;
        deadline_ms = if limited then u32 (now + acd_rate_limit_interval_ms) else 0;
      };
    }

pub send_probe : Borrow → ℕ → ℕ → Borrow
send_probe w now rand =
    let n = u8 (w.ctx.sent + 1) in
    let io = record (w.io) { send_probe = true } in
    if leb acd_probe_num n
    then record {
      io = io;
      ctx = record (w.ctx) {
        state = announce_wait;
        sent = 0;
        deadline_ms = u32 (now + acd_announce_wait_ms);
      };
    }
    else record {
      io = io;
      ctx = record (w.ctx) {
        state = probing;
        sent = n;
        deadline_ms =
            u32 (now + acd_probe_min_ms + draw rand (acd_probe_max_ms - acd_probe_min_ms));
      };
    }

pub send_announce : Borrow → ℕ → Borrow
send_announce w now =
    let n = u8 (w.ctx.sent + 1) in
    let io = record (w.io) { send_announce = true } in
    if leb acd_announce_num n
    then record { io = io; ctx = record (w.ctx) { state = ongoing; sent = 0; deadline_ms = 0 } }
    else record {
      io = io;
      ctx = record (w.ctx) {
        state = announcing;
        sent = n;
        deadline_ms = u32 (now + acd_announce_interval_ms);
      };
    }

-- `acd_fire`: the work of a state whose deadline has come. Before it, the call is BUSY and changes
-- nothing.
abbrev pub when_due : Borrow → ℕ → Borrow → Borrow
when_due w now fired =
    if due now w.ctx.deadline_ms then report ok (publish fired) else report busy w

abbrev pub fire_in : State → Borrow → ℕ → ℕ → Borrow
fire_in probe_wait w now rand = when_due w now (send_probe w now rand)
fire_in probing w now rand = when_due w now (send_probe w now rand)
fire_in announce_wait w now rand = when_due w now (send_announce w now)
fire_in announcing w now rand = when_due w now (send_announce w now)
fire_in rate_limit w now rand =
    when_due w now (record w { ctx = record (w.ctx) { state = off; deadline_ms = 0 } })
fire_in off w now rand = report ok (publish w)
fire_in ongoing w now rand = report ok (publish w)

pub fire : Borrow → ℕ → ℕ → Borrow
fire w now rand = fire_in w.ctx.state w now rand

-- The operands of `start`.
pub record StartArgs : Type 0 where
  pub mac : Option Octets
  pub ipaddr : ℕ
  pub rand : ℕ
  pub now_ms : ℕ
  pub defense : ℕ

pub claim : Borrow → StartArgs → Octets → Borrow
claim w a mac =
    let limited = leb acd_max_conflicts w.ctx.conflicts in
    if limited && not (due a.now_ms w.ctx.next_claim_ms)
    then report busy (publish w)
    else report ok (
        publish (record w {
          ctx = record (w.ctx) {
            next_claim_ms =
                if limited
                then u32 (a.now_ms + acd_rate_limit_interval_ms)
                else w.ctx.next_claim_ms;
            mac = mac;
            ipaddr = a.ipaddr;
            defense = a.defense;
            state = probe_wait;
            sent = 0;
            defended = false;
            last_defend_ms = 0;
            deadline_ms = u32 (a.now_ms + draw a.rand acd_probe_wait_ms);
          };
        }))

abbrev pub stopped_state : State → State
stopped_state rate_limit = rate_limit
stopped_state _ = off

abbrev pub stopped_deadline : State → ℕ → ℕ
stopped_deadline rate_limit d = d
stopped_deadline _ d = 0

pub cease : Borrow → Borrow
cease w = report ok (
    publish (record w {
      ctx = record (w.ctx) {
        ipaddr = 0;
        sent = 0;
        defended = false;
        last_defend_ms = 0;
        state = stopped_state w.ctx.state;
        deadline_ms = stopped_deadline w.ctx.state w.ctx.deadline_ms;
      };
    }))

module _ (little : Bool) (wd : Width) where
  -- The sender's hardware address is this interface's.
  pub own_mac : Ctx → Octets → Bool
  own_mac c packet = bytes_eq little wd (sha packet) c.mac mac_len

  pub probe_conflict : Ctx → Octets → Bool
  probe_conflict c packet =
      spa packet == c.ipaddr
      || is_request packet && spa packet == 0 && tpa packet == c.ipaddr && not (own_mac c packet)

  pub ongoing_conflict : Ctx → Octets → Bool
  ongoing_conflict c packet = spa packet == c.ipaddr && not (own_mac c packet)

pub is_recent : Ctx → ℕ → Bool
is_recent c now = c.defended && ltb (sub32 now c.last_defend_ms) acd_defend_interval_ms

pub defend : Borrow → ℕ → Borrow
defend w now =
    if w.ctx.defense == defend_never
    then abandon w now
    else if is_recent w.ctx now
    then (if w.ctx.defense == defend_once
        then abandon w now
        else record w { ctx = count_conflict w.ctx now })
    else record {
      io = record (w.io) { send_announce = true };
      ctx = count_conflict (record (w.ctx) { last_defend_ms = now; defended = true }) now;
    }

abbrev pub mark_conflict : Borrow → Borrow
mark_conflict w = record w { io = record (w.io) { conflict = true } }

module _ (little : Bool) (wd : Width) where
  -- The test and the answer of each state.
  abbrev pub receive_in : State → Borrow → Octets → ℕ → Borrow
  receive_in probe_wait w packet now =
      if probe_conflict little wd w.ctx packet then abandon (mark_conflict w) now else w
  receive_in probing w packet now =
      if probe_conflict little wd w.ctx packet then abandon (mark_conflict w) now else w
  receive_in announce_wait w packet now =
      if probe_conflict little wd w.ctx packet then abandon (mark_conflict w) now else w
  receive_in announcing w packet now =
      if ongoing_conflict little wd w.ctx packet then defend (mark_conflict w) now else w
  receive_in ongoing w packet now =
      if ongoing_conflict little wd w.ctx packet then defend (mark_conflict w) now else w
  receive_in off w packet now = w
  receive_in rate_limit w packet now = w

  pub receive : Borrow → Octets → ℕ → Borrow
  receive w packet now =
      if is_ethernet_ipv4 packet
      then report ok (
          publish (
            if is_request packet || is_reply packet
            then receive_in w.ctx.state w packet now
            else w))
      else w

-- A zeroed context.
abbrev pub zero_ctx : Ctx
zero_ctx = record {
  ready = 0;
  ipaddr = 0;
  deadline_ms = 0;
  last_defend_ms = 0;
  next_claim_ms = 0;
  mac = [];
  state = off;
  defense = 0;
  sent = 0;
  conflicts = 0;
  defended = false;
}

pub clear : Borrow → Borrow
clear w = report ok (record w { ctx = record zero_ctx { ready = ready_mark } })

abbrev pub start_with : Option Octets → Borrow → StartArgs → Borrow
start_with none w a = w
start_with (some mac) w a =
    if not (is_ready w) || a.ipaddr == 0 || ltb defend_always a.defense then w else claim w a mac

pub start : Borrow → StartArgs → Borrow
start w a = start_with a.mac (enter w) a

pub stop : Borrow → Borrow
stop w = let e = enter w in if is_ready e then cease e else e

pub tick : Borrow → ℕ → ℕ → Borrow
tick w now rand = let e = enter w in if is_ready e then fire e now rand else e

module _ (little : Bool) (wd : Width) where
  abbrev pub arp_in_with : Option Octets → Borrow → ℕ → Borrow
  arp_in_with none w now = w
  arp_in_with (some packet) w now = if is_ready w then receive little wd w packet now else w

  pub arp_in : Borrow → Option Octets → ℕ → Borrow
  arp_in w packet now = arp_in_with packet (enter w) now
