-- ===== src/Ip4Route/Entries.antt =====
-- src/ip/ip4_route.c: the entries of the IPv4 routing table. The borrow is the results of
-- `Ip4RouteIo`, the context with its mark as whether `clear` has set it, and the rows; what the
-- caller puts in the operand block is an argument of the entry that reads it.
pub mod Rows
pub mod Invariant
pub mod Lookup
use idem_ip.Base.{ℕ, ◌+◌, Bool, true, false, not, ◌&&◌, ◌||◌, bit_and, bit_or, List, [], ◌∷◌}
use idem_ip.Base.{ltb, ◌==◌, if◌then◌else◌, length, set, replicate, sub32, u8}
use idem_ip.Config.{Status, ok, busy, err}
use idem_ip.Ip4Addr.{mask_ones, mask_contiguous}
use idem_ip.Ip4Route.{Entry, at, is_gateway, find_key, find_free, Best, best, free_entry}
use idem_ip.Ip4Route.{
  index_none, mask_host, tos_default, f_gateway, f_static, f_redirect_ok, f_host,
}

abbrev pub min_forward_mtu : ℕ
min_forward_mtu = 68

abbrev pub pmtu_sweep_ms : ℕ
pmtu_sweep_ms = 60000

abbrev pub pmtu_timeout_ms : ℕ
pmtu_timeout_ms = 600000

-- The results of `Ip4RouteIo`.
pub record Io : Type 0 where
  pub next_hop : ℕ
  pub pmtu : ℕ
  pub status : Status
  pub index : ℕ
  pub netif : ℕ
  pub direct : Bool
  pub tos_blocked : Bool

-- `Ip4RouteCtx`, and the rows after it.
pub record Borrow : Type 0 where
  pub io : Io
  pub ready : Bool
  pub tick_ms : ℕ
  pub tab : List Entry

-- `Ip4RouteAddArgs`
pub record AddArgs : Type 0 where
  pub dst : ℕ
  pub mask : ℕ
  pub gw : ℕ
  pub metric : ℕ
  pub netif : ℕ
  pub tos : ℕ
  pub flags : ℕ

pub clear : Borrow → Borrow
clear w = record w {
  io = record (w.io) { status = ok };
  ready = true;
  tick_ms = 0;
  tab = replicate (length w.tab) free_entry;
}

-- What every entry but clear and lookup sets first.
pub opened : Borrow → Borrow
opened w = record w { io = record (w.io) { status = err; index = index_none } }

abbrev pub report : Status → Borrow → Borrow
report s w = record w { io = record (w.io) { status = s } }

-- The row that an entry has written, and what it reports of it.
pub written : Borrow → ℕ → Entry → Borrow
written w i e = record w {
  io = record (w.io) { index = i; netif = e.netif; status = ok };
  tab = set w.tab i e;
}

pub added_row : AddArgs → Entry
added_row a = record {
  dst = bit_and a.dst a.mask;
  mask = a.mask;
  gw = a.gw;
  pmtu_ms = 0;
  pmtu = 0;
  metric = a.metric;
  netif = a.netif;
  tos = a.tos;
  flags =
      let kept = bit_and a.flags 0xf7 in
      if a.mask == mask_host then u8 (bit_or kept f_host) else kept;
  used = true;
  plen = mask_ones a.mask;
}

pub add_slot : List Entry → AddArgs → ℕ
add_slot tab a =
    let i = find_key tab 0 (bit_and a.dst a.mask) a.mask a.tos a.gw in
    if i == index_none then find_free tab 0 else i

pub add : Borrow → AddArgs → Borrow
add w a =
    let w = opened w in
    let i = add_slot w.tab a in
    if not w.ready || not (mask_contiguous a.mask) || (is_gateway a.flags && a.gw == 0)
    then w
    else if i == index_none
    then report busy w
    else written w i (added_row a)

pub is_removed : Entry → ℕ → ℕ → Bool
is_removed e dst mask = e.used && e.mask == mask && e.dst == dst

pub removed : Entry → ℕ → ℕ → Entry
removed e dst mask = if is_removed e dst mask then free_entry else e

pub remove_rows : List Entry → ℕ → ℕ → List Entry
remove_rows [] dst mask = []
remove_rows (e ∷ es) dst mask = removed e dst mask ∷ remove_rows es dst mask

-- The first row that the loop of `remove` takes.
pub first_removed : List Entry → ℕ → ℕ → ℕ → ℕ
first_removed [] i dst mask = index_none
first_removed (e ∷ es) i dst mask =
    let rest = first_removed es (i + 1) dst mask in if is_removed e dst mask then i else rest

pub remove : Borrow → ℕ → ℕ → Borrow
remove w dst mask =
    let w = opened w in
    let dst = bit_and dst mask in
    let first = first_removed w.tab 0 dst mask in
    if not w.ready || first == index_none then w else record w {
      io = record (w.io) { index = first; status = ok };
      tab = remove_rows w.tab dst mask;
    }

pub lookup : Borrow → ℕ → ℕ → Borrow
lookup w dst tos =
    let io = record (w.io) {
      status = err;
      next_hop = 0;
      pmtu = 0;
      netif = 0;
      direct = false;
      tos_blocked = false;
      index = index_none;
    } in
    let b = best w.tab dst tos in
    let e = at w.tab b.index in
    let direct = not (is_gateway e.flags) in
    if not w.ready
    then record w { io = io }
    else if b.index == index_none
    then record w { io = record io { tos_blocked = b.matched; direct = b.direct; status = busy } }
    else record w {
      io = record io {
        index = b.index;
        netif = e.netif;
        pmtu = e.pmtu;
        direct = direct;
        next_hop = if direct then dst else e.gw;
        status = ok;
      };
    }

-- `ip4_route_derive_host`
pub derive_host : Entry → ℕ → Entry
derive_host from dst = record {
  dst = dst;
  mask = mask_host;
  gw = from.gw;
  pmtu_ms = 0;
  pmtu = 0;
  metric = from.metric;
  netif = from.netif;
  tos = tos_default;
  flags = u8 (bit_or (bit_and from.flags f_gateway) f_host);
  used = true;
  plen = mask_ones mask_host;
}

-- The row of the host: the one that routes the destination where it names the whole address, else a
-- free one, derived from it.
pub record HostRow : Type 0 where
  pub slot : ℕ
  pub row : Entry

pub host_row : List Entry → ℕ → ℕ → HostRow
host_row tab cur dst =
    let c = at tab cur in
    if c.mask == mask_host
    then record { slot = cur; row = c }
    else record { slot = find_free tab 0; row = derive_host c dst }

pub redirected : Entry → ℕ → Entry
redirected e gw = record e { gw = gw; flags = u8 (bit_or e.flags f_gateway); pmtu = 0; pmtu_ms = 0 }

abbrev pub is_pinned : ℕ → Bool
is_pinned flags = not (bit_and flags f_static == 0) && bit_and flags f_redirect_ok == 0

pub redirect : Borrow → ℕ → ℕ → Borrow
redirect w dst gw =
    let w = opened w in
    let g = (best w.tab gw tos_default).index in
    let cur = (best w.tab dst tos_default).index in
    let h = host_row w.tab cur dst in
    if not w.ready || gw == 0 || g == index_none || is_gateway (at w.tab g).flags
    then w
    else if cur == index_none
    then report busy w
    else if is_pinned (at w.tab cur).flags
    then w
    else if h.slot == index_none
    then report busy w
    else written w h.slot (redirected h.row gw)

pub lowered : Entry → ℕ → ℕ → Entry
lowered e mtu now =
    if e.pmtu == 0 || ltb mtu e.pmtu then record e { pmtu = mtu; pmtu_ms = now } else e

pub set_pmtu : Borrow → ℕ → ℕ → ℕ → Borrow
set_pmtu w dst mtu now =
    let opening = opened w in
    let w = record opening { io = record (opening.io) { pmtu = 0 } } in
    let cur = (best w.tab dst tos_default).index in
    let h = host_row w.tab cur dst in
    let e = lowered h.row mtu now in
    let done = written w h.slot e in
    if not w.ready || ltb mtu min_forward_mtu
    then w
    else if cur == index_none || h.slot == index_none
    then report busy w
    else record done { io = record (done.io) { pmtu = e.pmtu } }

pub is_stale : Entry → ℕ → Bool
is_stale e now = e.used && not (e.pmtu == 0) && not (ltb (sub32 now e.pmtu_ms) pmtu_timeout_ms)

pub freshened : Entry → ℕ → Entry
freshened e now = if is_stale e now then record e { pmtu = 0; pmtu_ms = 0 } else e

pub sweep : List Entry → ℕ → List Entry
sweep [] now = []
sweep (e ∷ es) now = freshened e now ∷ sweep es now

pub first_stale : List Entry → ℕ → ℕ → ℕ
first_stale [] i now = index_none
first_stale (e ∷ es) i now =
    let rest = first_stale es (i + 1) now in if is_stale e now then i else rest

pub tick : Borrow → ℕ → Borrow
tick w now =
    let w = opened w in
    if not w.ready
    then w
    else if ltb (sub32 now w.tick_ms) pmtu_sweep_ms
    then report busy w
    else record w {
      io = record (w.io) { index = first_stale w.tab 0 now; status = ok };
      tick_ms = now;
      tab = sweep w.tab now;
    }
