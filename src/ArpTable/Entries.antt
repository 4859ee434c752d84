-- ===== src/ArpTable/Entries.antt =====
-- src/arp/arp_table.c: the entries. The borrow is the results of `ArpTableIo`, the context with its
-- mark as whether `clear` has set it, and the two tables. What the caller puts in the operand block
-- is an argument of the entry that reads it, a pointer that may be NULL an option; the hardware
-- address that `mac` points at stands for it.
pub mod Find
pub mod Tick
use idem_ip.Base.{ℕ, ◌+◌, ◌-◌, ◌*◌, Bool, true, false, not, ◌&&◌, ◌||◌, List, Option, none, some}
use idem_ip.Base.{ltb, leb, ◌==◌, if◌then◌else◌, length, set, replicate, find_index, sub32, u8, u32}
use idem_ip.Config.{Status, ok, busy, err}
use idem_ip.Endian.{Octets}
use idem_ip.Arp.Packet
use idem_ip.Arp.Packet.{is_ethernet_ipv4, is_target, is_request}
use idem_ip.ArpTable.{RowState, row_empty, row_pending, row_stable, hold_wait, Tables, Learned}
use idem_ip.ArpTable.{
  Row, Hold, zero_row, zero_hold, index_none, pro_ipv4, maxpending_ms, is_stable,
}
use idem_ip.ArpTable.{
  is_pending, is_reclaim, row_at, hold_at, put_row, row_find, row_free, row_take,
}
use idem_ip.ArpTable.{row_open, learn, hold_free, hold_link, hold_unlink, age_rows, expire_holds}
use idem_ip.ArpTable.{is_asking, asked, Taken}

abbrev pub frame_max : ℕ
frame_max = 14 + 1500

abbrev pub tmr_interval_ms : ℕ
tmr_interval_ms = 1000

-- The results of `ArpTableIo`.
pub record Io : Type 0 where
  pub mac : Option Octets
  pub ip : ℕ
  pub desc : ℕ
  pub len : ℕ
  pub status : Status
  pub state : RowState
  pub index : ℕ
  pub netif : ℕ
  pub merged : Bool
  pub reply_owed : Bool
  pub conflict : Bool

-- `ArpCtx`, and the tables behind it.
pub record Borrow : Type 0 where
  pub io : Io
  pub ready : Bool
  pub tick_ms : ℕ
  pub held : ℕ
  pub tabs : Tables

abbrev pub report : Status → Borrow → Borrow
report s w = record w { io = record (w.io) { status = s } }

unfoldable pub clear : Borrow → Borrow
clear w = record {
  io = record (w.io) { status = ok };
  ready = true;
  tick_ms = 0;
  held = 0;
  tabs = record {
    rows = replicate (length w.tabs.rows) zero_row;
    holds = replicate (length w.tabs.holds) zero_hold;
  };
}

abbrev pub is_keyed : ℕ → ℕ → Bool
is_keyed pro spa = pro == pro_ipv4 && not (spa == 0)

unfoldable pub add : Borrow → ℕ → ℕ → Option Octets → ℕ → ℕ → Borrow
add w pro spa none netif now = record w {
  io = record (w.io) { status = err; index = index_none; merged = false };
}
add w pro spa (some sha) netif now =
    let io = record (w.io) { status = err; index = index_none; merged = false } in
    let l = learn w.tabs pro spa sha netif now true in
    if not w.ready || not (is_keyed pro spa)
    then record w { io = io }
    else if l.slot == index_none
    then record w { io = record io { status = busy }; tabs = l.tabs }
    else record w {
      io = record io {
        index = l.slot;
        state = row_stable;
        netif = (row_at l.tabs l.slot).netif;
        merged = l.merged;
        status = ok;
      };
      tabs = l.tabs;
    }

unfoldable pub find : Borrow → ℕ → ℕ → Borrow
find w pro spa =
    let io = record (w.io) {
      status = err;
      mac = none;
      index = index_none;
      state = row_empty;
      netif = 0;
    } in
    let i = row_find w.tabs pro spa in
    let e = row_at w.tabs i in
    let found = record io { index = i; state = e.state; netif = e.netif } in
    if not w.ready || not (is_keyed pro spa) || i == index_none
    then record w { io = io }
    else if is_pending e.state
    then record w { io = record found { status = busy } }
    else record w { io = record found { mac = some e.sha; status = ok } }

unfoldable pub remove : Borrow → ℕ → ℕ → Borrow
remove w pro spa =
    let io = record (w.io) { status = err; index = index_none } in
    let i = row_find w.tabs pro spa in
    if not w.ready || not (is_keyed pro spa) || i == index_none
    then record w { io = io }
    else record w {
      io = record io { index = i; state = row_empty; status = ok };
      tabs = row_free w.tabs i;
    }

-- What a received packet is to an end with the address `local_pa`.
unfoldable pub is_ours : Octets → ℕ → Bool
is_ours packet local_pa = not (local_pa == 0) && is_target packet local_pa

unfoldable pub in_conflict : Octets → ℕ → Bool
in_conflict packet local_pa = not (local_pa == 0) && Packet.spa packet == local_pa

unfoldable pub is_learned : Octets → ℕ → Bool
is_learned packet local_pa = not (Packet.spa packet == 0) && not (in_conflict packet local_pa)

unfoldable pub owes_reply : Octets → ℕ → Bool
owes_reply packet local_pa =
    is_ours packet local_pa && not (in_conflict packet local_pa) && is_request packet

unfoldable pub learn_sender : Tables → Octets → ℕ → ℕ → Bool → Learned
learn_sender t packet netif now target =
    learn t (Packet.pro packet) (Packet.spa packet) (Packet.sha packet) netif now target

unfoldable pub input : Borrow → Option Octets → ℕ → ℕ → ℕ → Borrow
input w none local_pa netif now = record w {
  io = record (w.io) {
    status = err;
    merged = false;
    reply_owed = false;
    conflict = false;
    index = index_none;
  };
}
input w (some packet) local_pa netif now =
    let io = record (w.io) {
      status = err;
      merged = false;
      reply_owed = false;
      conflict = false;
      index = index_none;
    } in
    let ended = record io {
      conflict = in_conflict packet local_pa;
      reply_owed = owes_reply packet local_pa;
      status = ok;
    } in
    let l = learn_sender w.tabs packet netif now (is_ours packet local_pa) in
    let noted = record ended { merged = l.merged; index = l.slot } in
    if not w.ready || not (is_ethernet_ipv4 packet)
    then record w { io = io }
    else if not (is_learned packet local_pa)
    then record w { io = ended }
    else record w {
      io =
          if l.slot == index_none
          then noted
          else record noted { state = row_stable; netif = netif };
      tabs = l.tabs;
    }

-- The hold that a descriptor is put in, before it is linked.
unfoldable pub held_frame : ℕ → ℕ → ℕ → ℕ → ℕ → Hold → Hold
held_frame ip desc len i now p = record p {
  deadline_ms = u32 (now + maxpending_ms);
  spa = ip;
  desc = desc;
  len = len;
  entry = i;
  state = hold_wait;
}

-- The row that a frame waits on: the one that is there, or a new one that is pending.
unfoldable pub waiting_row : Tables → ℕ → ℕ → ℕ → Taken
waiting_row t ip now i =
    let new = row_take t now in
    let opened = row_open new.tabs new.slot pro_ipv4 ip now in
    let asks = record (row_at opened new.slot) { state = row_pending } in
    if not (i == index_none)
    then record { tabs = t; slot = i }
    else if new.slot == index_none
    then new
    else record { tabs = put_row opened new.slot asks; slot = new.slot }

unfoldable pub queue : Borrow → ℕ → ℕ → ℕ → ℕ → Borrow
queue w ip desc len now =
    let io = record (w.io) { status = err; index = index_none } in
    let i = row_find w.tabs pro_ipv4 ip in
    let h = hold_free w.tabs.holds in
    let on = waiting_row w.tabs ip now i in
    let p = held_frame ip desc len on.slot now (hold_at on.tabs.holds h) in
    let filled = record (on.tabs) { holds = set on.tabs.holds h p } in
    if not w.ready || ip == 0 || len == 0 || ltb frame_max len
    then record w { io = io }
    else if not (i == index_none) && is_stable (row_at w.tabs i).state
    then record w { io = record io { index = i; state = row_stable } }
    else if h == index_none || leb (length w.tabs.holds) w.held
    then record w { io = record io { status = busy } }
    else if on.slot == index_none
    then record w { io = record io { status = busy }; tabs = on.tabs }
    else record w {
      io = record io { index = on.slot; state = row_pending; status = ok };
      held = u8 (w.held + 1);
      tabs = hold_link filled on.slot h;
    }

unfoldable pub is_resolved : Row → Bool
is_resolved e = is_stable e.state && not (e.pending == index_none)

unfoldable pub dequeue : Borrow → Borrow
dequeue w =
    let io = record (w.io) { status = err; desc = 0; len = 0; index = index_none } in
    let i = find_index is_resolved index_none w.tabs.rows 0 in
    let e = row_at w.tabs i in
    let off = hold_unlink w.tabs i e.pending in
    let p = hold_at off.holds e.pending in
    if not w.ready
    then record w { io = io }
    else if i == index_none
    then record w { io = record io { status = busy } }
    else record w {
      io = record io {
        desc = p.desc;
        len = p.len;
        ip = p.spa;
        index = i;
        state = row_stable;
        netif = e.netif;
        mac = some e.sha;
        status = ok;
      };
      held = w.held - 1;
      tabs = record off { holds = set off.holds e.pending zero_hold };
    }

-- `arp_report_reclaim` and `arp_report_request`, where there is one to report.
unfoldable pub report_reclaim : Borrow → ℕ → Borrow
report_reclaim w h =
    let p = hold_at w.tabs.holds h in
    record w {
      io = record (w.io) { desc = p.desc; len = p.len; ip = p.spa; status = ok };
      held = w.held - 1;
      tabs = record (w.tabs) { holds = set w.tabs.holds h zero_hold };
    }

unfoldable pub report_request : Borrow → ℕ → ℕ → Borrow
report_request w i now =
    let e = row_at w.tabs i in
    record w {
      io = record (w.io) {
        ip = e.spa;
        index = i;
        state = row_pending;
        netif = e.netif;
        status = ok;
      };
      tabs = put_row w.tabs i (asked e now);
    }

-- The sweep of the rows, where one is due.
unfoldable pub sweep : Borrow → ℕ → Borrow
sweep w now =
    if w.tick_ms == 0 || leb tmr_interval_ms (sub32 now w.tick_ms)
    then record w { tick_ms = now; tabs = age_rows w.tabs now }
    else w

unfoldable pub expire : Borrow → ℕ → Borrow
expire w now = record w { tabs = expire_holds w.tabs now }

abbrev pub tick_opened : Borrow → Borrow
tick_opened w = record w {
  io = record (w.io) { status = err; ip = 0; desc = 0; len = 0; index = index_none };
}

-- What a tick does before it reports.
unfoldable pub settle : Borrow → ℕ → Borrow
settle w now = expire (sweep (tick_opened w) now) now

unfoldable pub first_reclaim : Tables → ℕ
first_reclaim t = find_index (λ p. is_reclaim p.state) index_none t.holds 0

unfoldable pub first_asking : Tables → ℕ → ℕ
first_asking t now = find_index (is_asking now) index_none t.rows 0

-- What a tick reports, one thing at a time.
unfoldable pub tick_report : Borrow → ℕ → Borrow
tick_report s now =
    if not (first_reclaim s.tabs == index_none)
    then report_reclaim s (first_reclaim s.tabs)
    else if not (first_asking s.tabs now == index_none)
    then report_request s (first_asking s.tabs now) now
    else report busy s

unfoldable pub tick : Borrow → ℕ → Borrow
tick w now = if not w.ready then tick_opened w else tick_report (settle w now) now
