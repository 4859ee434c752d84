-- ===== src/ArpTable.antt =====
-- src/arp/arp_table.c: the rows and the holds of the ARP table, and what its entries do to them. The
-- lengths of the two arrays stand for IDEMIP_ARP_ENTRIES and IDEMIP_ARP_PENDING, each below
-- IDEMIP_ARP_INDEX_NONE. A walk along a row's list is a recursion on the bound that its loop counts
-- to, and a loop that looks for the first entry of an array is `find_index`.
pub mod Learn
pub mod Rows
pub mod Entries
mod Tests
use idem_ip.Base.{ℕ, zero, suc, ◌+◌, ◌*◌, ◌^◌, Bool, true, false, not, ◌&&◌, ◌||◌, List, [], ◌∷◌}
use idem_ip.Base.{ltb, leb, ◌==◌, if◌then◌else◌, get_or, set, length, take, find_index, sub32}
use idem_ip.Base.{bit_and, u32}
use idem_ip.Endian.{Octets, octet}
use idem_ip.Arp.Packet.{mac_len}

-- `IdemIpArpState`
pub data RowState : Type 0 where
  row_empty row_pending row_stable : RowState

-- `ArpHoldState`
pub data HoldState : Type 0 where
  hold_empty hold_wait hold_reclaim : HoldState

-- `ArpEntry`
pub record Row : Type 0 where
  pub spa : ℕ
  pub used_ms : ℕ
  pub req_ms : ℕ
  pub pro : ℕ
  pub sha : Octets
  pub state : RowState
  pub netif : ℕ
  pub pending : ℕ
  pub tries : ℕ

-- `ArpPending`
pub record Hold : Type 0 where
  pub deadline_ms : ℕ
  pub spa : ℕ
  pub desc : ℕ
  pub len : ℕ
  pub entry : ℕ
  pub next : ℕ
  pub state : HoldState

abbrev pub zero_row : Row
zero_row = record {
  spa = 0;
  used_ms = 0;
  req_ms = 0;
  pro = 0;
  sha = [];
  state = row_empty;
  netif = 0;
  pending = 0;
  tries = 0;
}

abbrev pub zero_hold : Hold
zero_hold = record {
  deadline_ms = 0;
  spa = 0;
  desc = 0;
  len = 0;
  entry = 0;
  next = 0;
  state = hold_empty;
}

abbrev pub index_none : ℕ
index_none = 0xff

abbrev pub pro_ipv4 : ℕ
pro_ipv4 = 0x0800

abbrev pub maxage_ms : ℕ
maxage_ms = 300 * 1000

abbrev pub maxpending_ms : ℕ
maxpending_ms = 5 * 1000

abbrev pub request_min_ms : ℕ
request_min_ms = 1000

abbrev pub is_empty : RowState → Bool
is_empty row_empty = true
is_empty row_pending = false
is_empty row_stable = false

abbrev pub is_pending : RowState → Bool
is_pending row_empty = false
is_pending row_pending = true
is_pending row_stable = false

abbrev pub is_stable : RowState → Bool
is_stable row_empty = false
is_stable row_pending = false
is_stable row_stable = true

abbrev pub is_unused : HoldState → Bool
is_unused hold_empty = true
is_unused hold_wait = false
is_unused hold_reclaim = false

abbrev pub is_waiting : HoldState → Bool
is_waiting hold_empty = false
is_waiting hold_wait = true
is_waiting hold_reclaim = false

abbrev pub is_reclaim : HoldState → Bool
is_reclaim hold_empty = false
is_reclaim hold_wait = false
is_reclaim hold_reclaim = true

-- The two tables behind the context.
pub record Tables : Type 0 where
  pub rows : List Row
  pub holds : List Hold

abbrev pub row_at : Tables → ℕ → Row
row_at t i = get_or t.rows i zero_row

abbrev pub hold_at : List Hold → ℕ → Hold
hold_at hs h = get_or hs h zero_hold

abbrev pub put_row : Tables → ℕ → Row → Tables
put_row t i e = record t { rows = set t.rows i e }

-- `arp_due`
pub is_due : ℕ → ℕ → Bool
is_due now deadline = ltb (sub32 now deadline) 0x8000_0000

pub has_key : ℕ → ℕ → Row → Bool
has_key pro spa e = not (is_empty e.state) && e.pro == pro && e.spa == spa

pub row_find : Tables → ℕ → ℕ → ℕ
row_find t pro spa = find_index (has_key pro spa) index_none t.rows 0

-- The walk of `arp_row_free` along the list from hold `h`.
pub release : ℕ → List Hold → ℕ → List Hold
release zero hs h = hs
release (suc n) hs h =
    let p = hold_at hs h in
    let off = record p { entry = index_none; next = index_none; state = hold_reclaim } in
    let rest = release n (set hs h off) p.next in if h == index_none then hs else rest

abbrev pub closed_row : Row
closed_row = record zero_row { pending = index_none }

pub row_free : Tables → ℕ → Tables
row_free t i = record {
  rows = set t.rows i closed_row;
  holds = release (length t.holds) t.holds (row_at t i).pending;
}

-- The walk of `arp_row_take` over the rows that carry no hold.
pub record Oldest : Type 0 where
  pub victim : ℕ
  pub age : ℕ

pub keep_older : Row → ℕ → ℕ → Oldest → Oldest
keep_older e i now o =
    let age = sub32 now e.used_ms in
    if e.pending == index_none && leb o.age age then record { victim = i; age = age } else o

pub oldest : List Row → ℕ → ℕ → Oldest → Oldest
oldest [] i now o = o
oldest (e ∷ es) i now o = oldest es (i + 1) now (keep_older e i now o)

-- `arp_row_take`, with the row that it gives.
pub record Taken : Type 0 where
  pub tabs : Tables
  pub slot : ℕ

pub free_slot : Tables → ℕ
free_slot t = find_index (λ e. is_empty e.state) index_none t.rows 0

pub oldest_slot : Tables → ℕ → ℕ
oldest_slot t now = (oldest t.rows 0 now (record { victim = index_none; age = 0 })).victim

pub row_take : Tables → ℕ → Taken
row_take t now =
    let v = oldest_slot t now in
    if not (free_slot t == index_none)
    then record { tabs = t; slot = free_slot t }
    else if v == index_none
    then record { tabs = t; slot = v }
    else record { tabs = row_free t v; slot = v }

pub opened_row : ℕ → ℕ → ℕ → Row
opened_row pro spa now = record zero_row {
  pro = pro;
  spa = spa;
  used_ms = now;
  pending = index_none;
}

pub row_open : Tables → ℕ → ℕ → ℕ → ℕ → Tables
row_open t i pro spa now = put_row t i (opened_row pro spa now)

-- What `arp_learn` leaves, the row that it reports and the merge flag.
pub record Learned : Type 0 where
  pub tabs : Tables
  pub slot : ℕ
  pub merged : Bool

pub learned_row : Row → Octets → ℕ → ℕ → Row
learned_row e sha netif now = record e {
  sha = take mac_len sha;
  state = row_stable;
  netif = netif;
  used_ms = now;
  req_ms = 0;
  tries = 0;
}

pub write_learned : Tables → ℕ → Octets → ℕ → ℕ → Tables
write_learned t i sha netif now = put_row t i (learned_row (row_at t i) sha netif now)

pub is_group : Octets → Bool
is_group sha = not (bit_and (octet sha 0) 1 == 0)

pub learn : Tables → ℕ → ℕ → Octets → ℕ → ℕ → Bool → Learned
learn t pro spa sha netif now add_absent =
    let i = row_find t pro spa in
    let new = row_take t now in
    let opened = row_open new.tabs new.slot pro spa now in
    if is_group sha
    then record { tabs = t; slot = index_none; merged = false }
    else if not (i == index_none)
    then record { tabs = write_learned t i sha netif now; slot = i; merged = true }
    else if not add_absent
    then record { tabs = t; slot = index_none; merged = false }
    else if new.slot == index_none
    then record { tabs = new.tabs; slot = index_none; merged = false }
    else record {
      tabs = write_learned opened new.slot sha netif now;
      slot = new.slot;
      merged = false;
    }

pub hold_free : List Hold → ℕ
hold_free hs = find_index (λ p. is_unused p.state) index_none hs 0

abbrev pub set_next : List Hold → ℕ → ℕ → List Hold
set_next hs h n = set hs h (record (hold_at hs h) { next = n })

-- The walk of `arp_hold_link` to the tail.
pub link_walk : ℕ → List Hold → ℕ → ℕ → List Hold
link_walk zero hs cur h = hs
link_walk (suc n) hs cur h =
    let p = hold_at hs cur in
    let rest = link_walk n hs p.next h in if p.next == index_none then set_next hs cur h else rest

pub hold_link : Tables → ℕ → ℕ → Tables
hold_link t i h =
    let e = row_at t i in
    let hs = set_next t.holds h index_none in
    if e.pending == index_none
    then record { rows = set t.rows i (record e { pending = h }); holds = hs }
    else record { rows = t.rows; holds = link_walk (length hs) hs e.pending h }

-- The walk of `arp_hold_unlink`, with the hold before the one it stands at.
pub unlink_walk : ℕ → Tables → ℕ → ℕ → ℕ → ℕ → Tables
unlink_walk zero t i h cur prev = t
unlink_walk (suc n) t i h cur prev =
    let p = hold_at t.holds cur in
    let rest = unlink_walk n t i h p.next cur in
    let head = record (row_at t i) { pending = p.next } in
    if cur == index_none
    then t
    else if not (cur == h)
    then rest
    else if prev == index_none
    then record { rows = set t.rows i head; holds = set_next t.holds cur index_none }
    else record { rows = t.rows; holds = set_next (set_next t.holds prev p.next) cur index_none }

pub hold_unlink : Tables → ℕ → ℕ → Tables
hold_unlink t i h = unlink_walk (length t.holds) t i h (row_at t i).pending index_none

pub is_old : Row → ℕ → Bool
is_old e now =
    let age = sub32 now e.used_ms in
    not (is_empty e.state)
    && not (ltb age (if is_pending e.state then maxpending_ms else maxage_ms))

abbrev pub age_row : Tables → ℕ → ℕ → Tables
age_row t i now = if is_old (row_at t i) now then row_free t i else t

-- The rows from `i` on, `n` of them.
pub age_from : ℕ → Tables → ℕ → ℕ → Tables
age_from zero t i now = t
age_from (suc n) t i now = age_from n (age_row t i now) (i + 1) now

pub age_rows : Tables → ℕ → Tables
age_rows t now = age_from (length t.rows) t 0 now

pub expire_hold : Tables → ℕ → ℕ → Tables
expire_hold t h now =
    let p = hold_at t.holds h in
    let off = if p.entry == index_none then t else hold_unlink t p.entry h in
    let q = hold_at off.holds h in
    if not (is_waiting p.state) || not (is_due now p.deadline_ms) then t else record off {
      holds = set off.holds h (record q { entry = index_none; state = hold_reclaim });
    }

pub expire_from : ℕ → Tables → ℕ → ℕ → Tables
expire_from zero t h now = t
expire_from (suc n) t h now = expire_from n (expire_hold t h now) (h + 1) now

pub expire_holds : Tables → ℕ → Tables
expire_holds t now = expire_from (length t.holds) t 0 now

-- A row that `arp_report_request` reports, and what it leaves of it.
pub is_asking : ℕ → Row → Bool
is_asking now e =
    is_pending e.state && (e.tries == 0 || not (ltb (sub32 now e.req_ms) request_min_ms))

pub asked : Row → ℕ → Row
asked e now = record e { req_ms = now; tries = if e.tries == 0xff then 0xff else e.tries + 1 }
