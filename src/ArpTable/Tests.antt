-- ===== src/ArpTable/Tests.antt =====
-- The ARP table at small inputs.
use idem_ip.Base.{ℕ, ◌≡◌, ◌≢◌, refl, [], ◌∷◌, none, some, true, false, arith}
use idem_ip.Base.{replicate, take}
use idem_ip.Config.{ok, busy}
use idem_ip.Endian.{Octets, rd16, rd32}
use idem_ip.Arp.Packet
use idem_ip.Arp.Packet.{is_ethernet_ipv4, hrd, pro, hln, pln, mac_len, is_target}
use idem_ip.ArpTable.{Row, zero_row, zero_hold, row_empty, row_pending}
use idem_ip.ArpTable.{
  learn, is_group, row_find, row_take, free_slot, write_learned, row_open, expire_holds,
  expire_from, expire_hold, is_asking,
}
use idem_ip.ArpTable.{index_none, has_key, row_at, age_rows, pro_ipv4}
use idem_ip.ArpTable.Rows.{Aged, age_rows-Aged}
use idem_ip.ArpTable.Entries.{
  is_learned, in_conflict, learn_sender, is_ours, tick_report, first_reclaim, settle, expire, sweep,
  first_asking, report_request, Borrow, Io, add, find, input, tick,
}
use idem_ip.ArpTable.Entries.Find.{add-find, input-find, input_own}
use idem_ip.ArpTable.Entries.Tick.{ticks, requests_apart}

abbrev peer_mac : Octets
peer_mac = 2 ∷ 0 ∷ 0 ∷ 0 ∷ 0 ∷ 9 ∷ []

abbrev peer : ℕ
peer = 0xc0a8_0009

abbrev ours : ℕ
ours = 0xc0a8_0007

-- A request from 192.168.0.9 for 192.168.0.7.
abbrev request : Octets
request =
    0 ∷ 1 ∷ 8 ∷ 0 ∷ 6 ∷ 4 ∷ 0 ∷ 1 ∷ 2 ∷ 0 ∷ 0 ∷ 0 ∷ 0 ∷ 9 ∷ 192 ∷ 168 ∷ 0 ∷ 9 ∷ 0 ∷ 0 ∷ 0 ∷ 0 ∷ 0
    ∷ 0 ∷ 192 ∷ 168 ∷ 0 ∷ 7 ∷ []

abbrev io : Io
io = record {
  mac = none;
  ip = 0;
  desc = 0;
  len = 0;
  status = busy;
  state = row_empty;
  index = 0;
  netif = 0;
  merged = false;
  reply_owed = false;
  conflict = false;
}

abbrev pending_row : Row
pending_row = record zero_row {
  pro = pro_ipv4;
  spa = peer;
  used_ms = 500;
  state = row_pending;
  pending = index_none;
}

abbrev own_row : Row
own_row = record pending_row { spa = ours }

abbrev start : Borrow
start = record {
  io = io;
  ready = true;
  tick_ms = 400;
  held = 0;
  tabs = record { rows = pending_row ∷ replicate 3 zero_row; holds = replicate 2 zero_hold };
}

abbrev with_own : Borrow
with_own = record start {
  tabs = record { rows = own_row ∷ replicate 3 zero_row; holds = replicate 2 zero_hold };
}

add_done : (add start pro_ipv4 peer (some peer_mac) 1 900).io.status ≡ ok
unfolding add learn is_group row_find has_key
add_done = refl

request_is_arp : is_ethernet_ipv4 request ≡ true
unfolding is_ethernet_ipv4 hrd pro hln pln rd16
request_is_arp = refl

request-is_learned : is_learned request ours ≡ true
unfolding is_learned Packet.spa rd32 in_conflict
request-is_learned = refl

input_row : (input start (some request) ours 1 900).io.index ≡ 0
unfolding input is_ethernet_ipv4 hrd rd16 pro hln pln is_learned Packet.spa rd32 in_conflict
    learn_sender learn is_group Packet.sha row_find has_key
input_row = refl

own_after : has_key pro_ipv4 ours (row_at (input with_own (some request) ours 1 900).tabs 0) ≡ true
unfolding input is_ethernet_ipv4 hrd rd16 pro hln pln is_learned Packet.spa rd32 in_conflict
    learn_sender learn is_group Packet.sha row_find has_key Packet.tpa is_ours row_take is_target
    free_slot write_learned row_open
own_after = refl

tick_row : (tick start 900).io.index ≡ 0
unfolding tick tick_report first_reclaim settle expire expire_holds expire_from sweep expire_hold
    first_asking is_asking report_request
tick_row = refl

add-find_example :
    ((find (add start pro_ipv4 peer (some peer_mac) 1 900) pro_ipv4 peer).io.status ≡ ok)
    × ((find (add start pro_ipv4 peer (some peer_mac) 1 900) pro_ipv4 peer).io.mac
        ≡ some (take mac_len peer_mac))
    × ((find (add start pro_ipv4 peer (some peer_mac) 1 900) pro_ipv4 peer).io.netif ≡ 1)
    × ((find (add start pro_ipv4 peer (some peer_mac) 1 900) pro_ipv4 peer).io.index
        ≡ (add start pro_ipv4 peer (some peer_mac) 1 900).io.index)
add-find_example = add-find start peer peer_mac 1 900 (omega arith) add_done

input-find_example :
    ((find (input start (some request) ours 1 900) pro_ipv4 (Packet.spa request)).io.status ≡ ok)
    × ((find (input start (some request) ours 1 900) pro_ipv4 (Packet.spa request)).io.mac
        ≡ some (take mac_len (Packet.sha request)))
    × ((find (input start (some request) ours 1 900) pro_ipv4 (Packet.spa request)).io.netif ≡ 1)
    × ((find (input start (some request) ours 1 900) pro_ipv4 (Packet.spa request)).io.index
        ≡ (input start (some request) ours 1 900).io.index)
input-find_example =
    input-find start request ours 1 900 (omega arith) refl request_is_arp request-is_learned
      (omega (arith, input_row))

input_own_example : has_key pro_ipv4 ours (row_at with_own.tabs 0) ≡ true
input_own_example =
    input_own with_own request ours 1 900 pro_ipv4 0 (omega arith) (omega arith) own_after

requests_apart_example :
    (tick (ticks (1700 ∷ []) (tick start 900)) 1800).io.index ≢ (tick start 900).io.index
requests_apart_example =
    requests_apart start 900 1800 (1700 ∷ []) (omega arith) (omega (arith, tick_row))
      (omega arith, tt) (omega arith)

age_rows-Aged_example : Aged (row_at start.tabs 0) (row_at (age_rows start.tabs 6000) 0) 6000
age_rows-Aged_example = age_rows-Aged start.tabs 6000 0 (omega arith)
