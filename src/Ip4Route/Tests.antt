-- ===== src/Ip4Route/Tests.antt =====
-- The routing table at small inputs: a default route, a route of 192.168.1.0/24, and free rows.
use idem_ip.Base.{◌-◌, ◌/◌, ◌^◌, ◌≤◌, ◌≡◌, ◌⊎◌, ◌↔◌, refl, List, [], ◌∷◌, true, false, not, arith}
use idem_ip.Base.{if◌then◌else◌}
use idem_ip.Config.{ok, busy}
use idem_ip.Ip4Addr.{mask_contiguous, mask_ones}
use idem_ip.Ip4Route.{Entry, free_entry, best, at, basic_match, is_gateway}
use idem_ip.Ip4Route.Choice.{Chosen, NoneLeft, Outcome, best_lem}
use idem_ip.Ip4Route.Entries.{Borrow, Io, AddArgs, clear, lookup}
use idem_ip.Ip4Route.Entries.Rows.{row_ok, is_valid}
use idem_ip.Ip4Route.Entries.Invariant.{
  run, run-is_valid, add_call, pmtu_call, redirect_call, tick_call,
}
use idem_ip.Ip4Route.Entries.Invariant.{Call}
use idem_ip.Ip4Route.Entries.Lookup.{lookup_routes}
use idem_ip.Ip4Route.Prefix.{basic_match-leading}

abbrev net_row : Entry
net_row = record free_entry {
  used = true;
  dst = 0xc0a8_0100;
  mask = 0xffff_ff00;
  plen = 24;
  netif = 1;
}

abbrev default_row : Entry
default_row = record free_entry { used = true; gw = 0xc0a8_0101; flags = 1; netif = 1 }

abbrev rows : List Entry
rows = default_row ∷ net_row ∷ free_entry ∷ free_entry ∷ []

abbrev io : Io
io = record {
  next_hop = 0;
  pmtu = 0;
  status = busy;
  index = 0;
  netif = 0;
  direct = false;
  tos_blocked = false;
}

abbrev table : Borrow
table = record { io = io; ready = true; tick_ms = 0; tab = rows }

best_lem_example : Outcome rows 0xc0a8_0105 0 (best rows 0xc0a8_0105 0)
best_lem_example = best_lem rows 0xc0a8_0105 0 (omega arith)

lookup_routes_example :
    (((lookup table 0x0808_0808 0).io.status ≡ ok)
      × Chosen rows 0x0808_0808 0 (lookup table 0x0808_0808 0).io.index
      × ((lookup table 0x0808_0808 0).io.next_hop ≡ (
          if is_gateway (at rows (lookup table 0x0808_0808 0).io.index).flags
          then (at rows (lookup table 0x0808_0808 0).io.index).gw
          else 0x0808_0808))
      × ((lookup table 0x0808_0808 0).io.netif
          ≡ (at rows (lookup table 0x0808_0808 0).io.index).netif)
      × ((lookup table 0x0808_0808 0).io.pmtu
          ≡ (at rows (lookup table 0x0808_0808 0).io.index).pmtu)
      × ((lookup table 0x0808_0808 0).io.direct
          ≡ not (is_gateway (at rows (lookup table 0x0808_0808 0).io.index).flags)))
    ⊎ (((lookup table 0x0808_0808 0).io.status ≡ busy)
        × NoneLeft rows 0x0808_0808 0 (lookup table 0x0808_0808 0).io.tos_blocked)
lookup_routes_example = lookup_routes table 0x0808_0808 0 refl (omega arith)

abbrev net_args : AddArgs
net_args = record {
  dst = 0xc0a8_0117;
  mask = 0xffff_ff00;
  gw = 0;
  metric = 1;
  netif = 1;
  tos = 0;
  flags = 0;
}

abbrev calls : List Call
calls =
    add_call net_args
    ∷ redirect_call 0xc0a8_0105 0xc0a8_0101
    ∷ pmtu_call 0xc0a8_0109 1280 4000
    ∷ tick_call 700000
    ∷ []

run-is_valid_example : is_valid (run calls (clear table)).tab ≡ true
run-is_valid_example =
    run-is_valid calls table (omega arith, (omega arith, (omega arith, (tt, tt)))) (omega arith)

net_row-row_ok : row_ok net_row ≡ true
unfolding row_ok mask_contiguous mask_ones
net_row-row_ok = refl

basic_match-leading_example :
    (24 ≤ 32)
    × ((basic_match net_row 0xc0a8_0105 ≡ true)
        ↔ (0xc0a8_0105 / 2 ^ (32 - 24) ≡ 0xc0a8_0100 / 2 ^ (32 - 24)))
basic_match-leading_example =
    basic_match-leading net_row 0xc0a8_0105 refl net_row-row_ok (omega arith) (omega arith)
      (omega arith)
