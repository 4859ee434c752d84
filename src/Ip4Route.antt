-- ===== src/Ip4Route.antt =====
-- src/ip/ip4_route.c: the rows of the IPv4 routing table, and the choice of a route among them. The
-- table's length stands for IDEMIP_IP4_ROUTES, at most 255. A loop over the rows is a recursion on the
-- rows that are left, with the index where the row matters.
pub mod Entries
pub mod Passes
pub mod Choice
pub mod Prefix
mod Tests
use idem_ip.Base.{ℕ, ◌+◌, Bool, true, false, not, ◌&&◌, ◌||◌, bit_and, bit_or, List, [], ◌∷◌}
use idem_ip.Base.{ltb, ◌==◌, if◌then◌else◌, get_or}
use idem_ip.Ip4Addr.{mask_ones, mask_contiguous}

-- `Ip4RouteEntry`, its state as whether it is IDEMIP_IP4_ROUTE_USED.
pub record Entry : Type 0 where
  pub dst : ℕ
  pub mask : ℕ
  pub gw : ℕ
  pub pmtu_ms : ℕ
  pub pmtu : ℕ
  pub metric : ℕ
  pub netif : ℕ
  pub tos : ℕ
  pub flags : ℕ
  pub used : Bool
  pub plen : ℕ

abbrev pub free_entry : Entry
free_entry = record {
  dst = 0;
  mask = 0;
  gw = 0;
  pmtu_ms = 0;
  pmtu = 0;
  metric = 0;
  netif = 0;
  tos = 0;
  flags = 0;
  used = false;
  plen = 0;
}

abbrev pub index_none : ℕ
index_none = 0xff

abbrev pub mask_host : ℕ
mask_host = 0xffff_ffff

abbrev pub tos_default : ℕ
tos_default = 0

abbrev pub f_gateway : ℕ
f_gateway = 1

abbrev pub f_static : ℕ
f_static = 2

abbrev pub f_redirect_ok : ℕ
f_redirect_ok = 4

abbrev pub f_host : ℕ
f_host = 8

abbrev pub at : List Entry → ℕ → Entry
at tab i = get_or tab i free_entry

abbrev pub is_gateway : ℕ → Bool
is_gateway flags = not (bit_and flags f_gateway == 0)

-- `ip4_route_find_key` and `ip4_route_find_free`.
pub find_key : List Entry → ℕ → ℕ → ℕ → ℕ → ℕ → ℕ
find_key [] i dst mask tos gw = index_none
find_key (e ∷ es) i dst mask tos gw =
    let rest = find_key es (i + 1) dst mask tos gw in
    if e.used && e.mask == mask && e.dst == bit_and dst mask && e.tos == tos && e.gw == gw
    then i
    else rest

pub find_free : List Entry → ℕ → ℕ
find_free [] i = index_none
find_free (e ∷ es) i = let rest = find_free es (i + 1) in if e.used then rest else i

pub basic_match : Entry → ℕ → Bool
basic_match e dst = e.used && bit_and dst e.mask == e.dst

-- Rules 1 and 2: whether a row matched, and the largest length of those that did.
pub record Longest : Type 0 where
  pub matched : Bool
  pub best_len : ℕ

pub keep_longest : Entry → ℕ → Longest → Longest
keep_longest e dst b =
    if basic_match e dst && (not b.matched || ltb b.best_len e.plen)
    then record { matched = true; best_len = e.plen }
    else b

pub longest : List Entry → ℕ → Longest → Longest
longest [] dst b = b
longest (e ∷ es) dst b = longest es dst (keep_longest e dst b)

-- What rule 2 leaves.
pub survives : Entry → ℕ → ℕ → Bool
survives e dst len = basic_match e dst && e.plen == len

-- The row is left, with the type of service that rule 3 wants.
pub is_left : Entry → ℕ → ℕ → ℕ → Bool
is_left e dst len want = survives e dst len && e.tos == want

-- Rule 3.
pub has_tos : List Entry → ℕ → ℕ → ℕ → Bool → Bool
has_tos [] dst len tos exact = exact
has_tos (e ∷ es) dst len tos exact =
    has_tos es dst len tos (if is_left e dst len tos then true else exact)

-- Rule 4.
pub record Picked : Type 0 where
  pub best : ℕ
  pub best_metric : ℕ

pub keep_better : Entry → ℕ → ℕ → ℕ → ℕ → Picked → Picked
keep_better e i dst len want p =
    if is_left e dst len want && (p.best == index_none || ltb e.metric p.best_metric)
    then record { best = i; best_metric = e.metric }
    else p

pub pick : List Entry → ℕ → ℕ → ℕ → ℕ → Picked → Picked
pick [] i dst len want p = p
pick (e ∷ es) i dst len want p = pick es (i + 1) dst len want (keep_better e i dst len want p)

pub has_direct : List Entry → ℕ → ℕ → Bool → Bool
has_direct [] dst len direct = direct
has_direct (e ∷ es) dst len direct =
    has_direct es dst len (if survives e dst len && not (is_gateway e.flags) then true else direct)

pub wanted : List Entry → ℕ → ℕ → ℕ → ℕ
wanted tab dst len tos = if has_tos tab dst len tos false then tos else tos_default

pub picked : List Entry → ℕ → ℕ → ℕ → ℕ
picked tab dst len want =
    (pick tab 0 dst len want (record { best = index_none; best_metric = 0 })).best

pub longest_of : List Entry → ℕ → Longest
longest_of tab dst = longest tab dst (record { matched = false; best_len = 0 })

-- `ip4_route_best`, with what it leaves in `out`.
pub record Best : Type 0 where
  pub index : ℕ
  pub matched : Bool
  pub direct : Bool

pub best : List Entry → ℕ → ℕ → Best
best tab dst tos =
    let l = longest_of tab dst in
    if l.matched
    then record {
      index = picked tab dst l.best_len (wanted tab dst l.best_len tos);
      matched = true;
      direct = has_direct tab dst l.best_len false;
    }
    else record { index = index_none; matched = false; direct = false }
