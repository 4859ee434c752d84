-- ===== src/Ip4Route/Entries/Lookup.antt =====
-- What a lookup in src/ip/ip4_route.c reports.
use idem_ip.Base.{ℕ, ◌≤◌, ◌≡◌, refl, ◌⊎◌, inl, inr, true, false, not, length, arith}
use idem_ip.Base.{if◌then◌else◌, ◌==◌}
use idem_ip.Config.{ok, busy}
use idem_ip.Ip4Route.{at, best, is_gateway, index_none}
use idem_ip.Ip4Route.Choice.{Chosen, NoneLeft, Outcome, best_lem}
use idem_ip.Ip4Route.Entries.{Borrow, lookup}

-- In a cleared borrow of at most 255 rows, a lookup either is OK and reports the row that the
-- rules choose, its interface and path MTU, the gateway as the next hop where the row goes through
-- one and the destination itself where it does not; or it is BUSY, when the rules leave no row,
-- and says whether that is for the type of service alone.
pub lookup_routes :
    (w : Borrow) (dst tos : ℕ)
    → w.ready ≡ true
    → length w.tab ≤ index_none
    → (((lookup w dst tos).io.status ≡ ok)
        × Chosen w.tab dst tos (lookup w dst tos).io.index
        × ((lookup w dst tos).io.next_hop ≡ (
            if is_gateway (at w.tab (lookup w dst tos).io.index).flags
            then (at w.tab (lookup w dst tos).io.index).gw
            else dst))
        × ((lookup w dst tos).io.netif ≡ (at w.tab (lookup w dst tos).io.index).netif)
        × ((lookup w dst tos).io.pmtu ≡ (at w.tab (lookup w dst tos).io.index).pmtu)
        × ((lookup w dst tos).io.direct
            ≡ not (is_gateway (at w.tab (lookup w dst tos).io.index).flags)))
      ⊎ (((lookup w dst tos).io.status ≡ busy)
          × NoneLeft w.tab dst tos (lookup w dst tos).io.tos_blocked)
unfolding lookup Outcome
lookup_routes w dst tos r l = elim (best_lem w.tab dst tos l) [
  | inl p ↦
      let found : (best w.tab dst tos).index == index_none ≡ false = ground (arith, p.0) in
      rw (lookup, r, found) (inl (refl, p.1, ground arith, refl, refl, refl))
  | inr p ↦
      let missing : (best w.tab dst tos).index == index_none ≡ true = ground (arith, p.0) in
      rw (lookup, r, missing) (inr (refl, p.1))
]
