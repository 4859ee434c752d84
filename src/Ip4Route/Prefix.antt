-- ===== src/Ip4Route/Prefix.antt =====
-- A row's basic match in src/ip/ip4_route.c, as RFC 1812 sec 5.2.4.3 rule 1 reads it.
use idem_ip.Base.{ℕ, ◌-◌, ◌/◌, ◌^◌, ◌≤◌, ◌<◌, ◌≡◌, ◌↔◌, ◌∙◌, ap, sym, true, bit_and, arith}
use idem_ip.Ip4Addr.Mask.{mask_prefix, prefix_matches}
use idem_ip.Ip4Route.{Entry, basic_match}
use idem_ip.Ip4Route.Entries.Rows.{row_ok, row_ok_prefix}

-- A used row that is in order, with a 32-bit mask and destination, has a length of at most 32, and
-- matches a 32-bit address exactly when the two agree in that many leading bits.
pub basic_match-leading :
    (e : Entry) (addr : ℕ)
    → e.used ≡ true
    → row_ok e ≡ true
    → e.mask < 2 ^ 32
    → e.dst < 2 ^ 32
    → addr < 2 ^ 32
    → (e.plen ≤ 32)
      × ((basic_match e addr ≡ true) ↔ (addr / 2 ^ (32 - e.plen) ≡ e.dst / 2 ^ (32 - e.plen)))
unfolding basic_match
basic_match-leading e addr u r m d a =
    let row = row_ok_prefix e u r in
    let p = (mask_prefix e.mask m).0 row.0 in
    let full : e.mask ≡ 2 ^ 32 - 2 ^ (32 - e.plen) =
      p.1 ∙ ap (λ (n : ℕ). 2 ^ 32 - 2 ^ (32 - n)) (sym row.2) in
    let same =
      prefix_matches (32 - e.plen) addr e.dst (omega arith) a d
        (ap (bit_and e.dst) (sym full) ∙ row.1) in
    (
      omega (arith, p.0, row.2),
      (
        λ h. same.0 (ap (bit_and addr) (sym full) ∙ ground arith),
        λ h. ground (arith, ap (bit_and addr) full ∙ same.1 h),
      ),
    )
