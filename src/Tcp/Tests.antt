-- ===== src/Tcp/Tests.antt =====
-- TCP options and checksums at concrete segments.
use idem_ip.Base.{◌+◌, ◌-◌, ◌≡◌, true, false, none, some, List, [], ◌∷◌, arith, refl}
use idem_ip.Base.{drop}
use idem_ip.Endian.{Octets, rd16, wr16}
use idem_ip.Endian.RoundTrip.{IsBytes, are_bytes, are_bytes_sound}
use idem_ip.Host.{bits32, bits64}
use idem_ip.Checksum.{by_pairs, little_endian}
use idem_ip.Checksum.Reference.{pair_sum, folded_sum}
use idem_ip.Tcp.{opts, opts_len, doff, cksum_compute}
use idem_ip.Tcp.Walk.{
  OptWalk, Item, opt_walk, opt_next, collect, IsList, collect-opt_walk, IsList-collect,
}
use idem_ip.Tcp.Options.{mss, put, Carries, put-opt_next}
use idem_ip.Tcp.Sum.{pseudo_sum, cksum_compute_lem, cksum_compute-wr16}

-- A header of seven words: a Maximum Segment Size of 1460, a No-Operation, a Window Scale of 7.
abbrev header : Octets
header =
    0 ∷ 80 ∷ 4 ∷ 1 ∷ 0 ∷ 0 ∷ 0 ∷ 1 ∷ 0 ∷ 0 ∷ 0 ∷ 0 ∷ 112 ∷ 2 ∷ 16 ∷ 0 ∷ 0 ∷ 0 ∷ 0 ∷ 0 ∷ 2 ∷ 4 ∷ 5
    ∷ 180 ∷ 1 ∷ 3 ∷ 3 ∷ 7 ∷ []

header-IsBytes : IsBytes header
unfolding are_bytes
header-IsBytes = are_bytes_sound header refl

abbrev header_items : List Item
header_items =
    record { kind = 2; at = 0; len = 4 }
    ∷ record { kind = 1; at = 4; len = 1 }
    ∷ record { kind = 3; at = 5; len = 3 }
    ∷ []

collect-opt_walk_example :
    let all = collect (opts_len header + 1) (opt_walk header) in
    IsList (opts header) (opts_len header) 0 all.0 all.1.bad
collect-opt_walk_example = collect-opt_walk header header-IsBytes

collected : IsList (opts header) (opts_len header) 0 header_items false
unfolding opts opts_len doff rd16
collected = ground arith

IsList-collect_run :
    let all = collect (opts_len header + 1) (opt_walk header) in
    (all.0 ≡ header_items) × (all.1.bad ≡ false)
IsList-collect_run = IsList-collect header header_items false header-IsBytes collected

abbrev region : Octets
region = 0 ∷ 0 ∷ 0 ∷ 0 ∷ 0 ∷ 0 ∷ 0 ∷ 0 ∷ []

abbrev walk : OptWalk
walk = record {
  opts = (put (mss 1460) region 4).0;
  end = 8;
  pos = 4;
  opt = none;
  kind = 0;
  len = 0;
  bad = false;
}

put-opt_next_example :
    let (next, found) = opt_next walk in
    (found ≡ true)
    × (next.kind ≡ 2)
    × (next.len ≡ (put (mss 1460) region 4).1)
    × (next.pos ≡ 8)
    × (next.opt ≡ some (drop 4 (put (mss 1460) region 4).0))
    × Carries (mss 1460) (drop 4 (put (mss 1460) region 4).0)
put-opt_next_example =
    put-opt_next region 4 (mss 1460) walk (omega arith) (omega arith) refl refl (omega arith)

cksum_compute_lem_run :
    cksum_compute little_endian bits32 header 28 0xc0a8_0001 0xc0a8_0002
    ≡ 65535 - folded_sum (pseudo_sum 0xc0a8_0001 0xc0a8_0002 28 + pair_sum header 0 28)
cksum_compute_lem_run =
    cksum_compute_lem little_endian bits32 header 28 0xc0a8_0001 0xc0a8_0002 header-IsBytes
      (omega arith) (omega arith) (omega arith)

field_is_zero : rd16 header 16 ≡ 0
unfolding rd16
field_is_zero = refl

cksum_compute-wr16_run :
    cksum_compute by_pairs bits32
      (wr16 header 16 (cksum_compute little_endian bits64 header 28 0xc0a8_0001 0xc0a8_0002))
      28
      0xc0a8_0001
      0xc0a8_0002
    ≡ 0
cksum_compute-wr16_run =
    cksum_compute-wr16 little_endian by_pairs bits64 bits32 header 28 0xc0a8_0001 0xc0a8_0002
      header-IsBytes (omega arith) (omega arith) (omega arith) (omega arith) (omega arith)
      field_is_zero
