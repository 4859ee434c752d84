-- ===== src/Tcp/Sum.antt =====
-- What a receiver finds of a segment that its sender summed.
use idem_ip.Base.{ℕ, ◌+◌, ◌-◌, ◌/◌, ◌%◌, ◌^◌, ◌≤◌, ◌<◌, ◌≡◌, arith, ap, ◌∙◌}
use idem_ip.Base.{u16, length}
use idem_ip.Base.Bits.{bit_and_mask}
use idem_ip.Endian.{Octets, rd16, wr16}
use idem_ip.Endian.RoundTrip.{IsBytes, rd16_sum}
use idem_ip.Host.{Width}
use idem_ip.Checksum.{Route, final}
use idem_ip.Checksum.Reference.{pair_sum, folded_sum}
use idem_ip.Checksum.Correct.{accum-folded_sum}
use idem_ip.Checksum.Verify.{final_lem, folded_sum-lt, folded_sum_self, pair_sum-wr16, complement}
use idem_ip.Checksum.Verify.{wr16-IsBytes}
use idem_ip.Tcp.{pseudo_accum, cksum_compute}

-- The pseudo-header's words added up: the addresses in halves, the protocol and the length.
abbrev pub pseudo_sum : ℕ → ℕ → ℕ → ℕ
pseudo_sum src dst len = src / 65536 + src % 65536 + dst / 65536 + dst % 65536 + 6 + len

pseudo_accum_lem :
    (src dst len : ℕ)
    → src < 2 ^ 32
    → dst < 2 ^ 32
    → len < 65536
    → pseudo_accum 0 src dst len ≡ pseudo_sum src dst len
unfolding pseudo_accum
pseudo_accum_lem src dst len s d l = omega (
  arith,
  bit_and_mask 16 (src / 65536),
  bit_and_mask 16 src,
  bit_and_mask 16 (dst / 65536),
  bit_and_mask 16 dst,
)

-- The checksum of a segment of fewer than 2 ^ 16 octets between 32-bit addresses is, on every
-- route, the complement of the folded sum of the pseudo-header and the segment.
pub cksum_compute_lem :
    (route : Route) (wd : Width) (p : Octets) (len src dst : ℕ)
    → IsBytes p
    → len < 65536
    → src < 2 ^ 32
    → dst < 2 ^ 32
    → cksum_compute route wd p len src dst
      ≡ 65535 - folded_sum (pseudo_sum src dst len + pair_sum p 0 len)
unfolding cksum_compute
cksum_compute_lem route wd p len src dst b l s d =
    let whole : len % 65536 ≡ len = omega arith in
    let pseudo : pseudo_accum 0 src dst (u16 len) ≡ pseudo_sum src dst len =
      ap (pseudo_accum 0 src dst) whole ∙ pseudo_accum_lem src dst len s d l in
    let all = pseudo_sum src dst len + pair_sum p 0 len in
    rw pseudo (
      ap final (accum-folded_sum route wd (pseudo_sum src dst len) p len b (omega arith))
      ∙ final_lem (folded_sum all) (folded_sum-lt all)
      ∙ ap (λ (t : ℕ). 65535 - t) (folded_sum_self all))

-- Over a segment of 20 to 65535 octets with 32-bit addresses, a sender that leaves the checksum
-- field zero, computes the checksum and writes it there gives a segment over which a receiver with
-- the same addresses computes zero, whichever routes the two are built for.
pub cksum_compute-wr16 :
    (sender receiver : Route) (ws wr : Width) (p : Octets) (len src dst : ℕ)
    → IsBytes p
    → 20 ≤ len
    → len < 65536
    → len ≤ length p
    → src < 2 ^ 32
    → dst < 2 ^ 32
    → rd16 p 16 ≡ 0
    → cksum_compute receiver wr (wr16 p 16 (cksum_compute sender ws p len src dst)) len src dst ≡ 0
cksum_compute-wr16 sender receiver ws wr p len src dst b m l r s d z =
    let v = cksum_compute sender ws p len src dst in
    let q = pseudo_sum src dst len in
    let sent = cksum_compute_lem sender ws p len src dst b l s d in
    let zero_field = rd16_sum p 16 (b 16) (b 17) in
    let all : q + pair_sum (wr16 p 16 v) 0 len ≡ q + pair_sum p 0 len + v = omega (
      arith,
      pair_sum-wr16 p 8 0 len 16 v (omega arith) (omega arith) (omega arith) (omega arith),
    ) in
    cksum_compute_lem receiver wr (wr16 p 16 v) len src dst (wr16-IsBytes p 16 v b) l s d
    ∙ ap (λ (t : ℕ). 65535 - folded_sum t) all
    ∙ complement (q + pair_sum p 0 len) v sent
