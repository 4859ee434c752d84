-- ===== src/TcpIn/Parse/Sent.antt =====
-- A segment that src/tcp/tcp.c's checksum went out with, as src/tcp/tcp_in.c reads it.
use idem_ip.Base.{ℕ, zero, suc, ◌+◌, ◌≤◌, ◌<◌, ◌^◌, Bool, true, false, ◌||◌, ◌≡◌, refl}
use idem_ip.Base.{some, ltb, if◌then◌else◌, u16, bit_and, u8, ◌>>>◌}
use idem_ip.Base.{ap, ◌∙◌, arith, length}
use idem_ip.Config.{ok, err}
use idem_ip.Endian.{Octets, rd16, rd32, wr16}
use idem_ip.Endian.RoundTrip.{IsBytes, rd32_sum}
use idem_ip.Endian.Frame.{rd16_cong, rd32_cong, wr16-SameOctets}
use idem_ip.Base.{drop, set, [], ◌∷◌}
use idem_ip.Host.{Width}
use idem_ip.Checksum.{Route, accum, final}
use idem_ip.Pseudo.{Versions, accum_version, accum_version-pseudo_accum}
use idem_ip.Tcp
use idem_ip.Base.{List, ◌-◌, sym}
use mathlib.Core.Path.{subst}
use idem_ip.Endian.RoundTrip.{rd16_sum}
use idem_ip.Tcp.Walk.{Item, IsList, IsList-collect}
use idem_ip.TcpIn.{Seg}
use idem_ip.TcpIn.Parse.Layout.{
  word16, header_len, layout_seg, hdr_len_lem, opts_len_lem, seg_of_lem,
}
use idem_ip.TcpIn.Parse.Options.{layout_opts, read_opts_lem}
use idem_ip.Tcp.Walk.{OptWalk, opt_walk, opt_next, collect}
use idem_ip.Tcp.Sum.{cksum_compute-wr16}
use idem_ip.TcpIn.{Opts, Borrow}
use idem_ip.TcpIn.Parse.{
  ParseArgs, seg_of, take_opts, take_here, read_opts, is_summed, read_header, read_seg, parse,
}

-- The loop over the options ends where their list does.
take_opts-collect :
    (n : ℕ) (syn : Bool) (w : OptWalk) (opts : Opts)
    → (take_opts n syn w opts).1.bad ≡ (collect n w).1.bad
unfolding take_opts collect
take_opts-collect zero syn w opts = refl
take_opts-collect (suc n) syn w opts =
    let (next, found) = opt_next w in
    let rest = take_opts-collect n syn next (take_here syn next next.opt opts) in
    ground (arith, rest)

is_summed-cksum_compute :
    (route : Route) (wd : Width) (v : Versions) (h src dst : Octets) (len : ℕ)
    → v.has_v4 ≡ true
    → len < 2 ^ 16
    → Tcp.cksum_compute route wd h len (rd32 src 0) (rd32 dst 0) ≡ 0
    → is_summed route wd (accum_version route wd v 0 4 6 src dst len) h len ≡ true
unfolding Tcp.cksum_compute is_summed
is_summed-cksum_compute route wd v h src dst len f l e =
    let whole : len ≡ u16 len = omega arith in
    let summed = accum_version-pseudo_accum route wd v 0 src dst len f l in
    let same : final (accum route wd (Tcp.pseudo_accum 0 (rd32 src 0) (rd32 dst 0) len) h len) ≡ 0 =
      ap (λ (n : ℕ). final (accum route wd (Tcp.pseudo_accum 0 (rd32 src 0) (rd32 dst 0) n) h len))
        whole
      ∙ e in
    rw (summed) (ground (arith, same))

-- A checksum written over its field leaves the other fields, and the options.
seg_of-wr16 : (p : Octets) (v len scale : ℕ) → seg_of (wr16 p 16 v) len scale ≡ seg_of p len scale
unfolding seg_of Tcp.seq Tcp.ack Tcp.flags Tcp.window Tcp.urgent Tcp.hdr_len Tcp.doff
seg_of-wr16 p v len scale =
    let h = wr16 p 16 v in
    let at_4 : rd32 h 4 ≡ rd32 p 4 = rd32_cong h p 4 (wr16-SameOctets p 16 v 4 8 (omega arith)) in
    let at_8 : rd32 h 8 ≡ rd32 p 8 = rd32_cong h p 8 (wr16-SameOctets p 16 v 8 12 (omega arith)) in
    let at_12 : rd16 h 12 ≡ rd16 p 12 =
      rd16_cong h p 12 (wr16-SameOctets p 16 v 12 14 (omega arith)) in
    let at_14 : rd16 h 14 ≡ rd16 p 14 =
      rd16_cong h p 14 (wr16-SameOctets p 16 v 14 16 (omega arith)) in
    let at_18 : rd16 h 18 ≡ rd16 p 18 =
      rd16_cong h p 18 (wr16-SameOctets p 16 v 18 20 (omega arith)) in
    rw (at_4, at_8, at_12, at_14, at_18) refl

doff-wr16 : (p : Octets) (v : ℕ) → Tcp.doff (wr16 p 16 v) ≡ Tcp.doff p
unfolding Tcp.doff
doff-wr16 p v =
    let h = wr16 p 16 v in
    let at_12 : rd16 h 12 ≡ rd16 p 12 =
      rd16_cong h p 12 (wr16-SameOctets p 16 v 12 14 (omega arith)) in
    rw (at_12) refl

hdr_len-wr16 : (p : Octets) (v : ℕ) → Tcp.hdr_len (wr16 p 16 v) ≡ Tcp.hdr_len p
unfolding Tcp.hdr_len
hdr_len-wr16 p v = rw (doff-wr16 p v) refl

drop-set : (n k v : ℕ) (p : Octets) → k < n → drop n (set p k v) ≡ drop n p
drop-set zero k v p h = absurd (omega arith)
drop-set (suc n) k v [] h = refl
drop-set (suc n) zero v (x ∷ p) h = refl
drop-set (suc n) (suc k) v (x ∷ p) h = drop-set n k v p (omega arith)

opts-wr16 : (p : Octets) (v : ℕ) → Tcp.opts (wr16 p 16 v) ≡ Tcp.opts p
unfolding Tcp.opts wr16
opts-wr16 p v =
    drop-set 20 17 (u8 (bit_and v 255)) (set p 16 (u8 (v >>> 8))) (omega arith)
    ∙ drop-set 20 16 (u8 (v >>> 8)) p (omega arith)

opts_len-wr16 : (p : Octets) (v : ℕ) → Tcp.opts_len (wr16 p 16 v) ≡ Tcp.opts_len p
unfolding Tcp.opts_len
opts_len-wr16 p v = rw (doff-wr16 p v) refl

read_opts-wr16 : (p : Octets) (v : ℕ) (syn : Bool) → read_opts (wr16 p 16 v) syn ≡ read_opts p syn
unfolding read_opts opt_walk
read_opts-wr16 p v syn = rw (opts-wr16 p v, opts_len-wr16 p v, hdr_len-wr16 p v) refl

word : (p : Octets) → IsBytes p → rd32 p 0 < 2 ^ 32
word p b = omega (arith, rd32_sum p 0 (b 0) (b 1) (b 2) (b 3), b 0, b 1, b 2, b 3)

-- What was read, in the terms of the reading.
parse_reads :
    (sender receiver : Route) (ws wr : Width) (v : Versions) (w : Borrow) (p src dst : Octets)
    (len scale : ℕ)
    → w.ctx.ready ≡ true
    → v.has_v4 ≡ true
    → IsBytes p × IsBytes src × IsBytes dst
    → len < 65536
    → len ≤ length p
    → 20 ≤ Tcp.hdr_len p
    → Tcp.hdr_len p ≤ len
    → rd16 p 16 ≡ 0
    → let sum = Tcp.cksum_compute sender ws p len (rd32 src 0) (rd32 dst 0) in
      let a : ParseArgs = record {
        seg = some (wr16 p 16 sum);
        local_ip = some dst;
        remote_ip = some src;
        len = len;
        ip_version = 4;
        snd_scale = scale;
      } in
      let io = (parse receiver wr v w a).io in
      (io.seg ≡ seg_of p len scale)
      × (io.opts ≡ (read_opts p (seg_of p len scale).flags.syn).0)
      × (io.status ≡ (if (collect (Tcp.opts_len p + 1) (opt_walk p)).1.bad then err else ok))
unfolding parse read_seg read_header read_opts
parse_reads sender receiver ws wr v w p src dst len scale r f b l m n k z =
    let sum = Tcp.cksum_compute sender ws p len (rd32 src 0) (rd32 dst 0) in
    let h = wr16 p 16 sum in
    let zero_sum =
      cksum_compute-wr16 sender receiver ws wr p len (rd32 src 0) (rd32 dst 0) b.0 (omega arith) l m
        (word src b.1) (word dst b.2) z in
    let passes = is_summed-cksum_compute receiver wr v h src dst len f l zero_sum in
    let same_len = hdr_len-wr16 p sum in
    let long : ltb len 20 || ltb (Tcp.hdr_len h) 20 || ltb len (Tcp.hdr_len h) ≡ false =
      ground (arith, same_len) in
    rw
      (
        r,
        long,
        passes,
        seg_of-wr16 p sum len scale,
        read_opts-wr16 p sum (seg_of p len scale).flags.syn,
      )
      (
        refl,
        refl,
        ap (λ (b : Bool). if b then err else ok)
            (take_opts-collect (Tcp.opts_len p + 1) (seg_of p len scale).flags.syn (opt_walk p) _),
      )

-- A TCP segment of at most 65535 octets between two IPv4 addresses, with a header of at least 20
-- octets that lies inside it, a zero checksum field, and a given list of options, as RFC 9293 has
-- it, that ends well or at an illegal length, into which the sender writes its checksum: a cleared
-- receiver of a build with IPv4 takes it, whichever routes the two are built for, and reads the
-- numbers, the control bits and the lengths at their places in RFC 9293's layout, the window
-- shifted by at most fourteen but for a SYN, the SYN and the FIN counted in SEG.LEN, and of each
-- kind of option the last of the right length in the list, the Window Scale in a SYN alone; it
-- reports ERR exactly where the list ends at an illegal length.
pub parse-cksum_compute :
    (sender receiver : Route) (ws wr : Width) (v : Versions) (w : Borrow) (p src dst : Octets)
    (len scale : ℕ) (items : List Item) (bad : Bool)
    → w.ctx.ready ≡ true
    → v.has_v4 ≡ true
    → IsBytes p × IsBytes src × IsBytes dst
    → len < 65536
    → len ≤ length p
    → 20 ≤ header_len p
    → header_len p ≤ len
    → word16 p 16 ≡ 0
    → IsList (drop 20 p) (header_len p - 20) 0 items bad
    → let sum = Tcp.cksum_compute sender ws p len (rd32 src 0) (rd32 dst 0) in
      let a : ParseArgs = record {
        seg = some (wr16 p 16 sum);
        local_ip = some dst;
        remote_ip = some src;
        len = len;
        ip_version = 4;
        snd_scale = scale;
      } in
      let io = (parse receiver wr v w a).io in
      (io.seg ≡ layout_seg p len scale)
      × (io.opts ≡ layout_opts p items)
      × (io.status ≡ (if bad then err else ok))
parse-cksum_compute sender receiver ws wr v w p src dst len scale items bad r f b l m n k z t =
    let hdr = hdr_len_lem p b.0 in
    let zero_sum : rd16 p 16 ≡ 0 = omega (arith, rd16_sum p 16 (b.0 16) (b.0 17), z) in
    let reads =
      parse_reads sender receiver ws wr v w p src dst len scale r f b l m (omega (arith, hdr, n))
        (omega (arith, hdr, k)) zero_sum in
    let all = collect (Tcp.opts_len p + 1) (opt_walk p) in
    let whole : IsList (Tcp.opts p) (Tcp.opts_len p) 0 items bad =
      unfold Tcp.opts in
      subst (λ (e : ℕ). IsList (drop 20 p) e 0 items bad) (sym (opts_len_lem p b.0 n)) t in
    let list = IsList-collect p items bad b.0 whole in
    let seg = seg_of_lem p len scale b.0 l k in
    (
      reads.0 ∙ seg,
      reads.1
          ∙ ap (λ (s : Seg). (read_opts p s.flags.syn).0) seg
          ∙ read_opts_lem p b.0 (omega (arith, k, l))
          ∙ ap (layout_opts p) list.0,
      reads.2 ∙ ap (λ (c : Bool). if c then err else ok) list.1,
    )
