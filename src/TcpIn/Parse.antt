-- ===== src/TcpIn/Parse.antt =====
-- `idemip_tcp_in_parse` of src/tcp/tcp_in.c: a header and its options, read where they lie.
pub mod Layout
pub mod Options
pub mod Sent
use idem_ip.Base.{
  ℕ, zero, suc, ◌+◌, ◌-◌, ◌≤◌, ◌<◌, ◌^◌, Bool, true, false, not, ◌&&◌, ◌||◌, ◌≡◌, refl,
}
use idem_ip.Base.{
  Option, some, none, ltb, leb, ◌==◌, if◌then◌else◌, u16, u32, bit_and, u8, ◌<<<◌, ◌>>>◌,
}
use idem_ip.Base.{sym, ap, ◌∙◌, ◌↔◌, arith, length, Bool-cases, inl, inr}
use idem_ip.Config.{Status, ok, err}
use idem_ip.Endian.{Octets, rd16, rd32, wr16}
use idem_ip.Endian.RoundTrip.{IsBytes, rd32_sum}
use idem_ip.Endian.Frame.{rd16_cong, rd32_cong, wr16-SameOctets}
use idem_ip.Base.{drop, set, [], ◌∷◌}
use idem_ip.Host.{Width}
use idem_ip.Checksum.{Route, accum, final}
use idem_ip.Pseudo.{Versions, accum_version, accum_version-pseudo_accum}
use idem_ip.Tcp
use idem_ip.Tcp.Walk.{OptWalk, opt_walk, opt_next, collect}
use idem_ip.Tcp.Sum.{cksum_compute-wr16}
use idem_ip.TcpIn.{Bits, Seg, Opts, Io, Borrow}
use idem_ip.TcpIn.Entries.{no_seg, no_opts, report}

-- `TcpInParseArgs`
pub record ParseArgs : Type 0 where
  pub seg : Option Octets
  pub local_ip : Option Octets
  pub remote_ip : Option Octets
  pub len : ℕ
  pub ip_version : ℕ
  pub snd_scale : ℕ

unfoldable pub bits_of : ℕ → Bits
bits_of flags = record {
  fin = not (bit_and flags 0x01 == 0);
  syn = not (bit_and flags 0x02 == 0);
  rst = not (bit_and flags 0x04 == 0);
  psh = not (bit_and flags 0x08 == 0);
  ack = not (bit_and flags 0x10 == 0);
  urg = not (bit_and flags 0x20 == 0);
}

-- A window shift of more than fourteen is fourteen.
unfoldable pub shift_of : ℕ → ℕ
shift_of scale = if ltb 14 scale then 14 else scale

unfoldable pub seg_of : Octets → ℕ → ℕ → Seg
seg_of h len scale =
    let flags = bits_of (Tcp.flags h) in
    let text = u16 (len - Tcp.hdr_len h) in
    record {
      seq = Tcp.seq h;
      ack = Tcp.ack h;
      wnd = if flags.syn then Tcp.window h else u32 (Tcp.window h <<< shift_of scale);
      len = text + (if flags.syn then 1 else 0) + (if flags.fin then 1 else 0);
      data_len = text;
      up = Tcp.urgent h;
      flags = flags;
    }

-- One option that the walk landed on.
unfoldable pub take_opt : Bool → OptWalk → Octets → Opts → Opts
take_opt syn w o opts =
    if w.kind == 2 && w.len == 4
    then record opts { mss = Tcp.opt_mss o; has_mss = true }
    else if w.kind == 3 && w.len == 3 && syn
    then record opts { ws = Tcp.opt_ws o; has_ws = true }
    else if w.kind == 8 && w.len == 10
    then record opts { tsval = Tcp.opt_tsval o; tsecr = Tcp.opt_tsecr o; has_ts = true }
    else if w.kind == 4 && w.len == 2
    then record opts { has_sack_perm = true }
    else opts

unfoldable pub take_here : Bool → OptWalk → Option Octets → Opts → Opts
take_here syn w none opts = opts
take_here syn w (some o) opts = take_opt syn w o opts

-- The options of the walk from here on, and the walk where it ends.
unfoldable pub take_opts : ℕ → Bool → OptWalk → Opts → Opts × OptWalk
take_opts zero syn w opts = (opts, w)
take_opts (suc n) syn w opts =
    let (next, found) = opt_next w in
    let rest = take_opts n syn next (take_here syn next next.opt opts) in
    if found then rest else (opts, next)

unfoldable pub read_opts : Octets → Bool → Opts × OptWalk
read_opts h syn =
    take_opts (Tcp.opts_len h + 1) syn (opt_walk h)
      (record no_opts { hdr_len = u16 (Tcp.hdr_len h) })

-- Whether the sum over the pseudo-header and the segment, where there is one, is all ones.
unfoldable pub is_summed : Route → Width → Option ℕ → Octets → ℕ → Bool
is_summed route wd none h len = false
is_summed route wd (some sum) h len = final (accum route wd sum h len) == 0

-- The header and its options, once there is a segment and two addresses.
unfoldable pub read_header :
    Route → Width → Versions → Io → ParseArgs → Octets → Octets → Octets → Io
read_header route wd v io a h local_ip remote_ip =
    if ltb a.len 20 || ltb (Tcp.hdr_len h) 20 || ltb a.len (Tcp.hdr_len h)
    then io
    else if not (
        is_summed route wd (accum_version route wd v 0 a.ip_version 6 remote_ip local_ip a.len) h
          a.len)
    then io
    else (let seg = seg_of h a.len a.snd_scale in
        let (opts, walk) = read_opts h seg.flags.syn in
        report (if walk.bad then err else ok) (record io { seg = seg; opts = opts }))

-- The three pointers, one of which may be NULL.
unfoldable pub read_seg :
    Route → Width → Versions → Io → ParseArgs → Option Octets → Option Octets → Option Octets → Io
read_seg route wd v io a none local_ip remote_ip = io
read_seg route wd v io a (some h) none remote_ip = io
read_seg route wd v io a (some h) (some local_ip) none = io
read_seg route wd v io a (some h) (some local_ip) (some remote_ip) =
    read_header route wd v io a h local_ip remote_ip

unfoldable pub parse : Route → Width → Versions → Borrow → ParseArgs → Borrow
parse route wd v w a =
    let io = report err (record (w.io) { seg = no_seg; opts = no_opts }) in
    record w {
      io = if not w.ctx.ready then io else read_seg route wd v io a a.seg a.local_ip a.remote_ip;
    }
