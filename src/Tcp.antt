-- ===== src/Tcp.antt =====
-- src/tcp/tcp.c: the TCP header and its options, read out of a segment and written into one, and the
-- checksum over the pseudo-header and the segment. A header or an option is the octets from its
-- first one on; an option is written at octet `k` of a span, and what is returned is the span and the
-- octets that the option takes.
pub mod Walk
pub mod Options
pub mod Sum
mod Tests
use idem_ip.Base.{ℕ, ◌+◌, ◌-◌, ◌*◌, ◌/◌, ◌%◌, ◌^◌, bit_and, drop, set, ltb, leb, if◌then◌else◌}
use idem_ip.Base.{u8, u16, u32, ◌<<<◌, ◌>>>◌, Bool}
use idem_ip.Endian.{Octets, octet, rd16, rd32, wr16, wr32}
use idem_ip.Host.{Width}
use idem_ip.Checksum.{Route, accum, final}

-- Reading a field.
pub src_port : Octets → ℕ
src_port h = rd16 h 0

pub dst_port : Octets → ℕ
dst_port h = rd16 h 2

unfoldable pub seq : Octets → ℕ
seq h = rd32 h 4

unfoldable pub ack : Octets → ℕ
ack h = rd32 h 8

unfoldable pub doff : Octets → ℕ
doff h = u8 (bit_and (rd16 h 12 >>> 12) 0x0f)

unfoldable pub flags : Octets → ℕ
flags h = u8 (bit_and (rd16 h 12) 0xff)

unfoldable pub window : Octets → ℕ
window h = rd16 h 14

pub cksum : Octets → ℕ
cksum h = rd16 h 16

unfoldable pub urgent : Octets → ℕ
urgent h = rd16 h 18

unfoldable pub hdr_len : Octets → ℕ
hdr_len h = doff h <<< 2

unfoldable pub opts : Octets → Octets
opts h = drop 20 h

unfoldable pub opts_len : Octets → ℕ
opts_len h = let d = doff h in if leb d 5 then 0 else (d - 5) <<< 2

-- Reading option data.
unfoldable pub opt_mss : Octets → ℕ
opt_mss o = rd16 o 2

unfoldable pub opt_ws : Octets → ℕ
opt_ws o = let shift = octet o 2 in if ltb 14 shift then 14 else shift

unfoldable pub opt_tsval : Octets → ℕ
opt_tsval o = rd32 o 2

unfoldable pub opt_tsecr : Octets → ℕ
opt_tsecr o = rd32 o 6

pub opt_sack_blocks : Octets → ℕ
opt_sack_blocks o = let len = octet o 1 in if ltb len 2 then 0 else u8 ((len - 2) >>> 3)

pub opt_sack_left : Octets → ℕ → ℕ
opt_sack_left o index = rd32 o (2 + index <<< 3)

pub opt_sack_right : Octets → ℕ → ℕ
opt_sack_right o index = rd32 o (2 + index <<< 3 + 4)

-- Writing an option.
pub put_end : Octets → ℕ → Octets × ℕ
put_end p k = (set p k 0, 1)

pub put_nop : Octets → ℕ → Octets × ℕ
put_nop p k = (set p k 1, 1)

pub put_mss : Octets → ℕ → ℕ → Octets × ℕ
put_mss p k mss = (wr16 (set (set p k 2) (k + 1) 4) (k + 2) mss, 4)

pub put_ws : Octets → ℕ → ℕ → Octets × ℕ
put_ws p k shift = (set (set (set p k 3) (k + 1) 3) (k + 2) (if ltb 14 shift then 14 else shift), 3)

pub put_ts : Octets → ℕ → ℕ → ℕ → Octets × ℕ
put_ts p k tsval tsecr = (wr32 (wr32 (set (set p k 8) (k + 1) 10) (k + 2) tsval) (k + 6) tsecr, 10)

pub put_sack_perm : Octets → ℕ → Octets × ℕ
put_sack_perm p k = (set (set p k 4) (k + 1) 2, 2)

-- The checksum.
unfoldable pub pseudo_accum : ℕ → ℕ → ℕ → ℕ → ℕ
pseudo_accum sum src dst seg_len =
    let sum = u32 (sum + bit_and (src >>> 16) 0xffff) in
    let sum = u32 (sum + bit_and src 0xffff) in
    let sum = u32 (sum + bit_and (dst >>> 16) 0xffff) in
    let sum = u32 (sum + bit_and dst 0xffff) in let sum = u32 (sum + 6) in u32 (sum + seg_len)

unfoldable pub cksum_compute : Route → Width → Octets → ℕ → ℕ → ℕ → ℕ
cksum_compute route wd h len src dst =
    let sum = pseudo_accum 0 src dst (u16 len) in final (accum route wd sum h len)
