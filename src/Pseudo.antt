-- ===== src/Pseudo.antt =====
-- src/ip/pseudo.c with its two halves, src/ip/pseudo_v4.c and src/ip/pseudo_v6.c, or the files
-- src/ip/pseudo_v4_off.c and src/ip/pseudo_v6_off.c that a build has in their place: the pseudo-header
-- of a transport checksum. A sum is `none` where the code answers false, which leaves the sum.
use idem_ip.Base.{ℕ, ◌+◌, ◌^◌, ◌<◌, Bool, true, false, not, ◌||◌, ◌≡◌, refl, arith}
use idem_ip.Base.{Option, some, none, ltb, ◌==◌, if◌then◌else◌, u32, bit_and, ◌>>>◌}
use idem_ip.Endian.{Octets, rd32}
use idem_ip.Host.{Width}
use idem_ip.Checksum.{Route, accum}
use idem_ip.Tcp

-- The two halves that a build has.
pub record Versions : Type 0 where
  pub has_v4 : Bool
  pub has_v6 : Bool

-- The low half of a word, and the high one.
abbrev half : ℕ → ℕ
half n = bit_and n 0xffff

unfoldable pub accum_v4 : Versions → ℕ → ℕ → Octets → Octets → ℕ → Option ℕ
accum_v4 v sum proto src dst upper_len =
    if not v.has_v4 || ltb 0xffff upper_len
    then none
    else (let s = rd32 src 0 in
        let d = rd32 dst 0 in
        let a = u32 (sum + half (s >>> 16)) in
        let a = u32 (a + half s) in
        let a = u32 (a + half (d >>> 16)) in
        let a = u32 (a + half d) in let a = u32 (a + proto) in some (u32 (a + upper_len)))

unfoldable pub accum_v6 : Route → Width → Versions → ℕ → ℕ → Octets → Octets → ℕ → Option ℕ
accum_v6 route wd v sum proto src dst upper_len =
    if not v.has_v6
    then none
    else (let a = accum route wd sum src 16 in
        let a = accum route wd a dst 16 in
        let a = u32 (a + half (upper_len >>> 16)) in
        let a = u32 (a + half upper_len) in some (u32 (a + proto)))

unfoldable pub accum_version : Route → Width → Versions → ℕ → ℕ → ℕ → Octets → Octets → ℕ → Option ℕ
accum_version route wd v sum ip_version proto src dst upper_len =
    if ip_version == 4
    then accum_v4 v sum proto src dst upper_len
    else if ip_version == 6
    then accum_v6 route wd v sum proto src dst upper_len
    else none

-- Over IPv4, the pseudo-header of a TCP segment is the one that src/tcp/tcp.c sums by itself.
pub accum_version-pseudo_accum :
    (route : Route) (wd : Width) (v : Versions) (sum : ℕ) (src dst : Octets) (len : ℕ)
    → v.has_v4 ≡ true
    → len < 2 ^ 16
    → accum_version route wd v sum 4 6 src dst len
      ≡ some (Tcp.pseudo_accum sum (rd32 src 0) (rd32 dst 0) len)
unfolding Tcp.pseudo_accum accum_version accum_v4
accum_version-pseudo_accum route wd v sum src dst len h l =
    let short : ltb 0xffff len ≡ false = ground arith in rw (h, short) refl
