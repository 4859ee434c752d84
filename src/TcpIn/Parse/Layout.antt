-- ===== src/TcpIn/Parse/Layout.antt =====
-- A TCP header by the layout of RFC 9293 sec 3.1, in plain arithmetic, and that `idemip_tcp_in_parse` of
-- src/tcp/tcp_in.c reads it so.
use idem_ip.Base.{ℕ, ◌+◌, ◌-◌, ◌*◌, ◌/◌, ◌%◌, ◌^◌, ◌≤◌, ◌<◌, Bool, true, false, not, ◌&&◌}
use idem_ip.Base.{◌≡◌, refl, ap, ◌∙◌, arith, ◌==◌, ltb, leb, if◌then◌else◌}
use idem_ip.Base.{u16, u32, ◌<<<◌}
use idem_ip.Base.Bits.{all_below, all_below_sound, bit_and_mask}
use idem_ip.Endian.{Octets, octet, rd16, rd32}
use idem_ip.Endian.RoundTrip.{IsBytes, rd16_sum, rd32_sum}
use idem_ip.Tcp
use idem_ip.TcpIn.{Seg}
use idem_ip.TcpIn.Parse.{bits_of, shift_of, seg_of}

-- Numbers of two and of four octets, the most significant first.
abbrev pub word16 : Octets → ℕ → ℕ
word16 p i = octet p i * 256 + octet p (i + 1)

abbrev pub word32 : Octets → ℕ → ℕ
word32 p i =
    octet p i * 16777216 + octet p (i + 1) * 65536 + octet p (i + 2) * 256 + octet p (i + 3)

-- The Data Offset counts words of four octets.
abbrev pub header_len : Octets → ℕ
header_len p = octet p 12 / 16 * 4

-- The control bit that stands `k` from the right.
abbrev pub control : ℕ → Octets → Bool
control k p = octet p 13 / 2 ^ k % 2 == 1

abbrev pub one_if : Bool → ℕ
one_if b = if b then 1 else 0

-- No shift is more than fourteen (RFC 7323 sec 2.3).
abbrev pub up_to_14 : ℕ → ℕ
up_to_14 n = if ltb 14 n then 14 else n

-- The segment of `len` octets at `p`, between ends that agreed to shift windows by `scale`.
abbrev pub layout_seg : Octets → ℕ → ℕ → Seg
layout_seg p len scale = record {
  seq = word32 p 4;
  ack = word32 p 8;
  wnd = if control 1 p then word16 p 14 else word16 p 14 * 2 ^ up_to_14 scale;
  len = len - header_len p + one_if (control 1 p) + one_if (control 0 p);
  data_len = len - header_len p;
  up = word16 p 18;
  flags = record {
    fin = control 0 p;
    syn = control 1 p;
    rst = control 2 p;
    psh = control 3 p;
    ack = control 4 p;
    urg = control 5 p;
  };
}

flags_test : ℕ → Bool
flags_test n =
    let b = bits_of n in
    (if b.fin then (n / 2 ^ 0 % 2 == 1) else not (n / 2 ^ 0 % 2 == 1))
    && (if b.syn then (n / 2 ^ 1 % 2 == 1) else not (n / 2 ^ 1 % 2 == 1))
    && (if b.rst then (n / 2 ^ 2 % 2 == 1) else not (n / 2 ^ 2 % 2 == 1))
    && (if b.psh then (n / 2 ^ 3 % 2 == 1) else not (n / 2 ^ 3 % 2 == 1))
    && (if b.ack then (n / 2 ^ 4 % 2 == 1) else not (n / 2 ^ 4 % 2 == 1))
    && (if b.urg then (n / 2 ^ 5 % 2 == 1) else not (n / 2 ^ 5 % 2 == 1))

same_bit : (c d : Bool) → (if c then d else not d) ≡ true → c ≡ d
same_bit true true h = refl
same_bit true false h = absurd (ground arith)
same_bit false true h = absurd (ground arith)
same_bit false false h = refl

bits_of_lem :
    (n : ℕ)
    → n < 256
    → bits_of n ≡ record {
      fin = n / 2 ^ 0 % 2 == 1;
      syn = n / 2 ^ 1 % 2 == 1;
      rst = n / 2 ^ 2 % 2 == 1;
      psh = n / 2 ^ 3 % 2 == 1;
      ack = n / 2 ^ 4 % 2 == 1;
      urg = n / 2 ^ 5 % 2 == 1;
    }
unfolding flags_test all_below bits_of
bits_of_lem n l =
    let t : flags_test n ≡ true = all_below_sound 256 flags_test n refl l in
    let b = bits_of n in
    let fin : (if b.fin then n / 2 ^ 0 % 2 == 1 else not (n / 2 ^ 0 % 2 == 1)) ≡ true =
      ground (arith, t) in
    let syn : (if b.syn then n / 2 ^ 1 % 2 == 1 else not (n / 2 ^ 1 % 2 == 1)) ≡ true =
      ground (arith, t) in
    let rst : (if b.rst then n / 2 ^ 2 % 2 == 1 else not (n / 2 ^ 2 % 2 == 1)) ≡ true =
      ground (arith, t) in
    let psh : (if b.psh then n / 2 ^ 3 % 2 == 1 else not (n / 2 ^ 3 % 2 == 1)) ≡ true =
      ground (arith, t) in
    let ack : (if b.ack then n / 2 ^ 4 % 2 == 1 else not (n / 2 ^ 4 % 2 == 1)) ≡ true =
      ground (arith, t) in
    let urg : (if b.urg then n / 2 ^ 5 % 2 == 1 else not (n / 2 ^ 5 % 2 == 1)) ≡ true =
      ground (arith, t) in
    λ i. record {
      fin = same_bit b.fin _ fin i;
      syn = same_bit b.syn _ syn i;
      rst = same_bit b.rst _ rst i;
      psh = same_bit b.psh _ psh i;
      ack = same_bit b.ack _ ack i;
      urg = same_bit b.urg _ urg i;
    }

flags_lem : (p : Octets) → IsBytes p → Tcp.flags p ≡ octet p 13
unfolding Tcp.flags
flags_lem p b =
    let w : rd16 p 12 ≡ word16 p 12 = rd16_sum p 12 (b 12) (b 13) in
    omega (arith, bit_and_mask 8 (rd16 p 12), w, b 12, b 13)

doff_lem : (p : Octets) → IsBytes p → Tcp.doff p ≡ octet p 12 / 16
unfolding Tcp.doff
doff_lem p b =
    let w : rd16 p 12 ≡ word16 p 12 = rd16_sum p 12 (b 12) (b 13) in
    omega (arith, bit_and_mask 4 (rd16 p 12 / 2 ^ 12), w, b 12, b 13)

pub hdr_len_lem : (p : Octets) → IsBytes p → Tcp.hdr_len p ≡ header_len p
unfolding Tcp.hdr_len
hdr_len_lem p b = omega (arith, doff_lem p b)

pub opts_len_lem : (p : Octets) → IsBytes p → 20 ≤ header_len p → Tcp.opts_len p ≡ header_len p - 20
unfolding Tcp.opts_len
opts_len_lem p b l = ground (arith, doff_lem p b)

power_test : ℕ → Bool
power_test k = leb (2 ^ k) 16384

shift_bound : (n : ℕ) → 2 ^ up_to_14 n ≤ 16384
unfolding power_test all_below
shift_bound n =
    let t : power_test (up_to_14 n) ≡ true =
      all_below_sound 15 power_test (up_to_14 n) refl (ground arith) in
    ground (arith, t)

window_lem : (w n : ℕ) → w < 65536 → u32 (w <<< shift_of n) ≡ w * 2 ^ up_to_14 n
unfolding shift_of
window_lem w n l =
    let small : w * 2 ^ up_to_14 n ≤ w * 16384 = grind (arith, shift_bound n) in
    omega (arith, small)

pub seg_of_lem :
    (p : Octets) (len scale : ℕ)
    → IsBytes p
    → len < 65536
    → header_len p ≤ len
    → seg_of p len scale ≡ layout_seg p len scale
unfolding seg_of Tcp.seq Tcp.ack Tcp.window Tcp.urgent
seg_of_lem p len scale b l m =
    let flags : bits_of (Tcp.flags p) ≡ (layout_seg p len scale).flags =
      ap bits_of (flags_lem p b) ∙ bits_of_lem (octet p 13) (b 13) in
    let text : u16 (len - Tcp.hdr_len p) ≡ len - header_len p = omega (arith, hdr_len_lem p b) in
    let seq : rd32 p 4 ≡ word32 p 4 = rd32_sum p 4 (b 4) (b 5) (b 6) (b 7) in
    let ack : rd32 p 8 ≡ word32 p 8 = rd32_sum p 8 (b 8) (b 9) (b 10) (b 11) in
    let wnd : rd16 p 14 ≡ word16 p 14 = rd16_sum p 14 (b 14) (b 15) in
    let up : rd16 p 18 ≡ word16 p 18 = rd16_sum p 18 (b 18) (b 19) in
    let shifted = window_lem (word16 p 14) scale (omega (arith, b 14, b 15)) in
    rw (flags, text, seq, ack, wnd, up, shifted) refl
