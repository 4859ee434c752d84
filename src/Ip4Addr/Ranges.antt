-- ===== src/Ip4Addr/Ranges.antt =====
-- The kinds of an address are ranges.
use idem_ip.Base.{
  ℕ, ◌+◌, ◌-◌, ◌*◌, ◌/◌, ◌%◌, ◌^◌, ◌<◌, ◌≡◌, bit_and, arith, ap, sym, ◌∙◌, ltb, leb, ◌==◌,
}
use idem_ip.Base.{if◌then◌else◌, ◌&&◌}
use idem_ip.Base.Bits.{bit_and_high, bit_and_mask}
use idem_ip.Ip4Addr.{AddrType, AddrClass, class_a, class_b, class_c, class_d, class_e, tagged}
use idem_ip.Ip4Addr.{
  addr_class, addr_type, is_mcast, unspecified, this_network, loopback, link_local,
}
use idem_ip.Ip4Addr.{multicast, reserved, broadcast, unicast}

-- A mask of the top `j` bits keeps the part of the address that they hold.
high_bits :
    (addr j k : ℕ)
    → addr < 2 ^ k * 2 ^ j
    → 0 < 2 ^ k
    → bit_and addr ((2 ^ j - 1) * 2 ^ k) ≡ addr / 2 ^ k * 2 ^ k
high_bits addr j k l p =
    let parts : addr / 2 ^ k * 2 ^ k + addr % 2 ^ k ≡ addr = grind arith in
    let quotient : addr / 2 ^ k < 2 ^ j = grind arith in
    let kept : bit_and (addr / 2 ^ k) (2 ^ j - 1) ≡ addr / 2 ^ k =
      bit_and_mask j (addr / 2 ^ k) ∙ grind arith in
    ap (λ (t : ℕ). bit_and t ((2 ^ j - 1) * 2 ^ k)) (sym parts)
    ∙ bit_and_high k (addr / 2 ^ k) (addr % 2 ^ k) (2 ^ j - 1) (grind arith)
    ∙ ap (λ (t : ℕ). t * 2 ^ k) kept

-- The ranges, in the dotted notation of the RFCs: 0 to 0.255.255.255, 127 to 127.255.255.255,
-- 169.254 to 169.254.255.255, 224 to 239.255.255.255 and 240 on.
abbrev pub type_of_range : ℕ → AddrType
type_of_range a =
    if a == 0
    then unspecified
    else if ltb a 0x0100_0000
    then this_network
    else if leb 0x7f00_0000 a && ltb a 0x8000_0000
    then loopback
    else if leb 0xa9fe_0000 a && ltb a 0xa9ff_0000
    then link_local
    else if ltb a 0xe000_0000
    then unicast
    else if ltb a 0xf000_0000
    then multicast
    else if ltb a 0xffff_ffff
    then reserved
    else broadcast

abbrev pub class_of_range : ℕ → AddrClass
class_of_range a =
    if ltb a 0x8000_0000
    then class_a
    else if ltb a 0xc000_0000
    then class_b
    else if ltb a 0xe000_0000
    then class_c
    else if ltb a 0xf000_0000
    then class_d
    else class_e

-- The kind and the class of a 32-bit IPv4 address, which the code tells by masks and tags, are
-- those of the range that the address lies in.
pub addr_type-ranges :
    (addr : ℕ)
    → addr < 2 ^ 32
    → (addr_type addr ≡ type_of_range addr) × (addr_class addr ≡ class_of_range addr)
unfolding addr_type addr_class is_mcast tagged
addr_type-ranges addr l =
    let one : bit_and addr 0x8000_0000 ≡ addr / 2 ^ 31 * 2 ^ 31 =
      high_bits addr 1 31 l (omega arith) in
    let two : bit_and addr 0xc000_0000 ≡ addr / 2 ^ 30 * 2 ^ 30 =
      high_bits addr 2 30 l (omega arith) in
    let three : bit_and addr 0xe000_0000 ≡ addr / 2 ^ 29 * 2 ^ 29 =
      high_bits addr 3 29 l (omega arith) in
    let four : bit_and addr 0xf000_0000 ≡ addr / 2 ^ 28 * 2 ^ 28 =
      high_bits addr 4 28 l (omega arith) in
    let eight : bit_and addr 0xff00_0000 ≡ addr / 2 ^ 24 * 2 ^ 24 =
      high_bits addr 8 24 l (omega arith) in
    let sixteen : bit_and addr 0xffff_0000 ≡ addr / 2 ^ 16 * 2 ^ 16 =
      high_bits addr 16 16 l (omega arith) in
    (ground arith, ground arith)
