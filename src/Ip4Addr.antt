-- ===== src/Ip4Addr.antt =====
-- src/ip/ip4_addr.c and src/ip/ip4_addr.h, with the two functions of a mask in src/ip/ipv4.c: the
-- kinds of an IPv4 address, an address against a subnet, and the Ethernet address of a host group.
-- The borrow is its results and the mark that `clear` leaves.
pub mod Ranges
pub mod Mask
mod Tests
use idem_ip.Base.{
  ℕ, ◌+◌, ◌-◌, ◌*◌, ◌/◌, ◌%◌, ◌^◌, Bool, true, false, not, ◌&&◌, ◌||◌, bit_and, bit_or,
}
use idem_ip.Base.{bit_xor, ◌==◌, if◌then◌else◌, u8, u32, sub32, ◌>>>◌, [], ◌∷◌, replicate}
use idem_ip.Endian.{Octets}
use idem_ip.Config.{Status, ok, err}

-- `IdemIpIp4Class`
pub data AddrClass : Type 0 where
  class_a class_b class_c class_d class_e : AddrClass

-- `IdemIpIp4AddrType`
pub data AddrType : Type 0 where
  unspecified this_network loopback link_local multicast reserved broadcast unicast : AddrType

pub tagged : ℕ → ℕ → ℕ → Bool
tagged addr mask tag = bit_and addr mask == tag

pub addr_class : ℕ → AddrClass
addr_class addr =
    if tagged addr 0x8000_0000 0
    then class_a
    else if tagged addr 0xc000_0000 0x8000_0000
    then class_b
    else if tagged addr 0xe000_0000 0xc000_0000
    then class_c
    else if tagged addr 0xf000_0000 0xe000_0000
    then class_d
    else class_e

pub is_mcast : ℕ → Bool
is_mcast addr = tagged addr 0xf000_0000 0xe000_0000

pub addr_type : ℕ → AddrType
addr_type addr =
    if addr == 0xffff_ffff
    then broadcast
    else if addr == 0
    then unspecified
    else if tagged addr 0xff00_0000 0
    then this_network
    else if tagged addr 0xff00_0000 0x7f00_0000
    then loopback
    else if tagged addr 0xffff_0000 0xa9fe_0000
    then link_local
    else if is_mcast addr
    then multicast
    else if tagged addr 0xf000_0000 0xf000_0000
    then reserved
    else unicast

pub mcast_mac : ℕ → Octets
mcast_mac group =
    let low = bit_and group 0x007f_ffff in
    0x01
    ∷ 0x00
    ∷ 0x5e
    ∷ u8 (bit_and (low >>> 16) 0xff)
    ∷ u8 (bit_and (low >>> 8) 0xff)
    ∷ u8 (bit_and low 0xff)
    ∷ []

-- `ip4_mask_ones` and `ip4_mask_contiguous`.
unfoldable pub mask_ones : ℕ → ℕ
mask_ones mask =
    let n = sub32 mask (bit_and (mask >>> 1) 0x5555_5555) in
    let n = u32 (bit_and n 0x3333_3333 + bit_and (n >>> 2) 0x3333_3333) in
    let n = bit_and (u32 (n + n >>> 4)) 0x0f0f_0f0f in
    let n = u32 (n + n >>> 8) in let n = u32 (n + n >>> 16) in u8 (bit_and n 0x3f)

abbrev pub complement : ℕ → ℕ
complement mask = 2 ^ 32 - 1 - mask

unfoldable pub mask_contiguous : ℕ → Bool
mask_contiguous mask = let host = u32 (complement mask + 1) in bit_and host (sub32 host 1) == 0

-- The results of `Ip4AddrIo`.
pub record Io : Type 0 where
  pub status : Status
  pub network : ℕ
  pub broadcast_addr : ℕ
  pub host : ℕ
  pub mac : Octets
  pub type_is : AddrType
  pub class_is : AddrClass
  pub prefix_len : ℕ
  pub on_subnet : Bool
  pub is_broadcast : Bool
  pub contiguous : Bool

pub record Borrow : Type 0 where
  pub io : Io
  pub ready : Bool

abbrev pub status : Status → Borrow → Borrow
status s w = record w { io = record (w.io) { status = s } }

pub clear : Borrow → Borrow
clear w = status ok (record w { ready = true })

pub classify : Borrow → ℕ → Borrow
classify w addr = if not w.ready then status err w else record w {
  io = record (w.io) { class_is = addr_class addr; type_is = addr_type addr; status = ok };
}

pub match_subnet : Borrow → ℕ → ℕ → ℕ → Borrow
match_subnet w addr net mask =
    let e = record (w.io) {
      status = err;
      network = 0;
      broadcast_addr = 0;
      host = 0;
      prefix_len = 0;
      on_subnet = false;
      is_broadcast = false;
      contiguous = false;
    } in
    let network = bit_and net mask in
    let has_bcast = not (mask == 0xffff_ffff) && not (mask == 0xffff_fffe) in
    let bcast = if has_bcast then bit_or network (complement mask) else 0 in
    let on_subnet = bit_and (bit_xor addr net) mask == 0 in
    if not w.ready then record w { io = e } else record w {
      io = record e {
        network = network;
        broadcast_addr = bcast;
        host = bit_and addr (complement mask);
        prefix_len = mask_ones mask;
        contiguous = mask_contiguous mask;
        on_subnet = on_subnet;
        is_broadcast = addr == 0xffff_ffff || has_bcast && on_subnet && addr == bcast;
        status = ok;
      };
    }

pub mcast_mac_io : Borrow → ℕ → Borrow
mcast_mac_io w group =
    let e = record w { io = record (w.io) { status = err; mac = replicate 6 0 } } in
    if not w.ready || not (is_mcast group)
    then e
    else status ok (record e { io = record (e.io) { mac = mcast_mac group } })
