-- ===== src/Arp/Packet.antt =====
-- src/arp/arp.c: reading and writing the packet at the start of a span. The offsets are those of
-- src/arp/arp_defines.h. An address is read as its octets.
use idem_ip.Base.{ℕ, Bool, ◌&&◌, ◌==◌, set, drop}
use idem_ip.Endian.{Octets, octet, rd16, rd32, wr16, wr32, copy, clear}

abbrev pub mac_len : ℕ
mac_len = 6

abbrev pub packet_len : ℕ
packet_len = 28

abbrev pub op_request : ℕ
op_request = 1

abbrev pub op_reply : ℕ
op_reply = 2

unfoldable pub hrd : Octets → ℕ
hrd h = rd16 h 0

unfoldable pub pro : Octets → ℕ
pro h = rd16 h 2

unfoldable pub hln : Octets → ℕ
hln h = octet h 4

unfoldable pub pln : Octets → ℕ
pln h = octet h 5

unfoldable pub op : Octets → ℕ
op h = rd16 h 6

unfoldable pub sha : Octets → Octets
sha h = drop 8 h

unfoldable pub spa : Octets → ℕ
spa h = rd32 h 14

unfoldable pub tha : Octets → Octets
tha h = drop 18 h

unfoldable pub tpa : Octets → ℕ
tpa h = rd32 h 24

unfoldable pub is_ethernet_ipv4 : Octets → Bool
is_ethernet_ipv4 h = hrd h == 1 && pro h == 0x0800 && hln h == mac_len && pln h == 4

unfoldable pub is_request : Octets → Bool
is_request h = op h == op_request

unfoldable pub is_reply : Octets → Bool
is_reply h = op h == op_reply

unfoldable pub is_target : Octets → ℕ → Bool
is_target h pa = tpa h == pa

-- Every field but the target hardware address.
unfoldable pub build : Octets → ℕ → Octets → ℕ → ℕ → Octets
build w op sha spa tpa =
    let w1 = wr16 w 0 1 in
    let w2 = wr16 w1 2 0x0800 in
    let w3 = set w2 4 mac_len in
    let w4 = set w3 5 4 in
    let w5 = wr16 w4 6 op in
    let w6 = copy mac_len w5 8 sha 0 in let w7 = wr32 w6 14 spa in wr32 w7 24 tpa

unfoldable pub build_request : Octets → Octets → ℕ → ℕ → Octets
build_request w sha spa tpa = clear mac_len (build w op_request sha spa tpa) 18

unfoldable pub build_reply : Octets → Octets → ℕ → Octets → ℕ → Octets
build_reply w sha spa tha tpa = copy mac_len (build w op_reply sha spa tpa) 18 tha 0

-- A received request turned into its reply where it lies; `local_sha` is not part of the packet.
unfoldable pub reply_in_place : Octets → Octets → Octets
reply_in_place w local_sha =
    let s = rd32 w 14 in
    let t = rd32 w 24 in
    let w1 = copy mac_len w 18 w 8 in
    let w2 = copy mac_len w1 8 local_sha 0 in
    let w3 = wr32 w2 14 t in let w4 = wr32 w3 24 s in wr16 w4 6 op_reply
