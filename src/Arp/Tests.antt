-- ===== src/Arp/Tests.antt =====
-- ARP packets with concrete addresses.
use idem_ip.Base.{◌≡◌, true, [], ◌∷◌, arith, refl, replicate}
use idem_ip.Endian.{Octets, rd16}
use idem_ip.Endian.RoundTrip.{IsBytes, are_bytes, are_bytes_sound}
use idem_ip.Arp.Packet
use idem_ip.Arp.Packet.{build_request, build_reply, reply_in_place, op_request, op_reply}
use idem_ip.Arp.Packet.{is_ethernet_ipv4, hrd, pro, hln, pln}
use idem_ip.Arp.Reads.{Reads, build_request-Reads, build_reply-Reads}
use idem_ip.Arp.Reply.{reply_in_place-Reads}

abbrev our_mac : Octets
our_mac = 2 ∷ 0 ∷ 0 ∷ 0 ∷ 0 ∷ 1 ∷ []

abbrev peer_mac : Octets
peer_mac = 2 ∷ 0 ∷ 0 ∷ 0 ∷ 0 ∷ 9 ∷ []

-- A request from 192.168.0.9 for 192.168.0.7.
abbrev request : Octets
request =
    0 ∷ 1 ∷ 8 ∷ 0 ∷ 6 ∷ 4 ∷ 0 ∷ 1 ∷ 2 ∷ 0 ∷ 0 ∷ 0 ∷ 0 ∷ 9 ∷ 192 ∷ 168 ∷ 0 ∷ 9 ∷ 0 ∷ 0 ∷ 0 ∷ 0 ∷ 0
    ∷ 0 ∷ 192 ∷ 168 ∷ 0 ∷ 7 ∷ []

build_request-Reads_run :
    Reads op_request our_mac 0xc0a8_0007 [] 0xc0a8_0009
      (build_request (replicate 28 0xff) our_mac 0xc0a8_0007 0xc0a8_0009)
build_request-Reads_run =
    build_request-Reads (replicate 28 0xff) our_mac 0xc0a8_0007 0xc0a8_0009 (omega arith)
      (omega arith) (omega arith)

build_reply-Reads_run :
    Reads op_reply our_mac 0xc0a8_0007 peer_mac 0xc0a8_0009
      (build_reply (replicate 28 0xff) our_mac 0xc0a8_0007 peer_mac 0xc0a8_0009)
build_reply-Reads_run =
    build_reply-Reads (replicate 28 0xff) our_mac 0xc0a8_0007 peer_mac 0xc0a8_0009 (omega arith)
      (omega arith) (omega arith)

request-IsBytes : IsBytes request
unfolding are_bytes
request-IsBytes = are_bytes_sound request refl

request_is_arp : is_ethernet_ipv4 request ≡ true
unfolding is_ethernet_ipv4 hrd pro hln pln rd16
request_is_arp = refl

reply_in_place-Reads_example :
    Reads op_reply our_mac
      (Packet.tpa request)
      (Packet.sha request)
      (Packet.spa request)
      (reply_in_place request our_mac)
reply_in_place-Reads_example =
    reply_in_place-Reads request our_mac (omega arith) request-IsBytes request_is_arp
