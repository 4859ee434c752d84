-- ===== src/Arp/Reads.antt =====
-- What the packets that are built say when they are read.
use idem_ip.Base.{ℕ, ◌+◌, ◌^◌, ◌≤◌, ◌<◌, ◌≡◌, arith, ap, ◌∙◌, length}
use idem_ip.Base.{true, []}
use idem_ip.Endian.{Octets, octet, rd16, rd32, copy, clear}
use idem_ip.Endian.Frame.{SameOctets, Apart, rd16_cong, rd32_cong}
use idem_ip.Endian.Frame.{copy-SameOctets, clear-SameOctets, octet-copy}
use idem_ip.Endian.Frame.{octet-clear, octet-drop}
use idem_ip.Arp.Packet
use idem_ip.Arp.Packet.{build, build_request, build_reply, reply_in_place, mac_len, packet_len}
use idem_ip.Arp.Packet.{op_request, op_reply, is_ethernet_ipv4}
use idem_ip.Arp.Build.{HasFields, build-HasFields}

-- The two spans start with the same hardware address.
abbrev pub SameMac : Octets → Octets → Type 0
SameMac a b = (j : ℕ) → j < mac_len → octet a j ≡ octet b j

-- The packet `r` reads as an Ethernet and IPv4 packet with these fields.
pub record Reads (op : ℕ) (sha : Octets) (spa : ℕ) (tha : Octets) (tpa : ℕ) (r : Octets)
    : Type 0 where
  pub ethernet_ipv4 : is_ethernet_ipv4 r ≡ true
  pub op_is : Packet.op r ≡ op
  pub sha_is : SameMac (Packet.sha r) sha
  pub spa_is : Packet.spa r ≡ spa
  pub tha_is : SameMac (Packet.tha r) tha
  pub tpa_is : Packet.tpa r ≡ tpa

-- Fields at their places make a packet that reads.
pub reads :
    (r : Octets) (op : ℕ) (sha : Octets) (spa : ℕ) (tha : Octets) (tpa : ℕ)
    → (rd16 r 0 ≡ 1) × (rd16 r 2 ≡ 0x0800) × (octet r 4 ≡ mac_len) × (octet r 5 ≡ 4)
    → rd16 r 6 ≡ op
    → ((j : ℕ) → j < mac_len → octet r (8 + j) ≡ octet sha j)
    → rd32 r 14 ≡ spa
    → ((j : ℕ) → j < mac_len → octet r (18 + j) ≡ octet tha j)
    → rd32 r 24 ≡ tpa
    → Reads op sha spa tha tpa r
unfolding is_ethernet_ipv4 Packet.hrd Packet.pro Packet.hln Packet.pln Packet.op Packet.sha
    Packet.spa Packet.tha Packet.tpa
reads r op sha spa tha tpa h o a s b t = record {
  ethernet_ipv4 = ground arith;
  op_is = o;
  sha_is = λ j l. octet-drop 8 r j ∙ a j l;
  spa_is = s;
  tha_is = λ j l. octet-drop 18 r j ∙ b j l;
  tpa_is = t;
}

-- A built packet, after a write of the target hardware address alone.
with_tha :
    (w r q : Octets) (op : ℕ) (sha : Octets) (spa : ℕ) (tha : Octets) (tpa : ℕ)
    → HasFields w op sha spa tpa r
    → ((i e : ℕ) → Apart 18 mac_len i e → SameOctets q r i e)
    → ((j : ℕ) → j < mac_len → octet q (18 + j) ≡ octet tha j)
    → Reads op sha spa tha tpa q
with_tha w r q op sha spa tha tpa f same h =
    reads q op sha spa tha tpa
      (
        rd16_cong q r 0 (same 0 2 (omega arith)) ∙ f.hrd_is,
        rd16_cong q r 2 (same 2 4 (omega arith)) ∙ f.pro_is,
        same 4 5 (omega arith) 4 (omega arith) (omega arith) ∙ f.hln_is,
        same 5 6 (omega arith) 5 (omega arith) (omega arith) ∙ f.pln_is,
      )
      (rd16_cong q r 6 (same 6 8 (omega arith)) ∙ f.op_is)
      (λ j l.
        same (8 + j) (8 + j + 1) (omega arith) (8 + j) (omega arith) (omega arith) ∙ f.sha_is j l)
      (rd32_cong q r 14 (same 14 18 (omega arith)) ∙ f.spa_is) h
      (rd32_cong q r 24 (same 24 28 (omega arith)) ∙ f.tpa_is)

-- In a span with room for a packet, and for 32-bit protocol addresses, the request that is built
-- reads as a request from the sender's two addresses for the target protocol address, with a zero
-- target hardware address.
pub build_request-Reads :
    (w sha : Octets) (spa tpa : ℕ)
    → packet_len ≤ length w
    → spa < 2 ^ 32
    → tpa < 2 ^ 32
    → Reads op_request sha spa [] tpa (build_request w sha spa tpa)
unfolding build_request
build_request-Reads w sha spa tpa room s t =
    let r = build w op_request sha spa tpa in
    with_tha w r (clear mac_len r 18) op_request sha spa [] tpa
      (build-HasFields w op_request sha spa tpa room (omega arith) s t)
      (λ i e a. clear-SameOctets mac_len r 18 i e a)
      (λ j l. octet-clear mac_len r 18 (18 + j) (omega arith) (omega arith))

-- In a span with room for a packet, and for 32-bit protocol addresses, the reply that is built
-- reads as a reply with the four addresses that it is given.
pub build_reply-Reads :
    (w sha : Octets) (spa : ℕ) (tha : Octets) (tpa : ℕ)
    → packet_len ≤ length w
    → spa < 2 ^ 32
    → tpa < 2 ^ 32
    → Reads op_reply sha spa tha tpa (build_reply w sha spa tha tpa)
unfolding build_reply
build_reply-Reads w sha spa tha tpa room s t =
    let r = build w op_reply sha spa tpa in
    let f = build-HasFields w op_reply sha spa tpa room (omega arith) s t in
    with_tha w r (copy mac_len r 18 tha 0) op_reply sha spa tha tpa f
      (λ i e a. copy-SameOctets mac_len r 18 tha 0 i e a)
      (λ j l.
        octet-copy mac_len r 18 tha 0 j l (omega (arith, f.len)) ∙ ap (octet tha) (omega arith))
