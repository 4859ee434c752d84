-- ===== src/Arp/Reply.antt =====
-- The request branch of RFC 826's reception: `arp_reply_in_place` answers in the request's octets.
use idem_ip.Base.{ℕ, ◌+◌, ◌^◌, ◌≤◌, ◌<◌, ◌≡◌, ◌⊎◌, inr, arith, sym, ap, ◌∙◌, length}
use idem_ip.Base.{true}
use idem_ip.Endian.{Octets, octet, rd16, rd32, wr16, wr32, copy}
use idem_ip.Endian.RoundTrip.{IsBytes, rd16-wr16, rd32-wr32, rd32_sum, length-wr32}
use idem_ip.Endian.Frame.{SameOctets, Apart, rd16_cong, rd32_cong, wr16-SameOctets}
use idem_ip.Endian.Frame.{wr32-SameOctets, copy-SameOctets, octet-copy, length-copy}
use idem_ip.Endian.Frame.{octet-drop}
use idem_ip.Arp.Packet
use idem_ip.Arp.Packet.{reply_in_place, mac_len, packet_len, op_reply, is_ethernet_ipv4}
use idem_ip.Arp.Reads.{Reads, reads}

pub rd32-lt : (p : Octets) (i : ℕ) → IsBytes p → rd32 p i < 2 ^ 32
rd32-lt p i b = omega (
  arith,
  rd32_sum p i (b i) (b (i + 1)) (b (i + 2)) (b (i + 3)),
  b i,
  b (i + 1),
  b (i + 2),
  b (i + 3),
)

pairing :
    (w : Octets)
    → is_ethernet_ipv4 w ≡ true
    → (rd16 w 0 ≡ 1) × (rd16 w 2 ≡ 0x0800) × (octet w 4 ≡ mac_len) × (octet w 5 ≡ 4)
unfolding is_ethernet_ipv4 Packet.hrd Packet.pro Packet.hln Packet.pln
pairing w h = ground arith

module _ (w local : Octets) (room : packet_len ≤ length w) (bytes : IsBytes w) where
  abbrev w1 : Octets
  w1 = copy mac_len w 18 w 8

  abbrev w2 : Octets
  w2 = copy mac_len w1 8 local 0

  abbrev w3 : Octets
  w3 = wr32 w2 14 (rd32 w 24)

  abbrev w4 : Octets
  w4 = wr32 w3 24 (rd32 w 14)

  abbrev w5 : Octets
  w5 = wr16 w4 6 op_reply

  lengths :
      (length w1 ≡ length w)
      × (length w2 ≡ length w)
      × (length w3 ≡ length w)
      × (length w4 ≡ length w)
  lengths =
      let a = length-copy mac_len w 18 w 8 in
      let b = length-copy mac_len w1 8 local 0 ∙ a in
      let c = length-wr32 w2 14 (rd32 w 24) ∙ b in
      let d = length-wr32 w3 24 (rd32 w 14) ∙ c in (a, b, c, d)

  from4 : (i e : ℕ) → (8 ≤ i) ⊎ (e ≤ 6) → SameOctets w5 w4 i e
  from4 i e a = wr16-SameOctets w4 6 op_reply i e (omega arith)

  from3 : (i e : ℕ) → (8 ≤ i) ⊎ (e ≤ 6) → Apart 24 4 i e → SameOctets w5 w3 i e
  from3 i e a b j l g = from4 i e a j l g ∙ wr32-SameOctets w3 24 (rd32 w 14) i e b j l g

  from2 : (i e : ℕ) → (8 ≤ i) ⊎ (e ≤ 6) → Apart 24 4 i e → Apart 14 4 i e → SameOctets w5 w2 i e
  from2 i e a b c j l g = from3 i e a b j l g ∙ wr32-SameOctets w2 14 (rd32 w 24) i e c j l g

  from1 : (i e : ℕ) → (18 ≤ i) × (e ≤ 24) ⊎ (e ≤ 6) → SameOctets w5 w1 i e
  from1 i e a j l g =
      from2 i e (omega arith) (omega arith) (omega arith) j l g
      ∙ copy-SameOctets mac_len w1 8 local 0 i e (omega arith) j l g

  from0 : (i e : ℕ) → e ≤ 6 → SameOctets w5 w i e
  from0 i e a j l g =
      from1 i e (inr a) j l g ∙ copy-SameOctets mac_len w 18 w 8 i e (omega arith) j l g

  -- In a span of octets with room for a packet, a packet for Ethernet and IPv4 becomes, where it
  -- lies, the reply from the local hardware address and the address that was asked for, to the
  -- sender's two addresses.
  pub reply_in_place-Reads :
      is_ethernet_ipv4 w ≡ true
      → Reads op_reply local (Packet.tpa w) (Packet.sha w) (Packet.spa w) (reply_in_place w local)
  unfolding reply_in_place Packet.tpa Packet.sha Packet.spa
  reply_in_place-Reads h =
      let p = pairing w h in
      reads w5 op_reply local (rd32 w 24) (Packet.sha w) (rd32 w 14)
        (
          rd16_cong w5 w 0 (from0 0 2 (omega arith)) ∙ p.0,
          rd16_cong w5 w 2 (from0 2 4 (omega arith)) ∙ p.1,
          from0 4 5 (omega arith) 4 (omega arith) (omega arith) ∙ p.2,
          from0 5 6 (omega arith) 5 (omega arith) (omega arith) ∙ p.3,
        )
        (rd16-wr16 w4 6 op_reply (omega (arith, lengths)) (omega arith))
        (λ j l.
          from2 (8 + j) (8 + j + 1) (omega arith) (omega arith) (omega arith) (8 + j) (omega arith)
            (omega arith)
          ∙ octet-copy mac_len w1 8 local 0 j l (omega (arith, lengths))
          ∙ ap (octet local) (omega arith))
        (rd32_cong w5 w3 14 (from3 14 18 (omega arith) (omega arith))
          ∙ rd32-wr32 w2 14 (rd32 w 24) (omega (arith, lengths)) (rd32-lt w 24 bytes))
        (λ j l.
          from1 (18 + j) (18 + j + 1) (omega arith) (18 + j) (omega arith) (omega arith)
          ∙ octet-copy mac_len w 18 w 8 j l (omega arith)
          ∙ sym (octet-drop 8 w j))
        (rd32_cong w5 w4 24 (from4 24 28 (omega arith))
          ∙ rd32-wr32 w3 24 (rd32 w 14) (omega (arith, lengths)) (rd32-lt w 14 bytes))
