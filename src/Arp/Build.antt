-- ===== src/Arp/Build.antt =====
-- What `arp_build_pkt` writes, field by field.
use idem_ip.Base.{ℕ, ◌+◌, ◌^◌, ◌≤◌, ◌<◌, ◌≡◌, ◌⊎◌, arith, ap, ◌∙◌, length, length-set}
use idem_ip.Base.{set, get_or-set}
use idem_ip.Endian.{Octets, octet, rd16, rd32, wr16, wr32, copy}
use idem_ip.Endian.RoundTrip.{rd16-wr16, rd32-wr32, length-wr16, length-wr32}
use idem_ip.Endian.Frame.{SameOctets, Apart, rd16_cong, rd32_cong, set-SameOctets, wr16-SameOctets}
use idem_ip.Endian.Frame.{wr32-SameOctets, copy-SameOctets, octet-copy}
use idem_ip.Endian.Frame.{length-copy}
use idem_ip.Arp.Packet.{build, mac_len, packet_len}

-- A packet that reads as these fields, in a span whose octets from `packet_len` on are `w`'s.
pub record HasFields (w : Octets) (op : ℕ) (sha : Octets) (spa tpa : ℕ) (r : Octets) : Type 0 where
  pub len : length r ≡ length w
  pub hrd_is : rd16 r 0 ≡ 1
  pub pro_is : rd16 r 2 ≡ 0x0800
  pub hln_is : octet r 4 ≡ mac_len
  pub pln_is : octet r 5 ≡ 4
  pub op_is : rd16 r 6 ≡ op
  pub sha_is : (j : ℕ) → j < mac_len → octet r (8 + j) ≡ octet sha j
  pub spa_is : rd32 r 14 ≡ spa
  pub tpa_is : rd32 r 24 ≡ tpa
  pub behind : (j : ℕ) → packet_len ≤ j → octet r j ≡ octet w j

module _ (w : Octets) (op : ℕ) (sha : Octets) (spa tpa : ℕ) (room : packet_len ≤ length w)
    (o : op < 65536) (s : spa < 2 ^ 32) (t : tpa < 2 ^ 32) where
  abbrev w1 : Octets
  w1 = wr16 w 0 1

  abbrev w2 : Octets
  w2 = wr16 w1 2 0x0800

  abbrev w3 : Octets
  w3 = set w2 4 mac_len

  abbrev w4 : Octets
  w4 = set w3 5 4

  abbrev w5 : Octets
  w5 = wr16 w4 6 op

  abbrev w6 : Octets
  w6 = copy mac_len w5 8 sha 0

  abbrev w7 : Octets
  w7 = wr32 w6 14 spa

  abbrev w8 : Octets
  w8 = wr32 w7 24 tpa

  lengths :
      (length w1 ≡ length w)
      × (length w2 ≡ length w)
      × (length w3 ≡ length w)
      × (length w4 ≡ length w)
      × (length w5 ≡ length w)
      × (length w6 ≡ length w)
      × (length w7 ≡ length w)
      × (length w8 ≡ length w)
  lengths =
      let a = length-wr16 w 0 1 in
      let b = length-wr16 w1 2 0x0800 ∙ a in
      let c = length-set w2 4 mac_len ∙ b in
      let d = length-set w3 5 4 ∙ c in
      let e = length-wr16 w4 6 op ∙ d in
      let f = length-copy mac_len w5 8 sha 0 ∙ e in
      let g = length-wr32 w6 14 spa ∙ f in
      let h = length-wr32 w7 24 tpa ∙ g in (a, b, c, d, e, f, g, h)

  -- The later writes leave these places alone.
  from7 : (i e : ℕ) → Apart 24 4 i e → SameOctets w8 w7 i e
  from7 i e a = wr32-SameOctets w7 24 tpa i e a

  from6 : (i e : ℕ) → Apart 24 4 i e → Apart 14 4 i e → SameOctets w8 w6 i e
  from6 i e a b j l g = from7 i e a j l g ∙ wr32-SameOctets w6 14 spa i e b j l g

  from5 : (i e : ℕ) → (e ≤ 8) ⊎ (28 ≤ i) → SameOctets w8 w5 i e
  from5 i e a j l g =
      from6 i e (omega arith) (omega arith) j l g
      ∙ copy-SameOctets mac_len w5 8 sha 0 i e (omega arith) j l g

  from4 : (i e : ℕ) → (e ≤ 6) ⊎ (28 ≤ i) → SameOctets w8 w4 i e
  from4 i e a j l g =
      from5 i e (omega arith) j l g ∙ wr16-SameOctets w4 6 op i e (omega arith) j l g

  from3 : (i e : ℕ) → (e ≤ 5) ⊎ (28 ≤ i) → SameOctets w8 w3 i e
  from3 i e a j l g = from4 i e (omega arith) j l g ∙ set-SameOctets w3 5 4 i e (omega arith) j l g

  from2 : (i e : ℕ) → (e ≤ 4) ⊎ (28 ≤ i) → SameOctets w8 w2 i e
  from2 i e a j l g =
      from3 i e (omega arith) j l g ∙ set-SameOctets w2 4 mac_len i e (omega arith) j l g

  from1 : (i e : ℕ) → (e ≤ 2) ⊎ (28 ≤ i) → SameOctets w8 w1 i e
  from1 i e a j l g =
      from2 i e (omega arith) j l g ∙ wr16-SameOctets w1 2 0x0800 i e (omega arith) j l g

  pub build-HasFields : HasFields w op sha spa tpa (build w op sha spa tpa)
  unfolding build
  build-HasFields = record {
    len = lengths.7;
    hrd_is =
        rd16_cong w8 w1 0 (from1 0 2 (omega arith)) ∙ rd16-wr16 w 0 1 (omega arith) (omega arith);
    pro_is =
        rd16_cong w8 w2 2 (from2 2 4 (omega arith))
        ∙ rd16-wr16 w1 2 0x0800 (omega (arith, lengths)) (omega arith);
    hln_is =
        from3 4 5 (omega arith) 4 (omega arith) (omega arith)
        ∙ get_or-set w2 4 4 mac_len 0
        ∙ ground (arith, lengths);
    pln_is =
        from4 5 6 (omega arith) 5 (omega arith) (omega arith)
        ∙ get_or-set w3 5 5 4 0
        ∙ ground (arith, lengths);
    op_is =
        rd16_cong w8 w5 6 (from5 6 8 (omega arith)) ∙ rd16-wr16 w4 6 op (omega (arith, lengths)) o;
    sha_is = λ j h.
        from6 (8 + j) (8 + j + 1) (omega arith) (omega arith) (8 + j) (omega arith) (omega arith)
        ∙ octet-copy mac_len w5 8 sha 0 j h (omega (arith, lengths))
        ∙ ap (octet sha) (omega arith);
    spa_is =
        rd32_cong w8 w7 14 (from7 14 18 (omega arith))
        ∙ rd32-wr32 w6 14 spa (omega (arith, lengths)) s;
    tpa_is = rd32-wr32 w7 24 tpa (omega (arith, lengths)) t;
    behind = λ j h.
        from1 j (j + 1) (omega arith) j (omega arith) (omega arith)
        ∙ wr16-SameOctets w 0 1 j (j + 1) (omega arith) j (omega arith) (omega arith);
  }
