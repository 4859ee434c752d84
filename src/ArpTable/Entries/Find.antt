-- ===== src/ArpTable/Entries/Find.antt =====
-- What src/arp/arp_table.c finds after a triplet has been added or received.
use idem_ip.Base.{ℕ, ◌≤◌, true, false, some, ◌≡◌, refl, sym}
use idem_ip.Base.{ap, ◌∙◌, ◌≢◌, ◌⊎◌, inl, inr, Bool-cases, ◌==◌, length, take, arith}
use native.Mathlib.Decide.{ℕ_discrete}
use idem_ip.Config.{ok}
use idem_ip.Endian.{Octets}
use idem_ip.Arp.Packet
use idem_ip.Arp.Packet.{mac_len, is_ethernet_ipv4, is_target, is_request}
use idem_ip.ArpTable.{Row, Tables, row_at, index_none, pro_ipv4, row_find, learn}
use idem_ip.ArpTable.{Learned, has_key}
use idem_ip.ArpTable.Learn.{Written, AllBut, learn-Written, learn-none, Written-row_find}
use idem_ip.ArpTable.Entries.{Borrow, add, find, input, is_keyed, is_learned, is_ours, in_conflict}
use idem_ip.ArpTable.Entries.{owes_reply, learn_sender}

-- What a find reports of a row that is whole.
find-Written :
    (w : Borrow) (t : Tables) (spa : ℕ) (sha : Octets) (netif now : ℕ) (l : Learned)
    → length t.rows ≤ index_none
    → w.ready ≡ true
    → spa ≢ 0
    → w.tabs ≡ l.tabs
    → Written t pro_ipv4 spa sha netif now l
    → ((find w pro_ipv4 spa).io.status ≡ ok)
      × ((find w pro_ipv4 spa).io.mac ≡ some (take mac_len sha))
      × ((find w pro_ipv4 spa).io.netif ≡ netif)
      × ((find w pro_ipv4 spa).io.index ≡ l.slot)
unfolding find
find-Written w t spa sha netif now l n r s e h =
    let at_slot : row_find w.tabs pro_ipv4 spa ≡ l.slot =
      ap (λ (u : Tables). row_find u pro_ipv4 spa) e
      ∙ Written-row_find t pro_ipv4 spa sha netif now l n h in
    let named : spa == 0 ≡ false = ground arith in
    let inside : l.slot == index_none ≡ false = ground (arith, h.inside) in
    rw (find, r, at_slot, named, inside, e, h.stable) (refl, ap some h.address, h.from, refl)

add_ok :
    (w : Borrow) (pro spa : ℕ) (sha : Octets) (netif now : ℕ)
    → (add w pro spa (some sha) netif now).io.status ≡ ok
    → (is_keyed pro spa ≡ true)
      × ((add w pro spa (some sha) netif now).ready ≡ true)
      × ((add w pro spa (some sha) netif now).tabs ≡ (learn w.tabs pro spa sha netif now true).tabs)
      × ((add w pro spa (some sha) netif now).io.index
          ≡ (learn w.tabs pro spa sha netif now true).slot)
      × ((learn w.tabs pro spa sha netif now true).slot ≢ index_none)
unfolding add
add_ok w pro spa sha netif now h = ground arith

-- In a table of at most 255 rows, an IPv4 binding whose add is OK is found: the find after it is
-- OK and gives the first six octets of the hardware address that was handed over, its interface
-- and the row that the add reported.
pub add-find :
    (w : Borrow) (spa : ℕ) (sha : Octets) (netif now : ℕ)
    → length w.tabs.rows ≤ index_none
    → (add w pro_ipv4 spa (some sha) netif now).io.status ≡ ok
    → ((find (add w pro_ipv4 spa (some sha) netif now) pro_ipv4 spa).io.status ≡ ok)
      × ((find (add w pro_ipv4 spa (some sha) netif now) pro_ipv4 spa).io.mac
          ≡ some (take mac_len sha))
      × ((find (add w pro_ipv4 spa (some sha) netif now) pro_ipv4 spa).io.netif ≡ netif)
      × ((find (add w pro_ipv4 spa (some sha) netif now) pro_ipv4 spa).io.index
          ≡ (add w pro_ipv4 spa (some sha) netif now).io.index)
add-find w spa sha netif now n h =
    let a = add_ok w pro_ipv4 spa sha netif now h in
    let l = learn w.tabs pro_ipv4 spa sha netif now true in
    let wr = learn-Written w.tabs pro_ipv4 spa sha netif now true n a.4 in
    let f =
      find-Written (add w pro_ipv4 spa (some sha) netif now) w.tabs spa sha netif now l n a.1
        (ground arith) a.2 wr in
    (f.0, f.1, f.2, f.3 ∙ sym a.3)

pub input_steps :
    (w : Borrow) (packet : Octets) (local_pa netif now : ℕ)
    → w.ready ≡ true
    → is_ethernet_ipv4 packet ≡ true
    → ((input w (some packet) local_pa netif now).io.status ≡ ok)
      × ((input w (some packet) local_pa netif now).ready ≡ true)
      × ((input w (some packet) local_pa netif now).io.conflict ≡ in_conflict packet local_pa)
      × ((input w (some packet) local_pa netif now).io.reply_owed ≡ owes_reply packet local_pa)
      × (is_learned packet local_pa ≡ false
          → ((input w (some packet) local_pa netif now).tabs ≡ w.tabs)
            × ((input w (some packet) local_pa netif now).io.index ≡ index_none))
      × (is_learned packet local_pa ≡ true
          → ((input w (some packet) local_pa netif now).tabs
              ≡ (learn_sender w.tabs packet netif now (is_ours packet local_pa)).tabs)
            × ((input w (some packet) local_pa netif now).io.index
                ≡ (learn_sender w.tabs packet netif now (is_ours packet local_pa)).slot))
unfolding input
input_steps w packet local_pa netif now r e = elim (Bool-cases (is_learned packet local_pa)) [
  | inr c ↦
      rw (input, r, e, c) (refl, refl, refl, refl, λ h. (refl, refl), λ h. absurd (ground arith))
  | inl c ↦
      elim (Bool-cases
        ((learn_sender w.tabs packet netif now (is_ours packet local_pa)).slot == index_none)) [
          | inl d ↦
              rw (input, r, e, c, d)
                (refl, refl, refl, refl, λ h. absurd (ground arith), λ h. (refl, refl))
          | inr d ↦
              rw (input, r, e, c, d)
                (refl, refl, refl, refl, λ h. absurd (ground arith), λ h. (refl, refl))
        ]
]

is_learned_iff :
    (packet : Octets) (local_pa : ℕ)
    → is_learned packet local_pa ≡ true
    → (Packet.spa packet ≢ 0) × (local_pa ≢ 0 → Packet.spa packet ≢ local_pa)
unfolding is_learned in_conflict
is_learned_iff packet local_pa h = (λ e. absurd (ground arith), λ n e. absurd (ground arith))

-- In a cleared borrow of at most 255 rows, a packet for Ethernet and IPv4 that is to be learned
-- from, and for which a row is reported, is merged: a find of its sender protocol address after it
-- gives its sender hardware address, the interface that it came in on and that row.
pub input-find :
    (w : Borrow) (packet : Octets) (local_pa netif now : ℕ)
    → length w.tabs.rows ≤ index_none
    → w.ready ≡ true
    → is_ethernet_ipv4 packet ≡ true
    → is_learned packet local_pa ≡ true
    → (input w (some packet) local_pa netif now).io.index ≢ index_none
    → ((find (input w (some packet) local_pa netif now) pro_ipv4 (Packet.spa packet)).io.status
        ≡ ok)
      × ((find (input w (some packet) local_pa netif now) pro_ipv4 (Packet.spa packet)).io.mac
          ≡ some (take mac_len (Packet.sha packet)))
      × ((find (input w (some packet) local_pa netif now) pro_ipv4 (Packet.spa packet)).io.netif
          ≡ netif)
      × ((find (input w (some packet) local_pa netif now) pro_ipv4 (Packet.spa packet)).io.index
          ≡ (input w (some packet) local_pa netif now).io.index)
unfolding learn_sender
input-find w packet local_pa netif now l r e c n =
    let s = input_steps w packet local_pa netif now r e in
    let step = s.5 c in
    let ipv4 : Packet.pro packet ≡ pro_ipv4 = unfold is_ethernet_ipv4 in ground arith in
    let learned = learn_sender w.tabs packet netif now (is_ours packet local_pa) in
    let wr =
      learn-Written w.tabs (Packet.pro packet) _ (Packet.sha packet) netif now _ l
        (λ h. n (step.1 ∙ h)) in
    let f =
      find-Written (input w (some packet) local_pa netif now) w.tabs (Packet.spa packet)
        (Packet.sha packet) netif now learned l s.1 (is_learned_iff packet local_pa c).0 step.0
        (rw (← ipv4) wr) in
    (f.0, f.1, f.2, f.3 ∙ sym step.1)

-- No key of ours: a row of our own address after a packet stood there before it.
keyed_ne :
    (pro pro2 spa other : ℕ) (e : Row)
    → has_key pro spa e ≡ true
    → spa ≢ other
    → has_key pro2 other e ≡ false
unfolding has_key
keyed_ne pro pro2 spa other e h n = ground arith

input_tabs :
    (w : Borrow) (packet : Octets) (local_pa netif now : ℕ)
    → ((input w (some packet) local_pa netif now).tabs ≡ w.tabs)
      ⊎ ((is_learned packet local_pa ≡ true)
          × ((input w (some packet) local_pa netif now).tabs
              ≡ (learn_sender w.tabs packet netif now (is_ours packet local_pa)).tabs))
unfolding input
input_tabs w packet local_pa netif now = ground arith

-- In a table of at most 255 rows, no packet makes a row for the machine's own protocol address,
-- where it has one that is not zero: a row that is keyed on it after the packet, under any
-- protocol type, was keyed on it before.
pub input_own :
    (w : Borrow) (packet : Octets) (local_pa netif now pro j : ℕ)
    → length w.tabs.rows ≤ index_none
    → local_pa ≢ 0
    → has_key pro local_pa (row_at (input w (some packet) local_pa netif now).tabs j) ≡ true
    → has_key pro local_pa (row_at w.tabs j) ≡ true
unfolding learn_sender AllBut
input_own w packet local_pa netif now pro j l n h =
    let t = w.tabs in
    let own = λ (u : Tables). has_key pro local_pa (row_at u j) in
    let learned = learn_sender t packet netif now (is_ours packet local_pa) in
    elim (input_tabs w packet local_pa netif now) [
      | inl same ↦ ap own (sym same) ∙ h
      | inr p ↦ elim (ℕ_discrete learned.slot index_none) [
        | yes none_left ↦
            ap own (sym (learn-none t _ _ _ netif now _ l none_left)) ∙ ap own (sym p.1) ∙ h
        | no found ↦
            let wr = learn-Written t _ _ (Packet.sha packet) netif now _ l found in
            elim (ℕ_discrete learned.slot j) [
              | yes here ↦
                  let keyed =
                    ap
                      (λ (k : ℕ).
                        has_key (Packet.pro packet) (Packet.spa packet) (row_at learned.tabs k))
                      (sym here)
                    ∙ wr.keyed in
                  let other = (is_learned_iff packet local_pa p.0).1 n in
                  absurd (
                    ground (
                      arith,
                      keyed_ne _ pro _ local_pa (row_at learned.tabs j) keyed other,
                      ap own p.1,
                    ))
              | no apart ↦
                  ap (has_key pro local_pa) (sym (wr.others.1 j apart)) ∙ ap own (sym p.1) ∙ h
            ]
      ]
    ]
