-- ===== src/Acd/Conflicts.antt =====
-- How a conflict is answered, what is no conflict, and how often an address may be tried.
use idem_ip.Base.{sub32, ◌<◌, ◌≤◌, ℕ, ◌+◌, ◌≡◌, ◌≢◌, ◌⊎◌, Bool, true, false, some}
use idem_ip.Base.{arith, refl, if◌then◌else◌, ◌||◌, ◌↔◌}
use idem_ip.Endian.{Octets}
use idem_ip.Endian.RoundTrip.{IsBytes}
use idem_ip.Endian.Frame.{octet-drop}
use idem_ip.Host.{Width}
use idem_ip.Span.Correct.{bytes_eq_iff}
use idem_ip.Arp.Packet.{spa, sha, is_request, is_reply, is_ethernet_ipv4, mac_len}
use idem_ip.Arp.Reads.{SameMac}
use idem_ip.Config.{ok}
use idem_ip.Acd.{State, off, probe_wait, probing, announce_wait, announcing, ongoing, rate_limit}
use idem_ip.Acd.{Ctx, Borrow, is_ready, enter}
use idem_ip.Acd.{defend_never, defend_once, is_recent}
use idem_ip.Acd.{count_conflict, abandon, defend, ongoing_conflict, probe_conflict, own_mac, arp_in}
use idem_ip.Acd.{receive, receive_in, mark_conflict, report, publish}

-- The states in which an address is in use.
abbrev pub IsInUse : State → Type 0
IsInUse announcing = Unit {0}
IsInUse ongoing = Unit {0}
IsInUse _ = ⊥

-- The packet is a request or a reply for Ethernet and IPv4.
abbrev pub IsArp : Octets → Type 0
IsArp packet = (is_ethernet_ipv4 packet ≡ true) × ((is_request packet || is_reply packet) ≡ true)

-- An end that has defended its address, less than DEFEND_INTERVAL before: 10 seconds.
abbrev pub DefendedSince : Ctx → ℕ → Type 0
DefendedSince c now = (c.defended ≡ true) × (sub32 now c.last_defend_ms < 10000)

-- An end that has not defended its address, or that long ago.
abbrev pub DefendedBefore : Ctx → ℕ → Type 0
DefendedBefore c now = (c.defended ≡ false) ⊎ (10000 ≤ sub32 now c.last_defend_ms)

-- The policy itself.
module _ (w : Borrow) (now : ℕ) where
  defend_abandons :
      (w.io.abandon ≡ false)
      → ((defend w now).io.abandon ≡ true)
        ↔ ((w.ctx.defense ≡ defend_never) ⊎ (w.ctx.defense ≡ defend_once) × DefendedSince w.ctx now)
  unfolding defend abandon is_recent
  defend_abandons clear = ground arith

  defend_announces :
      (w.io.send_announce ≡ false)
      → ((defend w now).io.send_announce ≡ true)
        ↔ ((w.ctx.defense ≢ defend_never) × DefendedBefore w.ctx now)
  unfolding defend abandon is_recent
  defend_announces clear = ground arith

  defend_address :
      (w.io.abandon ≡ false)
      → ((defend w now).io.abandon ≡ true → (defend w now).ctx.ipaddr ≡ 0)
        × ((defend w now).io.abandon ≡ false → (defend w now).ctx.ipaddr ≡ w.ctx.ipaddr)
        × ((defend w now).io.conflict ≡ w.io.conflict)
  unfolding defend abandon count_conflict
  defend_address clear = ground arith

module _ (little : Bool) (wd : Width) where
  in_use_answers :
      (s : State) (w : Borrow) (packet : Octets) (now : ℕ)
      → IsInUse s
      → receive_in little wd s w packet now
        ≡ (if ongoing_conflict little wd w.ctx packet then defend (mark_conflict w) now else w)
  in_use_answers off w packet now u = elim u [ ]
  in_use_answers rate_limit w packet now u = elim u [ ]
  in_use_answers probe_wait w packet now u = elim u [ ]
  in_use_answers probing w packet now u = elim u [ ]
  in_use_answers announce_wait w packet now u = elim u [ ]
  in_use_answers announcing w packet now u = refl
  in_use_answers ongoing w packet now u = refl

  -- An ARP packet that a cleared borrow is handed.
  arp_in_answers :
      (w : Borrow) (packet : Octets) (now : ℕ)
      → is_ready w ≡ true
      → IsArp packet
      → arp_in little wd w (some packet) now
        ≡ report ok (publish (receive_in little wd w.ctx.state (enter w) packet now))
  unfolding arp_in receive is_ready
  arp_in_answers w packet now r arp = rw (r, arp.0, arp.1) refl

  own_sender :
      (c : Ctx) (packet : Octets)
      → IsBytes packet
      → IsBytes c.mac
      → SameMac (sha packet) c.mac
      → own_mac little wd c packet ≡ true
  unfolding own_mac sha
  own_sender c packet b m same =
      let bytes : IsBytes (sha packet) = λ j. omega (arith, octet-drop 8 packet j, b (8 + j)) in
      (bytes_eq_iff little wd (sha packet) c.mac mac_len bytes m).1 same

  own_ignored :
      (s : State) (w : Borrow) (packet : Octets) (now : ℕ)
      → own_mac little wd w.ctx packet ≡ true
      → IsInUse s ⊎ ((spa packet ≡ 0) × (w.ctx.ipaddr ≢ 0))
      → receive_in little wd s w packet now ≡ w
  unfolding probe_conflict ongoing_conflict
  own_ignored off w packet now o u = refl
  own_ignored rate_limit w packet now o u = refl
  own_ignored probe_wait w packet now o u = ground arith
  own_ignored probing w packet now o u = ground arith
  own_ignored announce_wait w packet now o u = ground arith
  own_ignored announcing w packet now o u = ground arith
  own_ignored ongoing w packet now o u = ground arith

module _ (little : Bool) (wd : Width) (w : Borrow) (packet : Octets) (now : ℕ)
    (ready : is_ready w ≡ true) (arp : IsArp packet) where
  -- In a cleared borrow, an address in use, and an ARP request or reply for Ethernet and IPv4 that
  -- conflicts with it: the conflict is reported; the address is given up exactly under policy (a),
  -- and under (b) when it has been defended less than 10000 ms before; a defense is asked for
  -- exactly under the other policies when it has not been defended, or 10000 ms or more before;
  -- and the address leaves the machine exactly when it is given up.
  pub arp_in_policy :
      IsInUse w.ctx.state
      → ongoing_conflict little wd w.ctx packet ≡ true
      → let after = arp_in little wd w (some packet) now in
        (after.io.status ≡ ok)
        × (after.io.conflict ≡ true)
        × ((after.io.abandon ≡ true) ↔ (
            (w.ctx.defense ≡ defend_never)
            ⊎ (w.ctx.defense ≡ defend_once) × DefendedSince w.ctx now))
        × ((after.io.send_announce ≡ true)
            ↔ ((w.ctx.defense ≢ defend_never) × DefendedBefore w.ctx now))
        × (after.io.abandon ≡ true → after.ctx.ipaddr ≡ 0)
        × (after.io.abandon ≡ false → after.ctx.ipaddr ≡ w.ctx.ipaddr)
  arp_in_policy used c =
      let m = mark_conflict (enter w) in
      let address = defend_address m now refl in
      rw
        (
          arp_in_answers little wd w packet now ready arp,
          in_use_answers little wd w.ctx.state (enter w) packet now used,
          c,
        )
        (
          refl,
          address.2,
          defend_abandons m now refl,
          defend_announces m now refl,
          address.0,
          address.1,
        )

  -- In a cleared borrow, an ARP request or reply for Ethernet and IPv4 whose sender hardware
  -- address is this interface's own is no conflict: with an address in use, and for a probe also
  -- while the machine has any address, the context is left as it is and nothing is reported
  -- against it.
  pub arp_in_own :
      IsBytes packet
      → IsBytes w.ctx.mac
      → SameMac (sha packet) w.ctx.mac
      → IsInUse w.ctx.state ⊎ ((spa packet ≡ 0) × (w.ctx.ipaddr ≢ 0))
      → let after = arp_in little wd w (some packet) now in
        (after.ctx ≡ w.ctx) × (after.io.conflict ≡ false) × (after.io.abandon ≡ false)
  arp_in_own b c same s =
      let own = own_sender little wd w.ctx packet b c same in
      rw
        (
          arp_in_answers little wd w packet now ready arp,
          own_ignored little wd w.ctx.state (enter w) packet now own s,
        )
        (refl, refl, refl)
