-- ===== src/Acd/Invariant.antt =====
-- What holds of a cleared context between calls.
use idem_ip.Base.{
  ℕ, ◌≤◌, ◌<◌, ◌≡◌, ◌≢◌, ◌⊎◌, Bool, true, false, List, [], ◌∷◌, Option, none, some, arith, refl,
}
use idem_ip.Base.{inl, inr}
use idem_ip.Endian.{Octets}
use idem_ip.Host.{Width}
use idem_ip.Acd.{State, off, probe_wait, probing, announce_wait, announcing, ongoing, rate_limit}
use idem_ip.Acd.{Ctx, Borrow, StartArgs, is_ready, ready_mark, defend_always, count_conflict}
use idem_ip.Acd.{abandon, send_probe, send_announce, fire, fire_in, claim, cease, defend, receive}
use idem_ip.Acd.{receive_in, clear, start, stop, tick, arp_in}
use idem_ip.Acd.{enter, start_with, arp_in_with, mark_conflict}

-- Where the machine is, and what the context then holds: an address exactly in the states that claim
-- or use one, the count of probes or announcements below its limit, and a defense recorded only for
-- an address in use.
abbrev pub Holds : State → Ctx → Type 0
Holds off c = (c.ipaddr ≡ 0) × (c.sent ≡ 0) × (c.defended ≡ false) × (c.deadline_ms ≡ 0)
Holds rate_limit c = (c.ipaddr ≡ 0) × (c.sent ≡ 0) × (c.defended ≡ false) × (10 ≤ c.conflicts)
Holds probe_wait c = (c.ipaddr ≢ 0) × (c.sent ≡ 0) × (c.defended ≡ false)
Holds probing c = (c.ipaddr ≢ 0) × (1 ≤ c.sent) × (c.sent < 3) × (c.defended ≡ false)
Holds announce_wait c = (c.ipaddr ≢ 0) × (c.sent ≡ 0) × (c.defended ≡ false)
Holds announcing c = (c.ipaddr ≢ 0) × (c.sent ≡ 1)
Holds ongoing c = (c.ipaddr ≢ 0) × (c.sent ≡ 0) × (c.deadline_ms ≡ 0)

pub record IsValid (c : Ctx) : Type 0 where
  pub marked : c.ready ≡ ready_mark
  pub few : c.conflicts ≤ 255
  pub defense_known : c.defense ≤ defend_always
  pub held : Holds c.state c

pub clear-IsValid : (w : Borrow) → IsValid (clear w).ctx
unfolding clear
clear-IsValid w = ground arith

abandon-IsValid : (w : Borrow) (now : ℕ) → IsValid w.ctx → IsValid (abandon w now).ctx
unfolding abandon count_conflict
abandon-IsValid w now v = ground arith

send_probe-IsValid :
    (w : Borrow) (now rand : ℕ)
    → IsValid w.ctx
    → w.ctx.ipaddr ≢ 0
    → w.ctx.sent < 3
    → w.ctx.defended ≡ false
    → IsValid (send_probe w now rand).ctx
unfolding send_probe
send_probe-IsValid w now rand v a s d = ground arith

send_announce-IsValid :
    (w : Borrow) (now : ℕ)
    → IsValid w.ctx
    → w.ctx.ipaddr ≢ 0
    → w.ctx.sent < 2
    → IsValid (send_announce w now).ctx
unfolding send_announce
send_announce-IsValid w now v a s = ground arith

count_conflict-IsValid : (c : Ctx) (now : ℕ) → IsValid c → IsValid (count_conflict c now)
count_conflict-IsValid c now v = unfold count_conflict in ground arith

fire_in-IsValid :
    (s : State) (w : Borrow) (now rand : ℕ)
    → w.ctx.state ≡ s
    → IsValid w.ctx
    → IsValid (fire_in s w now rand).ctx
fire_in-IsValid off w now rand e v = v
fire_in-IsValid ongoing w now rand e v = v
fire_in-IsValid probe_wait w now rand e v = ground (arith, send_probe-IsValid w now rand v)
fire_in-IsValid probing w now rand e v = ground (arith, send_probe-IsValid w now rand v)
fire_in-IsValid announce_wait w now rand e v = ground (arith, send_announce-IsValid w now v)
fire_in-IsValid announcing w now rand e v = ground (arith, send_announce-IsValid w now v)
fire_in-IsValid rate_limit w now rand e v = ground arith

fire-IsValid : (w : Borrow) (now rand : ℕ) → IsValid w.ctx → IsValid (fire w now rand).ctx
unfolding fire
fire-IsValid w now rand v = fire_in-IsValid w.ctx.state w now rand refl v

claim-IsValid :
    (w : Borrow) (a : StartArgs) (mac : Octets)
    → IsValid w.ctx
    → a.ipaddr ≢ 0
    → a.defense ≤ defend_always
    → IsValid (claim w a mac).ctx
unfolding claim
claim-IsValid w a mac v n d = ground arith

cease-IsValid : (w : Borrow) → IsValid w.ctx → IsValid (cease w).ctx
unfolding cease
cease-IsValid w v = ground arith

defend-IsValid :
    (w : Borrow) (now : ℕ)
    → IsValid w.ctx
    → (w.ctx.state ≡ announcing) ⊎ (w.ctx.state ≡ ongoing)
    → IsValid (defend w now).ctx
unfolding defend
defend-IsValid w now v s =
    let used = record (w.ctx) { last_defend_ms = now; defended = true } in
    let again : IsValid used = ground arith in
    ground (
      arith,
      abandon-IsValid w now v,
      count_conflict-IsValid w.ctx now v,
      count_conflict-IsValid used now again,
    )

module _ (little : Bool) (wd : Width) where
  receive_in-IsValid :
      (s : State) (w : Borrow) (packet : Octets) (now : ℕ)
      → w.ctx.state ≡ s
      → IsValid w.ctx
      → IsValid (receive_in little wd s w packet now).ctx
  receive_in-IsValid off w packet now e v = v
  receive_in-IsValid rate_limit w packet now e v = v
  receive_in-IsValid probe_wait w packet now e v =
      ground (arith, abandon-IsValid (mark_conflict w) now v)
  receive_in-IsValid probing w packet now e v =
      ground (arith, abandon-IsValid (mark_conflict w) now v)
  receive_in-IsValid announce_wait w packet now e v =
      ground (arith, abandon-IsValid (mark_conflict w) now v)
  receive_in-IsValid announcing w packet now e v =
      ground (arith, defend-IsValid (mark_conflict w) now v (inl e))
  receive_in-IsValid ongoing w packet now e v =
      ground (arith, defend-IsValid (mark_conflict w) now v (inr e))

  receive-IsValid :
      (w : Borrow) (packet : Octets) (now : ℕ)
      → IsValid w.ctx
      → IsValid (receive little wd w packet now).ctx
  unfolding receive
  receive-IsValid w packet now v =
      ground (arith, receive_in-IsValid w.ctx.state w packet now refl v)

-- The calls of a client.
pub data Call : Type 0 where
  clearing : Call
  starting : StartArgs → Call
  stopping : Call
  packet_in : Option Octets → ℕ → Call
  ticking : ℕ → ℕ → Call

module _ (little : Bool) (wd : Width) where
  unfoldable pub call : Call → Borrow → Borrow
  call clearing w = clear w
  call (starting a) w = start w a
  call stopping w = stop w
  call (packet_in packet now) w = arp_in little wd w packet now
  call (ticking now rand) w = tick w now rand

  unfoldable pub run : List Call → Borrow → Borrow
  run [] w = w
  run (c ∷ cs) w = run cs (call c w)

  start_with-IsValid :
      (m : Option Octets) (w : Borrow) (a : StartArgs)
      → IsValid w.ctx
      → IsValid (start_with m w a).ctx
  unfolding is_ready
  start_with-IsValid none w a v = v
  start_with-IsValid (some mac) w a v = ground (arith, claim-IsValid w a mac v)

  arp_in_with-IsValid :
      (m : Option Octets) (w : Borrow) (now : ℕ)
      → IsValid w.ctx
      → IsValid (arp_in_with little wd m w now).ctx
  arp_in_with-IsValid none w now v = v
  arp_in_with-IsValid (some packet) w now v =
      ground (arith, receive-IsValid little wd w packet now v)

  call-IsValid : (c : Call) (w : Borrow) → IsValid w.ctx → IsValid (call c w).ctx
  unfolding call start stop arp_in tick
  call-IsValid clearing w v = clear-IsValid w
  call-IsValid (starting a) w v = start_with-IsValid a.mac (enter w) a v
  call-IsValid stopping w v = ground (arith, cease-IsValid (enter w) v)
  call-IsValid (packet_in packet now) w v = arp_in_with-IsValid packet (enter w) now v
  call-IsValid (ticking now rand) w v = ground (arith, fire-IsValid (enter w) now rand v)

  run_keeps : (cs : List Call) (w : Borrow) → IsValid w.ctx → IsValid (run cs w).ctx
  unfolding run
  run_keeps [] w v = v
  run_keeps (c ∷ cs) w v = run_keeps cs (call c w) (call-IsValid c w v)

  -- Whatever the borrow held and whatever calls follow the clear, the context is valid: it holds
  -- an address exactly in the states that claim or use one, its counts stay below their limits,
  -- and the rate limit is on only with ten conflicts counted.
  pub run-IsValid : (cs : List Call) (w : Borrow) → IsValid (run cs (clear w)).ctx
  run-IsValid cs w = run_keeps cs (clear w) (clear-IsValid w)
