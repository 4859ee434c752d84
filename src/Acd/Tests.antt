-- ===== src/Acd/Tests.antt =====
-- The conflict detection at concrete inputs.
use idem_ip.Base.{ℕ, zero, suc, ◌+◌, ◌*◌, ◌≤◌, ◌<◌, ◌≡◌, ◌≢◌, ◌⊎◌, ◌↔◌, inl, true, false}
use idem_ip.Base.{some, List, [], ◌∷◌, arith, refl, sub32}
use idem_ip.Endian.{Octets, rd32}
use idem_ip.Endian.RoundTrip.{IsBytes, are_bytes, are_bytes_sound}
use idem_ip.Endian.{rd16}
use idem_ip.Span.{bytes_eq, eq_loop, tail, tail_mask}
use idem_ip.Host.{bits32}
use idem_ip.Arp.Packet.{sha, spa}
use idem_ip.Arp.Packet
use idem_ip.Arp.Reads.{SameMac}
use idem_ip.Config.{ok, busy, err}
use idem_ip.Acd.{off, probe_wait, probing, announce_wait, announcing, ongoing}
use idem_ip.Acd.{Io, Borrow, StartArgs, is_ready, ready_mark, draw, due, zero_ctx, start, tick}
use idem_ip.Acd.{arp_in, clear, defend_never, defend_once, own_mac, ongoing_conflict}
use idem_ip.Acd.{fire, send_probe, send_announce, claim}
use idem_ip.Acd.Invariant.{IsValid, Call, starting, stopping, packet_in, ticking, run, run-IsValid}
use idem_ip.Acd.Timing.{draw-le, tick_early, tick_sends}
use idem_ip.Acd.Schedule.{At, Sent, after, claim_completes}
use idem_ip.Acd.Conflicts.{DefendedSince, DefendedBefore, IsArp, arp_in_policy, arp_in_own}
use idem_ip.Acd.RateLimit.{claims_apart, start_stale}

abbrev no_results : Io
no_results = record {
  status = err;
  ipaddr = 0;
  deadline_ms = 0;
  state = off;
  sent = 0;
  conflicts = 0;
  send_probe = false;
  send_announce = false;
  conflict = false;
  abandon = false;
}

abbrev address : ℕ
address = 0xc0a8_0007

abbrev our_mac : Octets
our_mac = 2 ∷ 0 ∷ 0 ∷ 0 ∷ 0 ∷ 1 ∷ []

-- Requests for our address, from our hardware address and from another.
abbrev request_from : ℕ → Octets
request_from last =
    0 ∷ 1 ∷ 8 ∷ 0 ∷ 6 ∷ 4 ∷ 0 ∷ 1 ∷ 2 ∷ 0 ∷ 0 ∷ 0 ∷ 0 ∷ last ∷ 192 ∷ 168 ∷ 0 ∷ 7 ∷ 0 ∷ 0 ∷ 0 ∷ 0 ∷ 0
    ∷ 0 ∷ 192 ∷ 168 ∷ 0 ∷ 7 ∷ []

abbrev idle : Borrow
idle = record { io = no_results; ctx = record zero_ctx { ready = ready_mark } }

-- An address in use under policy (b), last defended at 1000 ms.
abbrev in_use : Borrow
in_use = record idle {
  ctx = record (idle.ctx) {
    ipaddr = address;
    mac = our_mac;
    state = ongoing;
    defense = defend_once;
    defended = true;
    last_defend_ms = 1000;
  };
}

abbrev probing_now : Borrow
probing_now = record idle {
  ctx = record (idle.ctx) {
    ipaddr = address;
    mac = our_mac;
    state = probing;
    sent = 1;
    deadline_ms = 4000;
  };
}

abbrev crowded : Borrow
crowded = record idle { ctx = record (idle.ctx) { conflicts = 12; next_claim_ms = 70000 } }

abbrev start_at : ℕ → StartArgs
start_at t = record {
  mac = some our_mac;
  ipaddr = address;
  rand = 0x1234;
  now_ms = t;
  defense = defend_once;
}

abbrev some_calls : List Call
some_calls =
    starting (start_at 10) ∷ ticking 2000 7 ∷ packet_in (some (request_from 9)) 2500 ∷ stopping ∷ []

run-IsValid_example : IsValid (run true bits32 some_calls (clear idle)).ctx
run-IsValid_example = run-IsValid true bits32 some_calls idle

draw-le_run : draw 0xffff_ffff 1000 ≤ 1000
draw-le_run = draw-le 0xffff_ffff 1000 (omega arith)

-- Ticks ten seconds apart.
abbrev times : ℕ → ℕ
times n = 10000 + n * 10000

abbrev rands : ℕ → ℕ
rands n = n * 77

dues :
    (n : ℕ)
    → n < 5
    → due (times n) (after n (start idle (start_at 10)) times rands).ctx.deadline_ms ≡ true
unfolding due start tick fire send_probe send_announce claim is_ready draw
dues zero l = refl
dues (suc zero) l = refl
dues (suc (suc zero)) l = refl
dues (suc (suc (suc zero))) l = refl
dues (suc (suc (suc (suc zero)))) l = refl
dues (suc (suc (suc (suc (suc n))))) l = absurd (omega arith)

claim_completes_example :
    let begun = start idle (start_at 10) in
    (sub32 begun.ctx.deadline_ms 10 ≤ 1000)
    × Sent true false (times 0) 1000 2000 (after 1 begun times rands)
    × Sent true false (times 1) 1000 2000 (after 2 begun times rands)
    × Sent true false (times 2) 2000 2000 (after 3 begun times rands)
    × Sent false true (times 3) 2000 2000 (after 4 begun times rands)
    × ((after 5 begun times rands).io.send_probe ≡ false)
    × ((after 5 begun times rands).io.send_announce ≡ true)
    × At ongoing 0 address (after 5 begun times rands)
unfolding is_ready
claim_completes_example =
    claim_completes idle (start_at 10) our_mac times rands refl refl (omega arith) (omega arith)
      (omega arith) (omega arith) (λ n l. omega arith) dues

abbrev PolicyHolds : Borrow → Borrow → ℕ → Type 0
PolicyHolds w after now =
    (after.io.status ≡ ok)
    × (after.io.conflict ≡ true)
    × ((after.io.abandon ≡ true) ↔ (
        (w.ctx.defense ≡ defend_never) ⊎ (w.ctx.defense ≡ defend_once) × DefendedSince w.ctx now))
    × ((after.io.send_announce ≡ true)
        ↔ ((w.ctx.defense ≢ defend_never) × DefendedBefore w.ctx now))
    × (after.io.abandon ≡ true → after.ctx.ipaddr ≡ 0)
    × (after.io.abandon ≡ false → after.ctx.ipaddr ≡ w.ctx.ipaddr)

ready-in_use : is_ready in_use ≡ true
unfolding is_ready
ready-in_use = refl

is_arp : IsArp (request_from 9) × IsArp (request_from 1)
unfolding Packet.is_ethernet_ipv4 Packet.is_request Packet.is_reply Packet.hrd Packet.pro Packet.hln
    Packet.pln Packet.op rd16
is_arp = ((refl, refl), (refl, refl))

is_conflict : ongoing_conflict true bits32 in_use.ctx (request_from 9) ≡ true
unfolding ongoing_conflict own_mac Packet.spa Packet.sha rd32 bytes_eq eq_loop tail tail_mask
is_conflict = refl

arp_in_policy_example :
    PolicyHolds in_use (arp_in true bits32 in_use (some (request_from 9)) 5000) 5000
arp_in_policy_example =
    arp_in_policy true bits32 in_use (request_from 9) 5000 ready-in_use is_arp.0 _ is_conflict

octets_ok : (IsBytes (request_from 1)) × IsBytes our_mac
unfolding are_bytes
octets_ok = (are_bytes_sound (request_from 1) refl, are_bytes_sound our_mac refl)

same_mac : SameMac (sha (request_from 1)) our_mac
unfolding Packet.sha
same_mac zero l = refl
same_mac (suc zero) l = refl
same_mac (suc (suc zero)) l = refl
same_mac (suc (suc (suc zero))) l = refl
same_mac (suc (suc (suc (suc zero)))) l = refl
same_mac (suc (suc (suc (suc (suc zero))))) l = refl
same_mac (suc (suc (suc (suc (suc (suc j)))))) l = absurd (omega arith)

arp_in_own_example :
    let after = arp_in true bits32 in_use (some (request_from 1)) 5000 in
    (after.ctx ≡ in_use.ctx) × (after.io.conflict ≡ false) × (after.io.abandon ≡ false)
arp_in_own_example =
    arp_in_own true bits32 in_use (request_from 1) 5000 ready-in_use is_arp.1 octets_ok.0
      octets_ok.1 same_mac (inl _)

is_ready_probing : is_ready probing_now ≡ true
unfolding is_ready
is_ready_probing = refl

not_due : due 3000 4000 ≡ false
unfolding due
not_due = refl

tick_early_run :
    let after = tick probing_now 3000 5 in
    (after.ctx ≡ probing_now.ctx)
    × (after.io.status ≡ busy)
    × (after.io.send_probe ≡ false)
    × (after.io.send_announce ≡ false)
tick_early_run = tick_early probing_now 3000 5 is_ready_probing _ not_due

tick_sends_example :
    ((tick probing_now 4000 5).io.send_probe ≡ true
      → ((probing_now.ctx.state ≡ probe_wait) ⊎ (probing_now.ctx.state ≡ probing))
        × (due 4000 probing_now.ctx.deadline_ms ≡ true)
        × ((tick probing_now 4000 5).io.send_announce ≡ false))
    × ((tick probing_now 4000 5).io.send_announce ≡ true
        → ((probing_now.ctx.state ≡ announce_wait) ⊎ (probing_now.ctx.state ≡ announcing))
          × (due 4000 probing_now.ctx.deadline_ms ≡ true))
tick_sends_example = tick_sends probing_now 4000 5

is_taken : (start crowded (start_at 70000)).io.status ≡ ok
unfolding start is_ready claim due
is_taken = refl

abbrev quiet_calls : List Call
quiet_calls = ticking 71000 3 ∷ stopping ∷ []

claims_apart_example :
    let between = run true bits32 quiet_calls (start crowded (start_at 70000)) in
    ((start between (start_at 100000)).io.status ≢ ok)
    × ((start between (start_at 100000)).ctx ≡ between.ctx)
claims_apart_example =
    claims_apart true bits32 crowded (start_at 70000) (start_at 100000) quiet_calls (omega arith)
      is_taken _ (omega arith) (omega arith) (omega arith)

ready-crowded : is_ready crowded ≡ true
unfolding is_ready
ready-crowded = refl

start_stale_example :
    ((start crowded (start_at 3_000_070_000)).io.status ≡ busy)
    × ((start crowded (start_at 3_000_070_000)).ctx ≡ crowded.ctx)
start_stale_example =
    start_stale crowded (start_at 3_000_070_000) our_mac 3_000_000_000 ready-crowded refl
      (omega arith) (omega arith) (omega arith) (omega arith) refl (omega arith) (omega arith)
