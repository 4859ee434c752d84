-- ===== src/Acd/Schedule.antt =====
-- A claim that meets no conflict: three probes, two announcements, and the address is in use.
use idem_ip.Base.{ℕ, ◌+◌, ◌^◌, ◌≤◌, ◌<◌, ◌≡◌, ◌≢◌, ◌⊎◌, Bool, true, false, some}
use idem_ip.Base.{arith, sub32, zero, suc, inl, inr}
use idem_ip.Endian.{Octets}
use idem_ip.Config.{ok}
use idem_ip.Acd.{State, probe_wait, probing, announce_wait, announcing, ongoing}
use idem_ip.Acd.{Borrow, StartArgs, is_ready, ready_mark, due, send_probe, send_announce}
use idem_ip.Acd.{fire, tick, start, claim}
use idem_ip.Acd.Timing.{draw-le}

-- The address being claimed, the state and the count.
pub record At (s : State) (n ip : ℕ) (w : Borrow) : Type 0 where
  pub marked : w.ctx.ready ≡ ready_mark
  pub state_is : w.ctx.state ≡ s
  pub sent_is : w.ctx.sent ≡ n
  pub address : w.ctx.ipaddr ≡ ip

-- What a tick asked for, and when the next one is due, counted from the tick.
pub record Sent (probe announce : Bool) (now least most : ℕ) (w : Borrow) : Type 0 where
  pub status_is : w.io.status ≡ ok
  pub probe_is : w.io.send_probe ≡ probe
  pub announce_is : w.io.send_announce ≡ announce
  pub not_before : least ≤ sub32 w.ctx.deadline_ms now
  pub not_after : sub32 w.ctx.deadline_ms now ≤ most

module _ (w : Borrow) (now rand n ip : ℕ) (d : due now w.ctx.deadline_ms ≡ true)
    (t : now < 2 ^ 32) where
  probe_more :
      (w.ctx.state ≡ probe_wait) ⊎ (w.ctx.state ≡ probing)
      → w.ctx.ready ≡ ready_mark
      → w.ctx.sent ≡ n
      → w.ctx.ipaddr ≡ ip
      → n < 2
      → At probing (n + 1) ip (tick w now rand) × Sent true false now 1000 2000 (tick w now rand)
  unfolding tick fire is_ready send_probe
  probe_more s m e a l = ground (arith, draw-le rand 1000 (omega arith))

  probe_last :
      (w.ctx.state ≡ probing)
      → w.ctx.ready ≡ ready_mark
      → w.ctx.sent ≡ 2
      → w.ctx.ipaddr ≡ ip
      → At announce_wait 0 ip (tick w now rand) × Sent true false now 2000 2000 (tick w now rand)
  unfolding tick fire is_ready send_probe
  probe_last s m e a = ground arith

  announce_first :
      (w.ctx.state ≡ announce_wait)
      → w.ctx.ready ≡ ready_mark
      → w.ctx.sent ≡ 0
      → w.ctx.ipaddr ≡ ip
      → At announcing 1 ip (tick w now rand) × Sent false true now 2000 2000 (tick w now rand)
  unfolding tick fire is_ready send_announce
  announce_first s m e a = ground arith

  announce_last :
      (w.ctx.state ≡ announcing)
      → w.ctx.ready ≡ ready_mark
      → w.ctx.sent ≡ 1
      → w.ctx.ipaddr ≡ ip
      → At ongoing 0 ip (tick w now rand)
        × ((tick w now rand).io.status ≡ ok)
        × ((tick w now rand).io.send_probe ≡ false)
        × ((tick w now rand).io.send_announce ≡ true)
  unfolding tick fire is_ready send_announce
  announce_last s m e a = ground arith

-- A start that is taken.
started :
    (w : Borrow) (a : StartArgs) (mac : Octets)
    → is_ready w ≡ true
    → a.mac ≡ some mac
    → a.ipaddr ≢ 0
    → a.defense ≤ 2
    → w.ctx.conflicts < 10
    → a.now_ms < 2 ^ 32
    → At probe_wait 0 a.ipaddr (start w a)
      × ((start w a).io.status ≡ ok)
      × (sub32 (start w a).ctx.deadline_ms a.now_ms ≤ 1000)
unfolding start is_ready claim
started w a mac r m n d c t = rw m (ground (arith, draw-le a.rand 1000 (omega arith)))

-- The five ticks that follow a start, at any times at which the deadlines have come.
abbrev pub after : ℕ → Borrow → (ℕ → ℕ) → (ℕ → ℕ) → Borrow
after zero w times rands = w
after (suc n) w times rands = tick (after n w times rands) (times n) (rands n)

-- In a cleared borrow, a claim of an address below the conflict limit, ticked five times, each
-- time at or after the deadline that stands, and met by no conflict: the first probe is due within
-- PROBE_WAIT of the start; exactly three probes go out, each due PROBE_MIN to PROBE_MAX after the
-- one before; the first announcement is due ANNOUNCE_WAIT after the last probe and the second
-- ANNOUNCE_INTERVAL after the first; and then the address is in use. This holds for all random
-- words.
pub claim_completes :
    (w : Borrow) (a : StartArgs) (mac : Octets) (times rands : ℕ → ℕ)
    → is_ready w ≡ true
    → a.mac ≡ some mac
    → a.ipaddr ≢ 0
    → a.defense ≤ 2
    → w.ctx.conflicts < 10
    → a.now_ms < 2 ^ 32
    → ((n : ℕ) → n < 5 → times n < 2 ^ 32)
    → ((n : ℕ) → n < 5 → due (times n) (after n (start w a) times rands).ctx.deadline_ms ≡ true)
    → (sub32 (start w a).ctx.deadline_ms a.now_ms ≤ 1000)
      × Sent true false (times 0) 1000 2000 (after 1 (start w a) times rands)
      × Sent true false (times 1) 1000 2000 (after 2 (start w a) times rands)
      × Sent true false (times 2) 2000 2000 (after 3 (start w a) times rands)
      × Sent false true (times 3) 2000 2000 (after 4 (start w a) times rands)
      × ((after 5 (start w a) times rands).io.send_probe ≡ false)
      × ((after 5 (start w a) times rands).io.send_announce ≡ true)
      × At ongoing 0 a.ipaddr (after 5 (start w a) times rands)
claim_completes w a mac times rands r m n d c t small dues =
    let w0 = start w a in
    let ip = a.ipaddr in
    let s0 = started w a mac r m n d c t in
    let w1 = after 1 w0 times rands in
    let w2 = after 2 w0 times rands in
    let w3 = after 3 w0 times rands in
    let w4 = after 4 w0 times rands in
    let g0 = s0.0 in
    let s1 =
      probe_more w0 (times 0) (rands 0) 0 ip (dues 0 (omega arith)) (small 0 (omega arith))
        (inl g0.state_is) g0.marked g0.sent_is g0.address (omega arith) in
    let g1 = s1.0 in
    let s2 =
      probe_more w1 (times 1) (rands 1) 1 ip (dues 1 (omega arith)) (small 1 (omega arith))
        (inr g1.state_is) g1.marked g1.sent_is g1.address (omega arith) in
    let g2 = s2.0 in
    let s3 =
      probe_last w2 (times 2) (rands 2) 2 ip (dues 2 (omega arith)) (small 2 (omega arith))
        g2.state_is g2.marked g2.sent_is g2.address in
    let g3 = s3.0 in
    let s4 =
      announce_first w3 (times 3) (rands 3) 0 ip (dues 3 (omega arith)) (small 3 (omega arith))
        g3.state_is g3.marked g3.sent_is g3.address in
    let g4 = s4.0 in
    let s5 =
      announce_last w4 (times 4) (rands 4) 0 ip (dues 4 (omega arith)) (small 4 (omega arith))
        g4.state_is g4.marked g4.sent_is g4.address in
    (s0.2, s1.1, s2.1, s3.1, s4.1, s5.2, s5.3, s5.0)
