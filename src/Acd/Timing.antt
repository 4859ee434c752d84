-- ===== src/Acd/Timing.antt =====
-- The random delays stay in RFC 5227's ranges, and nothing goes out before its deadline.
use idem_ip.Base.{ℕ, ◌+◌, ◌*◌, ◌%◌, ◌≤◌, ◌<◌, ◌≡◌, ◌⊎◌, true, false}
use idem_ip.Base.{arith, bit_and}
use native.Mathlib.Nat.{mul-le-mul_right}
use idem_ip.Base.Bits.{bit_and_mask}
use idem_ip.Config.{busy}
use idem_ip.Acd.{State, off, probe_wait, probing, announce_wait, announcing, ongoing}
use idem_ip.Acd.{Borrow, is_ready, draw, due, send_probe, send_announce, fire}
use idem_ip.Acd.{tick}

-- A draw lies between zero and the span, for every span below 2 ^ 16.
pub draw-le : (rand span : ℕ) → span < 65536 → draw rand span ≤ span
unfolding draw
draw-le rand span h =
    let word : bit_and rand 0xffff ≡ rand % 65536 = bit_and_mask 16 rand in
    let scaled : bit_and rand 0xffff * (span + 1) ≤ 65535 * (span + 1) =
      mul-le-mul_right (span + 1) (omega arith) in
    omega arith

-- The states in which a deadline fires.
abbrev pub IsTimed : State → Type 0
IsTimed off = ⊥
IsTimed ongoing = ⊥
IsTimed _ = Unit {0}

-- Before the deadline of a state that has one, a tick of a cleared borrow reports BUSY, leaves the
-- context as it is and asks for no packet.
pub tick_early :
    (w : Borrow) (now rand : ℕ)
    → is_ready w ≡ true
    → IsTimed w.ctx.state
    → due now w.ctx.deadline_ms ≡ false
    → ((tick w now rand).ctx ≡ w.ctx)
      × ((tick w now rand).io.status ≡ busy)
      × ((tick w now rand).io.send_probe ≡ false)
      × ((tick w now rand).io.send_announce ≡ false)
unfolding tick fire is_ready
tick_early w now rand r t d = ground arith

-- A tick asks for a probe only in a state that probes and at its deadline, and for an announcement
-- only in a state that announces and at its deadline; it never asks for both.
pub tick_sends :
    (w : Borrow) (now rand : ℕ)
    → ((tick w now rand).io.send_probe ≡ true
        → ((w.ctx.state ≡ probe_wait) ⊎ (w.ctx.state ≡ probing))
          × (due now w.ctx.deadline_ms ≡ true)
          × ((tick w now rand).io.send_announce ≡ false))
      × ((tick w now rand).io.send_announce ≡ true
          → ((w.ctx.state ≡ announce_wait) ⊎ (w.ctx.state ≡ announcing))
            × (due now w.ctx.deadline_ms ≡ true))
unfolding tick fire is_ready send_probe send_announce
tick_sends w now rand = ground arith
