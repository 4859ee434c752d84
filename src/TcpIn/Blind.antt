-- ===== src/TcpIn/Blind.antt =====
-- What RFC 5961 asks of src/tcp/tcp_in.c against segments that a stranger makes up: resets and SYNs
-- that leave a connection alone, and a bound on the challenges that answer them.
use mathlib.Core.Path.{subst}
use idem_ip.Base.{ℕ, ◌+◌, ◌≤◌, ◌<◌, true, false, not, ◌||◌, ◌≡◌, refl, sym}
use idem_ip.Base.{◌∙◌, arith, ◌==◌, ◌⊎◌, inl, inr, if◌then◌else◌, if_both, sub32, List, [], ◌∷◌}
use idem_ip.Config.{ok}
use idem_ip.TcpIn.{Io, Borrow, put_ack, put_challenge, throttle_window}
use idem_ip.TcpIn.{result_clear, challenge_acks, challenge_window_ms}
use idem_ip.TcpIn.Checks.{paws, check_rst, check_syn, is_syn_received}
use idem_ip.TcpIn.Entries.{opened, report, judge, process, is_later, segment}
use idem_ip.TcpIn.Entries.{check_unacceptable, check_acceptable}

-- The connection is as it was.
pub Kept : Io → Io → Type 0
Kept io k = (k.state ≡ io.state) × (k.vars ≡ io.vars)

put_challenge-Kept : (w : Borrow) → Kept w.io (put_challenge w).io
unfolding put_challenge put_ack Kept
put_challenge-Kept w = ground arith

-- A reset that is not at RCV.NXT, or a SYN to a connection that is open.
unfoldable pub IsBlind : Io → Type 0
IsBlind io =
    ((io.seg.flags.rst ≡ true) × (io.seg.seq == io.vars.rcv_nxt ≡ false))
    ⊎ ((io.seg.flags.rst ≡ false) × (io.seg.flags.syn ≡ true) × (is_syn_received io.state ≡ false))

check_rst_blind :
    (w : Borrow)
    → w.io.seg.flags.rst ≡ true
    → w.io.seg.seq == w.io.vars.rcv_nxt ≡ false
    → ((check_rst w).stops ≡ true) × Kept w.io (check_rst w).after.io
unfolding check_rst Kept
check_rst_blind w r n = ground (arith, put_challenge-Kept w)

check_rst_passes : (w : Borrow) → w.io.seg.flags.rst ≡ false → (check_rst w).stops ≡ false
unfolding check_rst
check_rst_passes w r = ground arith

check_syn_blind :
    (w : Borrow)
    → w.io.seg.flags.syn ≡ true
    → is_syn_received w.io.state ≡ false
    → ((check_syn w).stops ≡ true) × Kept w.io (check_syn w).after.io
unfolding check_syn Kept
check_syn_blind w s n = ground (arith, put_challenge-Kept w)

check_acceptable_blind : (w : Borrow) → IsBlind w.io → Kept w.io (check_acceptable w).io
unfolding IsBlind check_acceptable Kept
check_acceptable_blind w b = elim b [
  | inl p ↦ ground (arith, check_rst_blind w p.0 p.1)
  | inr p ↦ ground (arith, check_rst_passes w p.0, check_syn_blind w p.1 p.2)
]

check_unacceptable_blind : (w : Borrow) → IsBlind w.io → Kept w.io (check_unacceptable w).io
unfolding IsBlind check_unacceptable Kept
check_unacceptable_blind w b = elim b [
  | inl p ↦ ground (arith, check_rst_blind w p.0 p.1)
  | inr p ↦ ground (arith, check_syn_blind w p.1 p.2)
]

paws_same : (io : Io) → ((paws io).after.seg ≡ io.seg) × Kept io (paws io).after
unfolding paws Kept
paws_same io = ground arith

judged-IsBlind : (io : Io) → IsBlind io → IsBlind (judge (paws io).after)
unfolding IsBlind Kept
judged-IsBlind io b = ground (arith, paws_same io)

process_blind : (w : Borrow) → IsBlind w.io → Kept w.io (process w).io
unfolding process put_ack Kept
process_blind w b =
    let p = paws w.io in
    let same = (paws_same w.io).1 in
    let judged : Borrow = record w { io = judge p.after } in
    let blind = judged-IsBlind w.io b in
    let P = λ (k : Borrow). (k.io.state ≡ w.io.state) × (k.io.vars ≡ w.io.vars) in
    if_both P p.stops (λ c. same)
      (λ c.
        if_both P judged.io.res.acceptable
          (λ d. let k = check_acceptable_blind judged blind in (k.0 ∙ same.0, k.1 ∙ same.1))
          (λ d. let k = check_unacceptable_blind judged blind in (k.0 ∙ same.0, k.1 ∙ same.1)))

-- A reset that is not exactly at RCV.NXT, and a SYN without a reset outside SYN-RECEIVED, leave
-- the connection's state and all its sequence variables as they are (RFC 5961).
pub segment_blind :
    (w : Borrow)
    → IsBlind w.io
    → ((segment w).io.state ≡ w.io.state) × ((segment w).io.vars ≡ w.io.vars)
unfolding segment opened result_clear IsBlind Kept
segment_blind w b =
    let P = λ (k : Borrow). (k.io.state ≡ w.io.state) × (k.io.vars ≡ w.io.vars) in
    if_both P (not w.ctx.ready || not (is_later w.io.state)) (λ c. (refl, refl))
      (λ c. process_blind (record w { io = report ok (opened w.io) }) b)

-- A challenge that a segment earns at time `now`, from a result that is clear.
abbrev pub challenge : ℕ → Borrow → Borrow
challenge now w = put_challenge (record w { io = record (result_clear w.io) { now_ms = now } })

-- How many of the challenges at these times are sent.
abbrev pub sent : List ℕ → Borrow → ℕ
sent [] w = 0
sent (now ∷ later) w =
    (if (challenge now w).io.res.act.act_ack then 1 else 0) + sent later (challenge now w)

abbrev pub AllInWindow : ℕ → List ℕ → Type 0
AllInWindow start [] = Unit
AllInWindow start (now ∷ later) = (sub32 now start < challenge_window_ms) × AllInWindow start later

challenge_step :
    (w : Borrow) (now : ℕ)
    → w.ctx.challenges ≤ challenge_acks
    → sub32 now w.ctx.challenge_at < challenge_window_ms
    → ((challenge now w).ctx.challenge_at ≡ w.ctx.challenge_at)
      × ((challenge now w).ctx.challenges ≤ challenge_acks)
      × ((if (challenge now w).io.res.act.act_ack then 1 else 0) + w.ctx.challenges
          ≡ (challenge now w).ctx.challenges)
unfolding put_challenge throttle_window result_clear put_ack
challenge_step w now l h = ground arith

-- Of the challenges that are earned within one window of 5000 ms, and with the at most ten that
-- the window has counted before, no more than ten are sent.
pub sent_bound :
    (ts : List ℕ) (w : Borrow)
    → w.ctx.challenges ≤ challenge_acks
    → AllInWindow w.ctx.challenge_at ts
    → sent ts w + w.ctx.challenges ≤ challenge_acks
sent_bound [] w l a = omega arith
sent_bound (now ∷ ts) w l a =
    let s = challenge_step w now l a.0 in
    omega (
      arith,
      s.1,
      s.2,
      sent_bound ts (challenge now w) s.1 (subst (λ (t : ℕ). AllInWindow t ts) (sym s.0) a.1),
    )
