-- ===== src/TcpIn/Moves.antt =====
-- The state diagram that src/tcp/tcp_in.c moves a connection along (RFC 9293 sec 3.3.2, Figure 5).
pub mod Checks
use idem_ip.Base.{Bool, true, false, not, ◌&&◌, ◌||◌, ◌≡◌, refl, arith, ◌==◌}
use mathlib.Core.Path.{subst}
use idem_ip.TcpIn.{ack_new, ack_in_range}
use idem_ip.TcpIn.Checks.{text_seq, is_syn_received}
use idem_ip.Config.{ok}
use idem_ip.TcpIn.{pcb_none, rst_in_window, result_clear}
use idem_ip.TcpIn.Entries.{is_listen, is_syn_sent, is_later, opened, report, refuse, judge, process}
use idem_ip.TcpIn.Entries.{
  check_unacceptable, check_acceptable, segment, listen, syn_sent, take_syn,
}
use idem_ip.TcpIn.Entries.{open_passive, open_active, reset_open, is_bad_ack, is_good_ack}
use idem_ip.Base.{if_both, sub32, u32, ◌+◌, Bool-cases, inl, inr, sym, ◌∙◌}
use idem_ip.TcpIn.{State, closed_state, listen_state, syn_sent_state, syn_received, established}
use idem_ip.TcpIn.{fin_wait_1, fin_wait_2, close_wait, closing, last_ack, time_wait, Io, Borrow}
use idem_ip.TcpIn.{put_ack, put_rst_at_ack, put_syn_ack, put_challenge, put_2msl}
use idem_ip.TcpIn.Checks.{Checked, Challenged, paws, check_rst, check_syn, check_ack, check_urg}
use idem_ip.TcpIn.Checks.{check_rest, check_text, check_fin, reset_in, close_on_fin, close_on_ack}
use idem_ip.TcpIn.Checks.{
  establish, advance_una, update_window, acknowledge, hold_text, accept_text,
}
use idem_ip.TcpIn.Moves.Checks.{
  Moves, Moves-trans, one, Moves-same, check_urg-state, check_rest-Moves, check_ack-Moves,
  check_rst-Moves, check_syn-Moves, passive_open, simultaneous_open, open_done, reset, stays, along,
}

refuse-Moves : (io : Io) → Moves io.state (refuse io).state
unfolding refuse put_ack
refuse-Moves io =
    let seen = check_urg io in
    let before = Moves-same io.state seen.state (check_urg-state io) in
    let P = λ (k : Io). Moves io.state k.state in
    if_both P (not (seen.vars.rcv_wnd == 0)) (λ c. before)
      (λ c.
        if_both P (check_ack seen).stops (λ d. Moves-trans before (check_ack-Moves seen))
          (λ d. Moves-trans before (check_ack-Moves seen)))

check_unacceptable-Moves : (w : Borrow) → Moves w.io.state (check_unacceptable w).io.state
unfolding check_unacceptable
check_unacceptable-Moves w =
    let P = λ (k : Borrow). Moves w.io.state k.io.state in
    if_both P w.io.seg.flags.rst (λ c. check_rst-Moves w)
      (λ c. if_both P w.io.seg.flags.syn (λ d. check_syn-Moves w) (λ d. refuse-Moves w.io))

check_acceptable-Moves : (w : Borrow) → Moves w.io.state (check_acceptable w).io.state
unfolding check_acceptable
check_acceptable-Moves w =
    let P = λ (k : Borrow). Moves w.io.state k.io.state in
    let a = check_ack w.io in
    if_both P (check_rst w).stops (λ c. check_rst-Moves w)
      (λ c.
        if_both P (check_syn w).stops (λ d. check_syn-Moves w)
          (λ d.
            if_both (λ (k : Io). Moves w.io.state k.state) a.stops (λ e. check_ack-Moves w.io)
              (λ e. Moves-trans (check_ack-Moves w.io) (check_rest-Moves a.after))))

paws-state : (io : Io) → (paws io).after.state ≡ io.state
unfolding paws
paws-state io = ground arith

process-Moves : (w : Borrow) → Moves w.io.state (process w).io.state
unfolding process put_ack
process-Moves w =
    let P = λ (k : Borrow). Moves w.io.state k.io.state in
    let p = paws w.io in
    let before = Moves-same w.io.state p.after.state (paws-state w.io) in
    let judged : Borrow = record w { io = judge p.after } in
    if_both P p.stops (λ c. before)
      (λ c.
        if_both P judged.io.res.acceptable (λ d. Moves-trans before (check_acceptable-Moves judged))
          (λ d. Moves-trans before (check_unacceptable-Moves judged)))

is_listen_lem : (s : State) → is_listen s ≡ true → listen_state ≡ s
is_listen_lem s h = ground arith

is_syn_sent_lem : (s : State) → is_syn_sent s ≡ true → syn_sent_state ≡ s
is_syn_sent_lem s h = ground arith

-- Whatever segment is handed in, and whatever the block holds, segment moves the state along
-- arrows of RFC 9293's state diagram, or leaves it.
pub segment-Moves : (w : Borrow) → Moves w.io.state (segment w).io.state
unfolding segment opened result_clear
segment-Moves w =
    if_both (λ (k : Borrow). Moves w.io.state k.io.state)
      (not w.ctx.ready || not (is_later w.io.state)) (λ c. stays)
      (λ c. process-Moves (record w { io = report ok (opened w.io) }))

pub listen-Moves : (w : Borrow) → Moves w.io.state (listen w).io.state
unfolding listen opened result_clear open_passive put_syn_ack put_rst_at_ack
listen-Moves w =
    let opening = opened w.io in
    let io = report ok opening in
    let P = λ (k : Io). Moves w.io.state k.state in
    if_both (λ (k : Borrow). Moves w.io.state k.io.state)
      (not w.ctx.ready || not (is_listen w.io.state)) (λ c. stays)
      (λ c.
        if_both P io.seg.flags.rst (λ d. stays)
          (λ d.
            if_both P io.seg.flags.ack (λ e. stays)
              (λ e.
                if_both P (not io.seg.flags.syn) (λ f. stays)
                  (λ f.
                    subst (λ (s : State). Moves s syn_received)
                      (is_listen_lem w.io.state (ground arith)) (one passive_open)))))

open_active-Moves :
    (io : Io) → io.state ≡ syn_sent_state → Moves syn_sent_state (open_active io).state
unfolding open_active put_syn_ack put_ack
open_active-Moves io h =
    let P = λ (k : Io). Moves syn_sent_state k.state in
    if_both P (sub32 io.vars.snd_una io.vars.iss == 0) (λ c. one simultaneous_open)
      (λ c.
        if_both P (not (io.seg.data_len == 0) || io.seg.flags.fin || io.seg.flags.urg)
          (λ d. along open_done (check_rest-Moves _)) (λ d. one open_done))

take_syn-state : (io : Io) → (take_syn io).state ≡ io.state
unfolding take_syn
take_syn-state io = ground arith

-- Whatever segment is handed in, and whatever the block holds, syn_sent moves the state along
-- arrows of RFC 9293's state diagram, or leaves it.
pub syn_sent-Moves : (w : Borrow) → Moves w.io.state (syn_sent w).io.state
unfolding syn_sent opened result_clear put_rst_at_ack reset_open
syn_sent-Moves w =
    let opening = opened w.io in
    let io = report ok opening in
    let P = λ (k : Io). Moves w.io.state k.state in
    if_both (λ (k : Borrow). Moves w.io.state k.io.state)
      (not w.ctx.ready || not (is_syn_sent w.io.state)) (λ c. stays)
      (λ c.
        let here = is_syn_sent_lem w.io.state (ground arith) in
        if_both P (is_bad_ack io) (λ d. if_both P io.seg.flags.rst (λ e. stays) (λ e. stays))
          (λ d.
            if_both P io.seg.flags.rst
              (λ e.
                if_both P (is_good_ack io)
                  (λ f. subst (λ (s : State). Moves s closed_state) here (one (reset refl)))
                  (λ f. stays))
              (λ e.
                if_both P (not io.seg.flags.syn) (λ f. stays)
                  (λ f.
                    subst (λ (s : State). Moves s (open_active (take_syn io)).state) here
                      (open_active-Moves (take_syn io) (take_syn-state io ∙ sym here))))))
