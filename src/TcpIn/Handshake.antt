-- ===== src/TcpIn/Handshake.antt =====
-- A connection that one end opens and the other accepts, through the entries of src/tcp/tcp_in.c.
pub mod Opening
use idem_ip.Base.{ℕ, ◌+◌, ◌<◌, ◌^◌, Bool, true, false, not, ◌||◌, ◌≡◌, ◌≢◌, refl, sym, ap, ap₂}
use idem_ip.Base.{◌∙◌, arith, ◌==◌, if◌then◌else◌, sub32, u32}
use mathlib.Core.Path.{subst, subst⁻¹}
use idem_ip.Config.{ok}
use idem_ip.TcpIn.{State, listen_state, syn_sent_state, syn_received, established, Bits, Seg, Reply}
use idem_ip.TcpIn.{Io, Borrow, ctl_syn, ctl_ack, put_ack, put_syn_ack, result_clear}
use idem_ip.TcpIn.{seg_acceptable, ack_new, ack_in_range}
use idem_ip.TcpIn.Checks.{
  Checked, paws, check_rst, check_syn, check_ack, check_rest, check_urg, check_text,
}
use idem_ip.TcpIn.Checks.{
  check_fin, establish, advance_una, update_window, acknowledge, close_on_ack,
}
use idem_ip.TcpIn.{Vars}
use idem_ip.TcpIn.Parse.{bits_of}
use idem_ip.TcpIn.Moves.Checks.{check_ack_acknowledges}
use idem_ip.TcpIn.Entries.{
  opened, report, judge, process, is_later, segment, listen, syn_sent, open_passive,
}
use idem_ip.TcpIn.Entries.{
  open_active, take_syn, is_syn_sent, is_bad_ack, is_good_ack, check_acceptable,
}
use idem_ip.TcpIn.Handshake.Opening.{
  carried, deliver, answered, joined, accepted, answered_lem, if_true, if_false, joined_lem,
}

-- An end that waits for the acknowledgment of its SYN.
pub Waits : Borrow → ℕ → ℕ → Type 0
Waits s x y =
    (s.ctx.ready ≡ true)
    × (s.io.state ≡ syn_received)
    × (s.io.ctl.ts_ok ≡ false)
    × (s.io.vars.snd_una ≡ y)
    × (s.io.vars.snd_nxt ≡ u32 (y + 1))
    × (s.io.vars.rcv_nxt ≡ u32 (x + 1))
    × (0 < s.io.vars.rcv_wnd)

-- The acknowledgment of a SYN, with nothing else in the segment.
establish_joins :
    (io : Io)
    → io.state ≡ syn_received
    → ((establish io).state ≡ established)
      × ((establish io).vars.snd_una ≡ io.vars.snd_una)
      × ((establish io).vars.snd_nxt ≡ io.vars.snd_nxt)
      × ((establish io).vars.rcv_nxt ≡ io.vars.rcv_nxt)
      × ((establish io).seg ≡ io.seg)
unfolding establish
establish_joins io s = ground arith

-- An acknowledgment of all that was sent, in ESTABLISHED.
moved_joins :
    (k : Io)
    → ack_new k.seg.ack k.vars.snd_una k.vars.snd_nxt ≡ true
    → ((update_window (advance_una k)).state ≡ k.state)
      × ((update_window (advance_una k)).vars.snd_una ≡ k.seg.ack)
      × ((update_window (advance_una k)).vars.snd_nxt ≡ k.vars.snd_nxt)
      × ((update_window (advance_una k)).vars.rcv_nxt ≡ k.vars.rcv_nxt)
      × ((update_window (advance_una k)).seg ≡ k.seg)
unfolding update_window advance_una
moved_joins k n = ground arith

close_on_ack_established :
    (s : State) (b : Bool) (io : Io)
    → s ≡ established
    → close_on_ack s b io ≡ record { stops = false; after = io }
unfolding close_on_ack
close_on_ack_established s b io e = rw (e) refl

check_ack_joins :
    (io : Io)
    → io.state ≡ syn_received
    → io.seg.flags.ack ≡ true
    → (sub32 io.seg.ack io.vars.snd_una ≡ 1) × (io.vars.snd_nxt ≡ io.seg.ack)
    → ((check_ack io).stops ≡ false)
      × ((check_ack io).after.state ≡ established)
      × ((check_ack io).after.vars.snd_una ≡ io.seg.ack)
      × ((check_ack io).after.vars.snd_nxt ≡ io.seg.ack)
      × ((check_ack io).after.vars.rcv_nxt ≡ io.vars.rcv_nxt)
      × ((check_ack io).after.seg ≡ io.seg)
unfolding acknowledge
check_ack_joins io s a e =
    let limit : sub32 io.vars.snd_nxt io.vars.snd_una ≡ 1 =
      ap (λ (t : ℕ). sub32 t io.vars.snd_una) e.1 ∙ e.0 in
    let new : ack_new io.seg.ack io.vars.snd_una io.vars.snd_nxt ≡ true =
      unfold ack_new in ground arith in
    let within : ack_in_range io.seg.ack io.vars.snd_una io.vars.snd_nxt io.ctl.max_snd_wnd ≡ true =
      unfold ack_in_range in
      ground (arith, ap (λ (t : ℕ). sub32 t (sub32 io.vars.snd_una io.ctl.max_snd_wnd)) e.1) in
    let k = establish io in
    let j = establish_joins io s in
    let again : ack_new k.seg.ack k.vars.snd_una k.vars.snd_nxt ≡ true =
      ap (λ (g : Seg). ack_new g.ack k.vars.snd_una k.vars.snd_nxt) j.4
      ∙ ap₂ (ack_new io.seg.ack) j.1 j.2
      ∙ new in
    let m = moved_joins k again in
    let moved = update_window (advance_una k) in
    let ends =
      close_on_ack_established moved.state (moved.vars.snd_una == moved.vars.snd_nxt) moved
        (m.0 ∙ j.0) in
    let all = check_ack_acknowledges io a within (ground arith) ∙ ends in
    (
      ap (λ (c : Checked). c.stops) all,
      ap (λ (c : Checked). c.after.state) all ∙ m.0 ∙ j.0,
      ap (λ (c : Checked). c.after.vars.snd_una) all ∙ m.1 ∙ ap (λ (g : Seg). g.ack) j.4,
      ap (λ (c : Checked). c.after.vars.snd_nxt) all ∙ m.2 ∙ j.2 ∙ e.1,
      ap (λ (c : Checked). c.after.vars.rcv_nxt) all ∙ m.3 ∙ j.3,
      ap (λ (c : Checked). c.after.seg) all ∙ m.4 ∙ j.4,
    )

check_rest_bare :
    (io : Io)
    → (io.seg.data_len ≡ 0) × (io.seg.flags.fin ≡ false) × (io.seg.flags.urg ≡ false)
    → ((check_rest io).state ≡ io.state) × ((check_rest io).vars ≡ io.vars)
unfolding check_rest check_urg check_text check_fin
check_rest_bare io g = ground arith

-- The state and the numbers of an end that has joined.
pub Joined : Io → ℕ → ℕ → Type 0
Joined io sent received =
    (io.state ≡ established)
    × (io.vars.snd_una ≡ sent)
    × (io.vars.snd_nxt ≡ sent)
    × (io.vars.rcv_nxt ≡ received)

accept_joins :
    (w : Borrow)
    → w.io.seg.flags.rst ≡ false
    → w.io.seg.flags.syn ≡ false
    → w.io.seg.flags.ack ≡ true
    → (w.io.seg.data_len ≡ 0) × (w.io.seg.flags.fin ≡ false) × (w.io.seg.flags.urg ≡ false)
    → w.io.state ≡ syn_received
    → (sub32 w.io.seg.ack w.io.vars.snd_una ≡ 1) × (w.io.vars.snd_nxt ≡ w.io.seg.ack)
    → Joined (check_acceptable w).io w.io.seg.ack w.io.vars.rcv_nxt
unfolding check_acceptable Joined
accept_joins w r y a g s e =
    let k = check_ack_joins w.io s a e in
    let c = check_ack w.io in
    let rest = check_rest_bare c.after (
      ap (λ (t : Seg). t.data_len) k.5 ∙ g.0,
      ap (λ (t : Seg). t.flags.fin) k.5 ∙ g.1,
      ap (λ (t : Seg). t.flags.urg) k.5 ∙ g.2,
    ) in
    let pass : (check_rst w).stops ≡ false = unfold check_rst in ground arith in
    let pass2 : (check_syn w).stops ≡ false = unfold check_syn in ground arith in
    let all : (check_acceptable w).io ≡ check_rest c.after =
      ap (λ (b : Borrow). b.io)
        (if_false (check_rst w).stops _ _ pass ∙ if_false (check_syn w).stops _ _ pass2)
      ∙ if_false c.stops _ _ k.0 in
    (
      ap (λ (i : Io). i.state) all ∙ rest.0 ∙ k.1,
      ap (λ (i : Io). i.vars.snd_una) all ∙ ap (λ (v : Vars). v.snd_una) rest.1 ∙ k.2,
      ap (λ (i : Io). i.vars.snd_nxt) all ∙ ap (λ (v : Vars). v.snd_nxt) rest.1 ∙ k.3,
      ap (λ (i : Io). i.vars.rcv_nxt) all ∙ ap (λ (v : Vars). v.rcv_nxt) rest.1 ∙ k.4,
    )

process_takes :
    (w : Borrow)
    → w.io.ctl.ts_ok ≡ false
    → seg_acceptable w.io.seg.seq w.io.seg.len w.io.vars.rcv_nxt w.io.vars.rcv_wnd ≡ true
    → process w ≡ check_acceptable (record w { io = judge w.io })
unfolding process
process_takes w t a =
    let passes : paws w.io ≡ record { stops = false; after = w.io } =
      unfold paws in if_true (not w.io.ctl.ts_ok || not w.io.opts.has_ts) _ _ (ground arith) in
    rw (process, passes)
      (if_true (seg_acceptable w.io.seg.seq w.io.seg.len w.io.vars.rcv_nxt w.io.vars.rcv_wnd) _ _ a)

segment_takes :
    (w : Borrow)
    → w.ctx.ready ≡ true
    → is_later w.io.state ≡ true
    → w.io.ctl.ts_ok ≡ false
    → seg_acceptable w.io.seg.seq w.io.seg.len w.io.vars.rcv_nxt w.io.vars.rcv_wnd ≡ true
    → segment w ≡ check_acceptable (record w { io = judge (report ok (opened w.io)) })
unfolding segment opened result_clear
segment_takes w r l t a =
    if_false (not w.ctx.ready || not (is_later w.io.state)) _ _ (ground arith)
    ∙ process_takes (record w { io = report ok (opened w.io) }) t a

accepted_lem :
    (s : Borrow) (x y wnd : ℕ)
    → x < 2 ^ 32
    → y < 2 ^ 32
    → Waits s x y
    → Joined
        (accepted s (record { seq = u32 (x + 1); ack = u32 (y + 1); flags = ctl_ack }) wnd).io
        (u32 (y + 1))
        (u32 (x + 1))
unfolding bits_of accepted opened result_clear Waits
accepted_lem s x y wnd b d w =
    let v =
      deliver s (carried (record { seq = u32 (x + 1); ack = u32 (y + 1); flags = ctl_ack }) wnd) in
    let start : Borrow = record v { io = judge (report ok (opened v.io)) } in
    let here : sub32 (u32 (x + 1)) s.io.vars.rcv_nxt ≡ 0 =
      ap (sub32 (u32 (x + 1))) w.5 ∙ omega arith in
    let fits : seg_acceptable (u32 (x + 1)) 0 s.io.vars.rcv_nxt s.io.vars.rcv_wnd ≡ true =
      unfold seg_acceptable in ground (arith, here) in
    let one_on : sub32 (u32 (y + 1)) s.io.vars.snd_una ≡ 1 =
      ap (sub32 (u32 (y + 1))) w.3 ∙ omega arith in
    let joins = accept_joins start refl refl refl (refl, refl, refl) w.1 (one_on, w.4) in
    let step = segment_takes v w.0 (ap is_later w.1) w.2 fits in
    subst (λ (k : Borrow). Joined k.io (u32 (y + 1)) (u32 (x + 1))) (sym step)
      (subst (Joined (check_acceptable start).io (u32 (y + 1))) w.5 joins)

-- A cleared end that listens, with a sequence number y, no time stamps and a window that is open,
-- and a cleared end in SYN-SENT that has sent its SYN with x, for 32-bit x and y: the listener
-- asks to send a reply to that SYN; handed that reply without text, its control bits as the reply
-- has them, the opener asks to send one in turn; and with that one handed to the listener the same
-- way, both ends are ESTABLISHED, with SND.UNA and SND.NXT one past the end's own number and
-- RCV.NXT one past the other's.
pub handshake :
    (s c : Borrow) (x y s_wnd c_wnd : ℕ)
    → x < 2 ^ 32
    → y < 2 ^ 32
    → (s.ctx.ready ≡ true)
      × (s.io.state ≡ listen_state)
      × (s.io.vars.iss ≡ y)
      × (s.io.ctl.ts_ok ≡ false)
      × (0 < s.io.vars.rcv_wnd)
    → (c.ctx.ready ≡ true)
      × (c.io.state ≡ syn_sent_state)
      × (c.io.vars.iss ≡ x)
      × (c.io.vars.snd_una ≡ x)
      × (c.io.vars.snd_nxt ≡ u32 (x + 1))
    → let s1 = answered s x c_wnd in
      let c1 = joined c s1.io.reply s_wnd in
      let s2 = accepted s1 c1.io.reply c_wnd in
      (s1.io.res.act.act_ack ≡ true)
      × (c1.io.res.act.act_ack ≡ true)
      × Joined c1.io (u32 (x + 1)) (u32 (y + 1))
      × Joined s2.io (u32 (y + 1)) (u32 (x + 1))
handshake s c x y s_wnd c_wnd b d p q =
    let a = answered_lem s x c_wnd p.0 p.1 in
    let s1 = answered s x c_wnd in
    let synack : s1.io.reply ≡ record { seq = y; ack = u32 (x + 1); flags = ctl_syn + ctl_ack } =
      a.2 ∙ ap (λ (n : ℕ). record { seq = n; ack = u32 (x + 1); flags = ctl_syn + ctl_ack }) p.2 in
    let j = joined_lem c x y s_wnd q.0 q.1 b (q.2, q.3, q.4) in
    let waits : Waits s1 x y =
      unfold Waits in
      (
        a.1,
        a.0,
        a.7 ∙ p.3,
        a.3 ∙ p.2,
        a.4 ∙ ap (λ (n : ℕ). u32 (n + 1)) p.2,
        a.5,
        omega (arith, a.6, p.4),
      ) in
    let end = accepted_lem s1 x y c_wnd b d waits in
    let r : Reply = record { seq = y; ack = u32 (x + 1); flags = ctl_syn + ctl_ack } in
    let ends =
      subst⁻¹
        (λ (t : Reply).
          ((joined c t s_wnd).io.res.act.act_ack ≡ true)
          × Joined (joined c t s_wnd).io (u32 (x + 1)) (u32 (y + 1))
          × Joined (accepted s1 (joined c t s_wnd).io.reply c_wnd).io (u32 (y + 1)) (u32 (x + 1)))
        synack
        (
          j.5,
          unfold Joined in (j.0, j.2, j.3, j.4),
          subst⁻¹ (λ (t : Reply). Joined (accepted s1 t c_wnd).io (u32 (y + 1)) (u32 (x + 1))) j.1
              end,
        ) in
    (a.8, ends.0, ends.1, ends.2)
