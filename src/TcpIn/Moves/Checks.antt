-- ===== src/TcpIn/Moves/Checks.antt =====
-- The state diagram, and the arrows that the checks of src/tcp/tcp_in.c follow.
use idem_ip.Base.{Bool, true, false, not, ◌&&◌, ◌||◌, ◌≡◌, refl, arith, ◌==◌}
use mathlib.Core.Path.{subst}
use idem_ip.TcpIn.{ack_new, ack_in_range}
use idem_ip.TcpIn.Checks.{text_seq, is_syn_received}
use idem_ip.TcpIn.{pcb_none, rst_in_window}
use idem_ip.TcpIn.Entries.{is_listen}
use idem_ip.Base.{if_both, u32, ◌+◌, Bool-cases, inl, inr, sym, ◌∙◌}
use idem_ip.TcpIn.{State, closed_state, listen_state, syn_sent_state, syn_received, established}
use idem_ip.TcpIn.{fin_wait_1, fin_wait_2, close_wait, closing, last_ack, time_wait, Io, Borrow}
use idem_ip.TcpIn.{put_ack, put_rst_at_ack, put_challenge, put_2msl}
use idem_ip.TcpIn.Checks.{Checked, Challenged, check_rst, check_syn, check_ack, check_urg}
use idem_ip.TcpIn.Checks.{check_rest, check_text, check_fin, reset_in, close_on_fin, close_on_ack}
use idem_ip.TcpIn.Checks.{
  establish, advance_una, update_window, acknowledge, hold_text, accept_text,
}

-- The arrows that a received segment follows.
pub data Arrow : State → State → Type 0 where
  passive_open : Arrow listen_state syn_received
  simultaneous_open : Arrow syn_sent_state syn_received
  open_done : Arrow syn_sent_state established
  syn_acked : Arrow syn_received established
  back_to_listen : Arrow syn_received listen_state
  peer_closes : Arrow established close_wait
  peer_closes_early : Arrow syn_received close_wait
  fin_acked : Arrow fin_wait_1 fin_wait_2
  both_close : Arrow fin_wait_1 closing
  closes_acked : Arrow fin_wait_1 time_wait
  peer_closes_last : Arrow fin_wait_2 time_wait
  closing_acked : Arrow closing time_wait
  last_acked : Arrow last_ack closed_state
  reset : {s : State} → is_listen s ≡ false → Arrow s closed_state

-- Some arrows, one after another.
pub data Moves : State → State → Type 0 where
  stays : {s : State} → Moves s s
  along : {s t u : State} → Arrow s t → Moves t u → Moves s u

pub Moves-trans : {s t u : State} → Moves s t → Moves t u → Moves s u
Moves-trans stays n = n
Moves-trans (along a m) n = along a (Moves-trans m n)

pub one : {s t : State} → Arrow s t → Moves s t
one a = along a stays

pub Moves-same : (s t : State) → t ≡ s → Moves s t
Moves-same s t e = rw (e) stays

close_on_fin-Moves : (s : State) (io : Io) → io.state ≡ s → Moves s (close_on_fin s io).state
unfolding close_on_fin put_2msl
close_on_fin-Moves syn_received io e = one peer_closes_early
close_on_fin-Moves established io e = one peer_closes
close_on_fin-Moves fin_wait_1 io e = elim (Bool-cases (io.vars.snd_una == io.vars.snd_nxt)) [
  | inl c ↦ rw (close_on_fin, c) (one closes_acked)
  | inr c ↦ rw (close_on_fin, c) (one both_close)
]
close_on_fin-Moves fin_wait_2 io e = one peer_closes_last
close_on_fin-Moves time_wait io e = Moves-same time_wait io.state e
close_on_fin-Moves closed_state io e = Moves-same closed_state io.state e
close_on_fin-Moves listen_state io e = Moves-same listen_state io.state e
close_on_fin-Moves syn_sent_state io e = Moves-same syn_sent_state io.state e
close_on_fin-Moves close_wait io e = Moves-same close_wait io.state e
close_on_fin-Moves closing io e = Moves-same closing io.state e
close_on_fin-Moves last_ack io e = Moves-same last_ack io.state e

check_fin-Moves : (io : Io) → Moves io.state (check_fin io).state
unfolding check_fin put_ack
check_fin-Moves io =
    elim (Bool-cases
      (not io.seg.flags.fin || not (io.vars.rcv_nxt == u32 (text_seq io + io.seg.data_len)))) [
        | inl c ↦ rw (check_fin, c) stays
        | inr c ↦ rw (check_fin, c) (close_on_fin-Moves io.state _ refl)
      ]

pub check_urg-state : (io : Io) → (check_urg io).state ≡ io.state
unfolding check_urg
check_urg-state io = ground arith

check_text-state : (io : Io) → (check_text io).state ≡ io.state
unfolding check_text hold_text accept_text put_ack
check_text-state io = ground arith

pub check_rest-Moves : (io : Io) → Moves io.state (check_rest io).state
unfolding check_rest
check_rest-Moves io =
    let t = check_text (check_urg io) in
    let same : t.state ≡ io.state = check_text-state (check_urg io) ∙ check_urg-state io in
    let before = Moves-same io.state t.state same in
    if_both (λ (k : Io). Moves io.state k.state) t.res.act.act_hold (λ c. before)
      (λ c. Moves-trans before (check_fin-Moves t))

close_on_ack-Moves :
    (s : State) (b : Bool) (io : Io) → io.state ≡ s → Moves s (close_on_ack s b io).after.state
unfolding close_on_ack put_2msl put_ack
close_on_ack-Moves fin_wait_1 true io e = one fin_acked
close_on_ack-Moves fin_wait_1 false io e = Moves-same fin_wait_1 io.state e
close_on_ack-Moves closing true io e = one closing_acked
close_on_ack-Moves closing false io e = Moves-same closing io.state e
close_on_ack-Moves last_ack true io e = one last_acked
close_on_ack-Moves last_ack false io e = Moves-same last_ack io.state e
close_on_ack-Moves time_wait b io e = Moves-same time_wait io.state e
close_on_ack-Moves closed_state b io e = Moves-same closed_state io.state e
close_on_ack-Moves listen_state b io e = Moves-same listen_state io.state e
close_on_ack-Moves syn_sent_state b io e = Moves-same syn_sent_state io.state e
close_on_ack-Moves syn_received b io e = Moves-same syn_received io.state e
close_on_ack-Moves established b io e = Moves-same established io.state e
close_on_ack-Moves fin_wait_2 b io e = Moves-same fin_wait_2 io.state e
close_on_ack-Moves close_wait b io e = Moves-same close_wait io.state e

moved-state : (io : Io) → (update_window (advance_una io)).state ≡ io.state
unfolding update_window advance_una
moved-state io = ground arith

acknowledge-Moves : (io : Io) → Moves io.state (acknowledge io).after.state
unfolding acknowledge
acknowledge-Moves io =
    let moved = update_window (advance_una io) in
    Moves-trans (Moves-same io.state moved.state (moved-state io))
      (close_on_ack-Moves moved.state (moved.vars.snd_una == moved.vars.snd_nxt) moved refl)

is_syn_received_lem : (s : State) → is_syn_received s ≡ true → s ≡ syn_received
is_syn_received_lem s h = ground arith

establish-Moves : (io : Io) → Moves io.state (establish io).state
unfolding establish
establish-Moves io = elim (Bool-cases (is_syn_received io.state)) [
  | inl c ↦
      rw (establish, c)
        (subst (λ (s : State). Moves s established) (sym (is_syn_received_lem io.state c))
          (one syn_acked))
  | inr c ↦ rw (establish, c) stays
]

pub check_ack_acknowledges :
    (io : Io)
    → io.seg.flags.ack ≡ true
    → ack_in_range io.seg.ack io.vars.snd_una io.vars.snd_nxt io.ctl.max_snd_wnd ≡ true
    → is_syn_received io.state && not (ack_new io.seg.ack io.vars.snd_una io.vars.snd_nxt) ≡ false
    → check_ack io ≡ acknowledge (establish io)
unfolding check_ack
check_ack_acknowledges io c d e = ground arith

pub check_ack-Moves : (io : Io) → Moves io.state (check_ack io).after.state
unfolding check_ack put_ack put_rst_at_ack
check_ack-Moves io = elim (Bool-cases io.seg.flags.ack) [
  | inr c ↦ rw (check_ack, c) stays
  | inl c ↦
      elim (Bool-cases
        (ack_in_range io.seg.ack io.vars.snd_una io.vars.snd_nxt io.ctl.max_snd_wnd)) [
          | inr d ↦ rw (check_ack, c, d) stays
          | inl d ↦
              elim (Bool-cases (
                is_syn_received io.state
                && not (ack_new io.seg.ack io.vars.snd_una io.vars.snd_nxt))) [
                  | inl e ↦ rw (check_ack, c, d, e) stays
                  | inr e ↦
                      subst (λ (k : Checked). Moves io.state k.after.state)
                        (sym (check_ack_acknowledges io c d e))
                        (Moves-trans (establish-Moves io) (acknowledge-Moves (establish io)))
                ]
        ]
]

put_challenge-state : (w : Borrow) → (put_challenge w).io.state ≡ w.io.state
unfolding put_challenge put_ack
put_challenge-state w = ground arith

reset_in-Moves : (s : State) (io : Io) → io.state ≡ s → Moves s (reset_in s io).state
unfolding reset_in
reset_in-Moves syn_received io e =
    if_both (λ (k : Io). Moves syn_received k.state) (not (io.listener == pcb_none))
      (λ c. one back_to_listen) (λ c. one (reset refl))
reset_in-Moves established io e = one (reset refl)
reset_in-Moves fin_wait_1 io e = one (reset refl)
reset_in-Moves fin_wait_2 io e = one (reset refl)
reset_in-Moves close_wait io e = one (reset refl)
reset_in-Moves closing io e = one (reset refl)
reset_in-Moves last_ack io e = one (reset refl)
reset_in-Moves time_wait io e = one (reset refl)
reset_in-Moves closed_state io e = Moves-same closed_state io.state e
reset_in-Moves listen_state io e = Moves-same listen_state io.state e
reset_in-Moves syn_sent_state io e = Moves-same syn_sent_state io.state e

-- A reset that is not at RCV.NXT leaves the connection in its state.
pub check_rst-state :
    (w : Borrow)
    → w.io.seg.seq == w.io.vars.rcv_nxt ≡ false
    → (check_rst w).after.io.state ≡ w.io.state
unfolding check_rst
check_rst-state w n = ground (arith, put_challenge-state w)

pub check_rst-Moves : (w : Borrow) → Moves w.io.state (check_rst w).after.io.state
unfolding check_rst
check_rst-Moves w =
    let P = λ (c : Challenged). Moves w.io.state c.after.io.state in
    let io = w.io in
    if_both P (not io.seg.flags.rst) (λ c. stays)
      (λ c.
        if_both P
          (not (io.seg.seq == io.vars.rcv_nxt)
            && not (rst_in_window io.seg.seq io.vars.rcv_nxt io.vars.rcv_wnd))
          (λ d. stays)
          (λ d.
            if_both P (not (io.seg.seq == io.vars.rcv_nxt))
              (λ e. Moves-same _ _ (put_challenge-state w)) (λ e. reset_in-Moves io.state io refl)))

pub check_syn-Moves : (w : Borrow) → Moves w.io.state (check_syn w).after.io.state
unfolding check_syn
check_syn-Moves w =
    let P = λ (c : Challenged). Moves w.io.state c.after.io.state in
    let io = w.io in
    if_both P (not io.seg.flags.syn) (λ c. stays)
      (λ c.
        if_both P (is_syn_received io.state && not (io.listener == pcb_none) && io.res.acceptable)
          (λ d.
            subst (λ (s : State). Moves s listen_state)
              (sym (is_syn_received_lem io.state (ground arith))) (one back_to_listen))
          (λ d. Moves-same _ _ (put_challenge-state w)))
