-- ===== src/TcpIn/Bounds/Steps.antt =====
-- What the steps ahead of the text leave, for the bounds of src/tcp/tcp_in.c.
use idem_ip.Base.{ℕ, ◌+◌, ◌≤◌, Bool, true, false, not, ◌&&◌, ◌≡◌, refl, ap, ap₂}
use idem_ip.Base.{◌∙◌, arith, ◌==◌, if_both, sub32, u32}
use idem_ip.TcpIn.{State}
use idem_ip.TcpIn.{Io, Borrow}
use idem_ip.TcpIn.{put_ack, put_rst_at_ack, put_challenge, put_2msl, ack_new, ack_in_range}
use idem_ip.TcpIn.Checks.{Checked, paws, check_rst, check_syn, check_ack, check_urg}
use idem_ip.TcpIn.Checks.{reset_in, close_on_ack}
use idem_ip.TcpIn.Checks.{establish, advance_una, update_window, acknowledge}
use idem_ip.TcpIn.Checks.{text_seq, is_syn_received}

-- The segment, the receive window and the send edge are as they were, the acknowledged edge has not
-- passed the send edge, and no text has been taken.
pub record Held (io k : Io) : Type 0 where
  pub same_seg : k.seg ≡ io.seg
  pub same_rcv : (k.vars.rcv_nxt ≡ io.vars.rcv_nxt) × (k.vars.rcv_wnd ≡ io.vars.rcv_wnd)
  pub same_nxt : k.vars.snd_nxt ≡ io.vars.snd_nxt
  pub in_sent : sub32 k.vars.snd_una io.vars.snd_una ≤ sub32 io.vars.snd_nxt io.vars.snd_una
  pub same_text : k.res.act.act_text ≡ io.res.act.act_text

pub self_distance : (a b : ℕ) → sub32 a a ≤ sub32 b a
self_distance a b = omega arith

pub Held-refl : (io : Io) → Held io io
Held-refl io = record {
  same_seg = refl;
  same_rcv = (refl, refl);
  same_nxt = refl;
  in_sent = self_distance io.vars.snd_una io.vars.snd_nxt;
  same_text = refl;
}

-- A step that moves none of it.
pub record Still (io k : Io) : Type 0 where
  pub seg : k.seg ≡ io.seg
  pub rcv : (k.vars.rcv_nxt ≡ io.vars.rcv_nxt) × (k.vars.rcv_wnd ≡ io.vars.rcv_wnd)
  pub snd : (k.vars.snd_nxt ≡ io.vars.snd_nxt) × (k.vars.snd_una ≡ io.vars.snd_una)
  pub text : k.res.act.act_text ≡ io.res.act.act_text

pub Held-Still : (io k m : Io) → Held io k → Still k m → Held io m
Held-Still io k m h s = record {
  same_seg = s.seg ∙ h.same_seg;
  same_rcv = (s.rcv.0 ∙ h.same_rcv.0, s.rcv.1 ∙ h.same_rcv.1);
  same_nxt = s.snd.0 ∙ h.same_nxt;
  in_sent = omega (arith, ap (λ (a : ℕ). sub32 a io.vars.snd_una) s.snd.1, h.in_sent);
  same_text = s.text ∙ h.same_text;
}

Still-refl : (io : Io) → Still io io
Still-refl io = record { seg = refl; rcv = (refl, refl); snd = (refl, refl); text = refl }

pub put_ack-Still : (io : Io) → Still io (put_ack io)
unfolding put_ack
put_ack-Still io = record { seg = refl; rcv = (refl, refl); snd = (refl, refl); text = refl }

pub check_urg-Still : (io : Io) → Still io (check_urg io)
unfolding check_urg
check_urg-Still io = ground arith

establish-Still : (io : Io) → Still io (establish io)
unfolding establish
establish-Still io = ground arith

update_window-Still : (io : Io) → Still io (update_window io)
unfolding update_window
update_window-Still io = ground arith

close_on_ack-Still : (s : State) (b : Bool) (io : Io) → Still io (close_on_ack s b io).after
unfolding close_on_ack put_2msl put_ack
close_on_ack-Still s b io = ground arith

put_challenge-Still : (w : Borrow) → Still w.io (put_challenge w).io
unfolding put_challenge put_ack
put_challenge-Still w = ground arith

reset_in-Still : (s : State) (io : Io) → Still io (reset_in s io)
unfolding reset_in
reset_in-Still s io = ground arith

pub check_rst-Still : (w : Borrow) → Still w.io (check_rst w).after.io
unfolding check_rst
check_rst-Still w = ground (arith, put_challenge-Still w, reset_in-Still w.io.state w.io)

pub check_syn-Still : (w : Borrow) → Still w.io (check_syn w).after.io
unfolding check_syn
check_syn-Still w = ground (arith, put_challenge-Still w)

pub paws-Still : (io : Io) → Still io (paws io).after
unfolding paws
paws-Still io = ground arith

-- The acknowledged edge moves only to a number past it that was sent.
advance_una-Held : (io : Io) → Held io (advance_una io)
unfolding advance_una ack_new
advance_una-Held io = ground (arith, self_distance io.vars.snd_una io.vars.snd_nxt)

-- The acknowledged edge, and the text that is delivered: octets of the segment from the one at
-- RCV.NXT on, no more than the window takes.
pub record Bounded (io k : Io) : Type 0 where
  pub nxt : k.vars.snd_nxt ≡ io.vars.snd_nxt
  pub una : sub32 k.vars.snd_una io.vars.snd_una ≤ sub32 io.vars.snd_nxt io.vars.snd_una
  pub delivered :
      k.res.act.act_text ≡ true
      → (k.res.text_seq ≡ io.vars.rcv_nxt)
        × (u32 (text_seq io + k.res.text_off) ≡ io.vars.rcv_nxt)
        × (k.res.text_off + k.res.text_len ≤ io.seg.data_len)
        × (k.res.text_len ≤ io.vars.rcv_wnd)

-- The seventh and eighth checks leave the send edges.
pub record Took (io k : Io) : Type 0 where
  pub edges : (k.vars.snd_nxt ≡ io.vars.snd_nxt) × (k.vars.snd_una ≡ io.vars.snd_una)
  pub delivered :
      k.res.act.act_text ≡ true
      → (k.res.text_seq ≡ io.vars.rcv_nxt)
        × (u32 (text_seq io + k.res.text_off) ≡ io.vars.rcv_nxt)
        × (k.res.text_off + k.res.text_len ≤ io.seg.data_len)
        × (k.res.text_len ≤ io.vars.rcv_wnd)

-- Before the seventh check nothing is delivered.
pub Held-Bounded : (io k : Io) → io.res.act.act_text ≡ false → Held io k → Bounded io k
Held-Bounded io k q h = record {
  nxt = h.same_nxt;
  una = h.in_sent;
  delivered = λ t. absurd (ground (arith, h.same_text));
}

acknowledge-Held : (io : Io) → Held io (acknowledge io).after
unfolding acknowledge
acknowledge-Held io =
    let a = advance_una io in
    let u = update_window a in
    Held-Still io u _ (Held-Still io a u (advance_una-Held io) (update_window-Still a))
      (close_on_ack-Still u.state (u.vars.snd_una == u.vars.snd_nxt) u)

pub Still-Held : (io k m : Io) → Still io k → Held k m → Held io m
Still-Held io k m s h = record {
  same_seg = h.same_seg ∙ s.seg;
  same_rcv = (h.same_rcv.0 ∙ s.rcv.0, h.same_rcv.1 ∙ s.rcv.1);
  same_nxt = h.same_nxt ∙ s.snd.0;
  in_sent =
      omega (
        arith,
        ap (λ (a : ℕ). sub32 m.vars.snd_una a) s.snd.1,
        ap₂ sub32 s.snd.0 s.snd.1,
        h.in_sent,
      );
  same_text = h.same_text ∙ s.text;
}

pub check_ack-Held : (io : Io) → Held io (check_ack io).after
unfolding check_ack put_rst_at_ack
check_ack-Held io =
    let P = λ (c : Checked). Held io c.after in
    if_both P (not io.seg.flags.ack) (λ c. Held-refl io)
      (λ c.
        if_both P (not (ack_in_range io.seg.ack io.vars.snd_una io.vars.snd_nxt io.ctl.max_snd_wnd))
          (λ d. Held-Still io io _ (Held-refl io) (put_ack-Still io))
          (λ d.
            if_both P
              (is_syn_received io.state && not (ack_new io.seg.ack io.vars.snd_una io.vars.snd_nxt))
              (λ e.
                Held-Still io io _ (Held-refl io)
                  (record { seg = refl; rcv = (refl, refl); snd = (refl, refl); text = refl }))
              (λ e.
                Still-Held io (establish io) _ (establish-Still io)
                  (acknowledge-Held (establish io)))))
