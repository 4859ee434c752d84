-- ===== src/TcpIn/Bounds.antt =====
-- What a segment that src/tcp/tcp_in.c processes can move: the acknowledged edge within what was
-- sent, and the text that is delivered within the segment and the window.
pub mod Steps
use idem_ip.Base.{
  ℕ, ◌+◌, ◌≤◌, ◌<◌, ◌^◌, Bool, true, false, not, ◌&&◌, ◌||◌, ◌≡◌, refl, sym, ap, ap₂,
}
use idem_ip.Base.{◌∙◌, arith, ◌==◌, leb, if◌then◌else◌, if_both, sub32, u32}
use idem_ip.Config.{ok}
use idem_ip.TcpIn.{State}
use idem_ip.TcpIn.{Io, Borrow}
use idem_ip.TcpIn.{
  Seg, put_ack, put_rst_at_ack, put_challenge, put_2msl, result_clear, with_acts, ack_new,
  ack_in_range,
}
use idem_ip.TcpIn.Checks.{Checked, paws, check_rst, check_syn, check_ack, check_urg}
use idem_ip.TcpIn.Checks.{check_rest, check_text, check_fin, reset_in, close_on_fin, close_on_ack}
use idem_ip.TcpIn.Checks.{
  establish, advance_una, update_window, acknowledge, hold_text, accept_text,
}
use idem_ip.TcpIn.Checks.{text_seq, is_syn_received, takes_text}
use idem_ip.TcpIn.Entries.{opened, report, refuse, judge, process, is_later, segment}
use idem_ip.TcpIn.Entries.{check_unacceptable, check_acceptable}
use idem_ip.TcpIn.Bounds.Steps.{
  Held, self_distance, Held-refl, Still, Held-Still, put_ack-Still, check_urg-Still,
  check_rst-Still, check_syn-Still, paws-Still, Bounded, Took, Held-Bounded, Still-Held,
  check_ack-Held,
}

-- The words of a segment, of the widths of their fields.
unfoldable pub Words : Io → Type 0
Words io = (io.seg.data_len < 2 ^ 16) × (io.vars.rcv_nxt < 2 ^ 32)

accept_text-Took :
    (io : Io)
    → Words io
    → leb io.seg.data_len (sub32 io.vars.rcv_nxt (text_seq io)) ≡ false
    → Took io (accept_text io (sub32 io.vars.rcv_nxt (text_seq io)))
unfolding accept_text put_ack Words text_seq
accept_text-Took io w l =
    let seq = text_seq io in
    let back : u32 (seq + sub32 io.vars.rcv_nxt seq) ≡ io.vars.rcv_nxt = omega (arith, w.1) in
    record { edges = (refl, refl); delivered = λ t. ground (arith, back) }

hold_text-Took : (io : Io) → io.res.act.act_text ≡ false → Took io (hold_text io)
unfolding hold_text put_ack
hold_text-Took io q = ground arith

check_text-Took : (io : Io) → Words io → io.res.act.act_text ≡ false → Took io (check_text io)
unfolding check_text
check_text-Took io w q =
    let P = λ (k : Io). Took io k in
    let off = sub32 io.vars.rcv_nxt (text_seq io) in
    if_both P (io.seg.data_len == 0 || not (takes_text io.state))
      (λ c. record { edges = (refl, refl); delivered = λ t. absurd (ground arith) })
      (λ c.
        if_both P (leb io.seg.data_len off) (λ d. hold_text-Took io q)
          (λ d. accept_text-Took io w d))

-- The send edges and what is delivered are the same.
pub record Alike (k m : Io) : Type 0 where
  pub edges : (m.vars.snd_nxt ≡ k.vars.snd_nxt) × (m.vars.snd_una ≡ k.vars.snd_una)
  pub text : m.res.act.act_text ≡ k.res.act.act_text
  pub place :
      (m.res.text_seq ≡ k.res.text_seq)
      × (m.res.text_off ≡ k.res.text_off)
      × (m.res.text_len ≡ k.res.text_len)

Took-Alike : (io k m : Io) → Took io k → Alike k m → Took io m
Took-Alike io k m b a = record {
  edges = (a.edges.0 ∙ b.edges.0, a.edges.1 ∙ b.edges.1);
  delivered = λ t.
      let d = b.delivered (sym a.text ∙ t) in
      (
        a.place.0 ∙ d.0,
        ap (λ (n : ℕ). u32 (text_seq io + n)) a.place.1 ∙ d.1,
        omega (arith, a.place.1, a.place.2, d.2),
        omega (arith, a.place.2, d.3),
      );
}

close_on_fin-Alike : (s : State) (io : Io) → Alike io (close_on_fin s io)
unfolding close_on_fin put_2msl
close_on_fin-Alike s io = ground arith

Alike-trans : (k m n : Io) → Alike k m → Alike m n → Alike k n
Alike-trans k m n a b = record {
  edges = (b.edges.0 ∙ a.edges.0, b.edges.1 ∙ a.edges.1);
  text = b.text ∙ a.text;
  place = (b.place.0 ∙ a.place.0, b.place.1 ∙ a.place.1, b.place.2 ∙ a.place.2);
}

check_fin-Alike : (io : Io) → Alike io (check_fin io)
unfolding check_fin put_ack
check_fin-Alike io =
    if_both (λ (k : Io). Alike io k)
      (not io.seg.flags.fin || not (io.vars.rcv_nxt == u32 (text_seq io + io.seg.data_len)))
      (λ c. record { edges = (refl, refl); text = refl; place = (refl, refl, refl) })
      (λ c.
        Alike-trans io _ _
          (record { edges = (refl, refl); text = refl; place = (refl, refl, refl) })
          (close_on_fin-Alike io.state _))

Held-Words : (io k : Io) → Held io k → Words io → Words k
unfolding Words
Held-Words io k h w =
    (omega (arith, ap (λ (g : Seg). g.data_len) h.same_seg, w.0), omega (arith, h.same_rcv.0, w.1))

Still-Words : (io k : Io) → Still io k → Words io → Words k
Still-Words io k s w = Held-Words io k (Still-Held io k k s (Held-refl k)) w

judge-Still : (io : Io) → Still io (judge io)
judge-Still io = record { seg = refl; rcv = (refl, refl); snd = (refl, refl); text = refl }

paws_reply-Still : (io : Io) → Still io (put_ack (with_acts (λ a. record a { act_paws = true }) io))
unfolding put_ack
paws_reply-Still io = record { seg = refl; rcv = (refl, refl); snd = (refl, refl); text = refl }

-- Where the segment and the window are the same, what is delivered is too.
same_delivered :
    (io k m : Io)
    → k.seg ≡ io.seg
    → (k.vars.rcv_nxt ≡ io.vars.rcv_nxt) × (k.vars.rcv_wnd ≡ io.vars.rcv_wnd)
    → (m.res.text_seq ≡ k.vars.rcv_nxt)
      × (u32 (text_seq k + m.res.text_off) ≡ k.vars.rcv_nxt)
      × (m.res.text_off + m.res.text_len ≤ k.seg.data_len)
      × (m.res.text_len ≤ k.vars.rcv_wnd)
    → (m.res.text_seq ≡ io.vars.rcv_nxt)
      × (u32 (text_seq io + m.res.text_off) ≡ io.vars.rcv_nxt)
      × (m.res.text_off + m.res.text_len ≤ io.seg.data_len)
      × (m.res.text_len ≤ io.vars.rcv_wnd)
unfolding text_seq
same_delivered io k m s r d = (
  d.0 ∙ r.0,
  ap (λ (g : Seg). u32 (u32 (g.seq + (if g.flags.syn then 1 else 0)) + m.res.text_off)) (sym s)
      ∙ d.1
      ∙ r.0,
  omega (arith, d.2, ap (λ (g : Seg). g.data_len) s),
  omega (arith, d.3, r.1),
)

Held-Took : (io k m : Io) → Held io k → Took k m → Bounded io m
Held-Took io k m h b = record {
  nxt = b.edges.0 ∙ h.same_nxt;
  una = omega (arith, ap (λ (e : ℕ). sub32 e io.vars.snd_una) b.edges.1, h.in_sent);
  delivered = λ t. same_delivered io k m h.same_seg h.same_rcv (b.delivered t);
}

Still-Took : (io k m : Io) → Still io k → Took k m → Took io m
Still-Took io k m s b = record {
  edges = (b.edges.0 ∙ s.snd.0, b.edges.1 ∙ s.snd.1);
  delivered = λ t. same_delivered io k m s.seg s.rcv (b.delivered t);
}

Still-Bounded : (io k m : Io) → Still io k → Bounded k m → Bounded io m
Still-Bounded io k m s b = record {
  nxt = b.nxt ∙ s.snd.0;
  una =
      omega
        (arith, ap (λ (a : ℕ). sub32 m.vars.snd_una a) s.snd.1, ap₂ sub32 s.snd.0 s.snd.1, b.una);
  delivered = λ t. same_delivered io k m s.seg s.rcv (b.delivered t);
}

Still-trans : (io k m : Io) → Still io k → Still k m → Still io m
Still-trans io k m a b = record {
  seg = b.seg ∙ a.seg;
  rcv = (b.rcv.0 ∙ a.rcv.0, b.rcv.1 ∙ a.rcv.1);
  snd = (b.snd.0 ∙ a.snd.0, b.snd.1 ∙ a.snd.1);
  text = b.text ∙ a.text;
}

check_rest-Took : (io : Io) → Words io → io.res.act.act_text ≡ false → Took io (check_rest io)
unfolding check_rest
check_rest-Took io w q =
    let u = check_urg io in
    let s = check_urg-Still io in
    let t = check_text u in
    let taken = Still-Took io u t s (check_text-Took u (Still-Words io u s w) (s.text ∙ q)) in
    if_both (λ (k : Io). Took io k) t.res.act.act_hold (λ c. taken)
      (λ c. Took-Alike io t _ taken (check_fin-Alike t))

check_acceptable-Bounded :
    (w : Borrow) → Words w.io → w.io.res.act.act_text ≡ false → Bounded w.io (check_acceptable w).io
unfolding check_acceptable
check_acceptable-Bounded w n q =
    let P = λ (k : Borrow). Bounded w.io k.io in
    let io = w.io in
    let a = check_ack io in
    let h = check_ack-Held io in
    if_both P (check_rst w).stops
      (λ c. Held-Bounded io _ q (Held-Still io io _ (Held-refl io) (check_rst-Still w)))
      (λ c.
        if_both P (check_syn w).stops
          (λ d. Held-Bounded io _ q (Held-Still io io _ (Held-refl io) (check_syn-Still w)))
          (λ d.
            if_both (λ (k : Io). Bounded io k) a.stops (λ e. Held-Bounded io a.after q h)
              (λ e.
                Held-Took io a.after _ h
                  (check_rest-Took a.after (Held-Words io a.after h n) (h.same_text ∙ q)))))

refuse-Held : (io : Io) → Held io (refuse io)
unfolding refuse
refuse-Held io =
    let seen = check_urg io in
    let s = check_urg-Still io in
    let before = Still-Held io seen seen s (Held-refl seen) in
    let P = λ (k : Io). Held io k in
    let h = Still-Held io seen _ s (check_ack-Held seen) in
    if_both P (not (seen.vars.rcv_wnd == 0)) (λ c. Held-Still io seen _ before (put_ack-Still seen))
      (λ c.
        if_both P (check_ack seen).stops (λ d. h)
          (λ d. Held-Still io _ _ h (put_ack-Still (check_ack seen).after)))

check_unacceptable-Held : (w : Borrow) → Held w.io (check_unacceptable w).io
unfolding check_unacceptable
check_unacceptable-Held w =
    let P = λ (k : Borrow). Held w.io k.io in
    if_both P w.io.seg.flags.rst (λ c. Held-Still w.io w.io _ (Held-refl w.io) (check_rst-Still w))
      (λ c.
        if_both P w.io.seg.flags.syn
          (λ d. Held-Still w.io w.io _ (Held-refl w.io) (check_syn-Still w))
          (λ d. refuse-Held w.io))

process-Bounded :
    (w : Borrow) → Words w.io → w.io.res.act.act_text ≡ false → Bounded w.io (process w).io
unfolding process
process-Bounded w n q =
    let P = λ (k : Borrow). Bounded w.io k.io in
    let io = w.io in
    let p = paws io in
    let s = paws-Still io in
    let judged : Borrow = record w { io = judge p.after } in
    let t = Still-trans io p.after judged.io s (judge-Still p.after) in
    let quiet = t.text ∙ q in
    if_both P p.stops
      (λ c.
        Held-Bounded io _ q (
          Held-Still io io _ (Held-refl io)
            (Still-trans io p.after _ s (paws_reply-Still p.after))))
      (λ c.
        if_both P judged.io.res.acceptable
          (λ d.
            Still-Bounded io judged.io _ t
              (check_acceptable-Bounded judged (Still-Words io judged.io t n) quiet))
          (λ d.
            Still-Bounded io judged.io _ t
              (Held-Bounded judged.io _ quiet (check_unacceptable-Held judged))))

-- For a segment of fewer than 2 ^ 16 octets of text and a 32-bit RCV.NXT, segment leaves SND.NXT,
-- moves SND.UNA no further than SND.NXT, and delivers text only from RCV.NXT on, out of the
-- segment's own octets and no more than the window takes.
pub segment-Bounded : (w : Borrow) → Words w.io → Bounded w.io (segment w).io
unfolding segment opened result_clear Words text_seq process
segment-Bounded w n =
    let opening = opened w.io in
    let start : Borrow = record w { io = report ok opening } in
    if_both (λ (k : Borrow). Bounded w.io k.io) (not w.ctx.ready || not (is_later w.io.state))
      (λ c. record {
        nxt = refl;
        una = self_distance w.io.vars.snd_una w.io.vars.snd_nxt;
        delivered = λ t. absurd (ground arith);
      })
      (λ c.
        let b = process-Bounded start n refl in
        record { nxt = b.nxt; una = b.una; delivered = b.delivered })
