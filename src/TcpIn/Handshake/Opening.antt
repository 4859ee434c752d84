-- ===== src/TcpIn/Handshake/Opening.antt =====
-- The SYN and the answer to it, through the entries of src/tcp/tcp_in.c.
use idem_ip.Base.{ℕ, ◌+◌, ◌<◌, ◌^◌, Bool, true, false, not, ◌||◌, ◌≡◌, ◌≢◌, refl, ap, ap₂}
use idem_ip.Base.{◌∙◌, arith, ◌==◌, if◌then◌else◌, sub32, u32}
use idem_ip.Config.{ok}
use idem_ip.TcpIn.{listen_state, syn_sent_state, syn_received, established, Bits, Seg, Reply}
use idem_ip.TcpIn.{Io, Borrow, ctl_syn, ctl_ack, put_ack, put_syn_ack, result_clear}
use idem_ip.TcpIn.{ack_new}
use idem_ip.TcpIn.Parse.{bits_of}
use idem_ip.TcpIn.{Vars}
use idem_ip.TcpIn.Entries.{opened, report, segment, listen, syn_sent, open_passive}
use idem_ip.TcpIn.Entries.{open_active, take_syn, is_syn_sent, is_bad_ack, is_good_ack}

abbrev pub syn_bits : Bits
syn_bits = record { fin = false; syn = true; rst = false; psh = false; ack = false; urg = false }

-- A segment without text, as it is read.
abbrev pub bare : ℕ → ℕ → ℕ → ℕ → Bits → Seg
bare seq ack wnd len bits = record {
  seq = seq;
  ack = ack;
  wnd = wnd;
  len = len;
  data_len = 0;
  up = 0;
  flags = bits;
}

abbrev pub deliver : Borrow → Seg → Borrow
deliver w g = record w { io = record (w.io) { seg = g } }

-- A reply as the other end reads it, without text: its numbers and its control bits are the reply's,
-- and a SYN or a FIN that it carries counts in its length.
abbrev pub carried : Reply → ℕ → Seg
carried r wnd =
    let bits = bits_of r.flags in
    bare r.seq r.ack wnd ((if bits.syn then 1 else 0) + (if bits.fin then 1 else 0)) bits

-- The three segments of the handshake: the client's SYN, the server's answer to it, and the client's
-- answer to that.
pub answered : Borrow → ℕ → ℕ → Borrow
answered s x wnd = listen (deliver s (bare x 0 wnd 1 syn_bits))

pub joined : Borrow → Reply → ℕ → Borrow
joined c r wnd = syn_sent (deliver c (carried r wnd))

unfoldable pub accepted : Borrow → Reply → ℕ → Borrow
accepted s r wnd = segment (deliver s (carried r wnd))

pub answered_lem :
    (s : Borrow) (x wnd : ℕ)
    → s.ctx.ready ≡ true
    → s.io.state ≡ listen_state
    → ((answered s x wnd).io.state ≡ syn_received)
      × ((answered s x wnd).ctx.ready ≡ true)
      × ((answered s x wnd).io.reply
          ≡ record { seq = s.io.vars.iss; ack = u32 (x + 1); flags = ctl_syn + ctl_ack })
      × ((answered s x wnd).io.vars.snd_una ≡ s.io.vars.iss)
      × ((answered s x wnd).io.vars.snd_nxt ≡ u32 (s.io.vars.iss + 1))
      × ((answered s x wnd).io.vars.rcv_nxt ≡ u32 (x + 1))
      × ((answered s x wnd).io.vars.rcv_wnd ≡ s.io.vars.rcv_wnd)
      × ((answered s x wnd).io.ctl.ts_ok ≡ s.io.ctl.ts_ok)
      × ((answered s x wnd).io.res.act.act_ack ≡ true)
unfolding answered listen opened result_clear open_passive put_syn_ack
answered_lem s x wnd r l = rw (r, l) (refl, refl, refl, refl, refl, refl, refl, refl, refl)

pub if_true {ℓ} : {A : Type ℓ} (b : Bool) (x y : A) → b ≡ true → (if b then x else y) ≡ x
if_true true x y h = refl
if_true false x y h = absurd (ground arith)

pub if_false {ℓ} : {A : Type ℓ} (b : Bool) (x y : A) → b ≡ false → (if b then x else y) ≡ y
if_false true x y h = absurd (ground arith)
if_false false x y h = refl

syn_sent_takes :
    (w : Borrow)
    → w.ctx.ready ≡ true
    → is_syn_sent w.io.state ≡ true
    → is_bad_ack (report ok (opened w.io)) ≡ false
    → w.io.seg.flags.rst ≡ false
    → w.io.seg.flags.syn ≡ true
    → (syn_sent w).io ≡ open_active (take_syn (report ok (opened w.io)))
unfolding syn_sent opened result_clear
syn_sent_takes w r l b e f =
    ap (λ (k : Borrow). k.io)
      (if_false (not w.ctx.ready || not (is_syn_sent w.io.state)) _ _ (ground arith))
    ∙ if_false (is_bad_ack (report ok (opened w.io))) _ _ b
    ∙ if_false w.io.seg.flags.rst _ _ e
    ∙ if_false (not w.io.seg.flags.syn) _ _ (ground arith)

take_syn_good :
    (io : Io)
    → is_good_ack io ≡ true
    → ((take_syn io).vars.snd_una ≡ io.seg.ack)
      × ((take_syn io).vars.snd_nxt ≡ io.vars.snd_nxt)
      × ((take_syn io).vars.iss ≡ io.vars.iss)
      × ((take_syn io).vars.rcv_nxt ≡ u32 (io.seg.seq + 1))
      × ((take_syn io).seg ≡ io.seg)
unfolding take_syn
take_syn_good io g = ground arith

open_active_joins :
    (io : Io)
    → sub32 io.vars.snd_una io.vars.iss ≢ 0
    → (io.seg.data_len ≡ 0) × (io.seg.flags.fin ≡ false) × (io.seg.flags.urg ≡ false)
    → ((open_active io).state ≡ established)
      × ((open_active io).reply
          ≡ record { seq = io.vars.snd_nxt; ack = io.vars.rcv_nxt; flags = ctl_ack })
      × ((open_active io).vars ≡ io.vars)
      × ((open_active io).res.act.act_ack ≡ true)
unfolding open_active put_ack
open_active_joins io n g =
    let joins =
      if_false (sub32 io.vars.snd_una io.vars.iss == 0) _ _ (ground arith)
      ∙ if_false (not (io.seg.data_len == 0) || io.seg.flags.fin || io.seg.flags.urg) _ _
          (ground arith) in
    (
      ap (λ (k : Io). k.state) joins,
      ap (λ (k : Io). k.reply) joins,
      ap (λ (k : Io). k.vars) joins,
      ap (λ (k : Io). k.res.act.act_ack) joins,
    )

pub joined_lem :
    (c : Borrow) (x y wnd : ℕ)
    → c.ctx.ready ≡ true
    → c.io.state ≡ syn_sent_state
    → x < 2 ^ 32
    → (c.io.vars.iss ≡ x) × (c.io.vars.snd_una ≡ x) × (c.io.vars.snd_nxt ≡ u32 (x + 1))
    → let r : Reply = record { seq = y; ack = u32 (x + 1); flags = ctl_syn + ctl_ack } in
      ((joined c r wnd).io.state ≡ established)
      × ((joined c r wnd).io.reply
          ≡ record { seq = u32 (x + 1); ack = u32 (y + 1); flags = ctl_ack })
      × ((joined c r wnd).io.vars.snd_una ≡ u32 (x + 1))
      × ((joined c r wnd).io.vars.snd_nxt ≡ u32 (x + 1))
      × ((joined c r wnd).io.vars.rcv_nxt ≡ u32 (y + 1))
      × ((joined c r wnd).io.res.act.act_ack ≡ true)
unfolding bits_of joined syn_sent opened result_clear is_bad_ack is_good_ack take_syn open_active
    put_ack ack_new
joined_lem c x y wnd r l b v =
    let w =
      deliver c (carried (record { seq = y; ack = u32 (x + 1); flags = ctl_syn + ctl_ack }) wnd) in
    let io = report ok (opened w.io) in
    let one_on : sub32 (u32 (x + 1)) x ≡ 1 = omega arith in
    let edge : sub32 (u32 (x + 1)) c.io.vars.iss ≡ 1 = ap (sub32 (u32 (x + 1))) v.0 ∙ one_on in
    let sent : sub32 c.io.vars.snd_nxt c.io.vars.iss ≡ 1 = ap₂ sub32 v.2 v.0 ∙ one_on in
    let past : sub32 (u32 (x + 1)) c.io.vars.snd_una ≡ 1 = ap (sub32 (u32 (x + 1))) v.1 ∙ one_on in
    let limit : sub32 c.io.vars.snd_nxt c.io.vars.snd_una ≡ 1 = ap₂ sub32 v.2 v.1 ∙ one_on in
    let bad : is_bad_ack io ≡ false = ground (arith, edge, sent) in
    let good : is_good_ack io ≡ true = ground (arith, past, limit) in
    let t = take_syn_good io good in
    let o = open_active_joins (take_syn io) (omega (arith, ap₂ sub32 t.0 t.2, edge)) (
      ap (λ (k : Seg). k.data_len) t.4,
      ap (λ (k : Seg). k.flags.fin) t.4,
      ap (λ (k : Seg). k.flags.urg) t.4,
    ) in
    let step = syn_sent_takes w r (ap is_syn_sent l) bad refl refl in
    (
      ap (λ (k : Io). k.state) step ∙ o.0,
      ap (λ (k : Io). k.reply) step
          ∙ o.1
          ∙ ap₂ (λ (m n : ℕ). record { seq = m; ack = n; flags = ctl_ack }) (t.1 ∙ v.2) t.3,
      ap (λ (k : Io). k.vars.snd_una) step ∙ ap (λ (k : Vars). k.snd_una) o.2 ∙ t.0,
      ap (λ (k : Io). k.vars.snd_nxt) step ∙ ap (λ (k : Vars). k.snd_nxt) o.2 ∙ t.1 ∙ v.2,
      ap (λ (k : Io). k.vars.rcv_nxt) step ∙ ap (λ (k : Vars). k.rcv_nxt) o.2 ∙ t.3,
      ap (λ (k : Io). k.res.act.act_ack) step ∙ o.3,
    )
