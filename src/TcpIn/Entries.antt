-- ===== src/TcpIn/Entries.antt =====
-- src/tcp/tcp_in.c: the entries, but for `idemip_tcp_in_parse`, whose results `seg` and `opts` they
-- take as they find them.
use idem_ip.Base.{ℕ, ◌+◌, Bool, true, false, not, ◌&&◌, ◌||◌, ltb, ◌==◌, if◌then◌else◌, sub32, u32}
use idem_ip.Config.{Status, ok, err}
use idem_ip.TcpIn.{State, closed_state, listen_state, syn_sent_state, syn_received, established}
use idem_ip.TcpIn.{fin_wait_1, fin_wait_2, close_wait, closing, last_ack, time_wait, Io, Borrow}
use idem_ip.TcpIn.{
  ack_new, seg_acceptable, with_acts, put_ack, put_rst, put_rst_at_ack, put_syn_ack,
}
use idem_ip.TcpIn.{result_clear, Seg, Opts}
use idem_ip.TcpIn.Checks.{enter, paws, check_rst, check_syn, check_ack, check_urg}
use idem_ip.TcpIn.Checks.{check_rest}

abbrev pub no_seg : Seg
no_seg = record {
  seq = 0;
  ack = 0;
  wnd = 0;
  len = 0;
  data_len = 0;
  up = 0;
  flags = record { fin = false; syn = false; rst = false; psh = false; ack = false; urg = false };
}

abbrev pub no_opts : Opts
no_opts = record {
  tsval = 0;
  tsecr = 0;
  mss = 0;
  hdr_len = 0;
  ws = 0;
  has_mss = false;
  has_ws = false;
  has_ts = false;
  has_sack_perm = false;
}

abbrev pub report : Status → Io → Io
report s io = record io { status = s }

-- What every entry but clear begins with.
unfoldable pub opened : Io → Io
opened io = report err (result_clear io)

unfoldable pub clear : Borrow → Borrow
clear w = record {
  io = report ok (result_clear (record (w.io) { seg = no_seg; opts = no_opts }));
  ctx = record { ready = true; challenge_at = 0; challenges = 0 };
}

unfoldable pub acceptable : Borrow → Borrow
acceptable w =
    let io = opened w.io in
    if not w.ctx.ready then record w { io = io } else record w {
      io = report ok (record io {
        res = record (io.res) {
          acceptable = seg_acceptable io.seg.seq io.seg.len io.vars.rcv_nxt io.vars.rcv_wnd;
        };
      });
    }

unfoldable pub closed : Borrow → Borrow
closed w =
    let io = opened w.io in
    if not w.ctx.ready
    then record w { io = io }
    else record w { io = if io.seg.flags.rst then report ok io else put_rst (report ok io) }

abbrev pub is_listen : State → Bool
is_listen listen_state = true
is_listen closed_state = false
is_listen syn_sent_state = false
is_listen syn_received = false
is_listen established = false
is_listen fin_wait_1 = false
is_listen fin_wait_2 = false
is_listen close_wait = false
is_listen closing = false
is_listen last_ack = false
is_listen time_wait = false

abbrev pub is_syn_sent : State → Bool
is_syn_sent syn_sent_state = true
is_syn_sent closed_state = false
is_syn_sent listen_state = false
is_syn_sent syn_received = false
is_syn_sent established = false
is_syn_sent fin_wait_1 = false
is_syn_sent fin_wait_2 = false
is_syn_sent close_wait = false
is_syn_sent closing = false
is_syn_sent last_ack = false
is_syn_sent time_wait = false

-- The states from SYN-RECEIVED to TIME-WAIT.
abbrev pub is_later : State → Bool
is_later closed_state = false
is_later listen_state = false
is_later syn_sent_state = false
is_later syn_received = true
is_later established = true
is_later fin_wait_1 = true
is_later fin_wait_2 = true
is_later close_wait = true
is_later closing = true
is_later last_ack = true
is_later time_wait = true

abbrev pub widest : ℕ → ℕ → ℕ
widest held wnd = if ltb held wnd then wnd else held

-- A SYN that opens a connection in LISTEN.
unfoldable pub open_passive : Io → Io
open_passive io = put_syn_ack (
    enter syn_received (record io {
      vars = record (io.vars) {
        rcv_nxt = u32 (io.seg.seq + 1);
        irs = io.seg.seq;
        snd_nxt = u32 (io.vars.iss + 1);
        snd_una = io.vars.iss;
        snd_wnd = io.seg.wnd;
        snd_wl1 = io.seg.seq;
        snd_wl2 = io.vars.iss;
      };
      ctl = record (io.ctl) { max_snd_wnd = widest io.ctl.max_snd_wnd io.seg.wnd };
    }))

unfoldable pub listen : Borrow → Borrow
listen w =
    let opening = opened w.io in
    let io = report ok opening in
    if not w.ctx.ready || not (is_listen w.io.state) then record w { io = opening } else record w {
      io =
          if io.seg.flags.rst
          then io
          else if io.seg.flags.ack
          then put_rst_at_ack io
          else if not io.seg.flags.syn
          then io
          else open_passive io;
    }

-- The acknowledgment of a segment in SYN-SENT.
unfoldable pub is_bad_ack : Io → Bool
is_bad_ack io =
    let at = sub32 io.seg.ack io.vars.iss in
    io.seg.flags.ack && (at == 0 || ltb (sub32 io.vars.snd_nxt io.vars.iss) at)

unfoldable pub is_good_ack : Io → Bool
is_good_ack io = io.seg.flags.ack && ack_new io.seg.ack io.vars.snd_una io.vars.snd_nxt

-- The fourth check of SYN-SENT, up to the state that it enters.
unfoldable pub take_syn : Io → Io
take_syn io =
    let acked =
      with_acts (λ a. record a { act_acked = true })
        (record io {
          res = record (io.res) { acked = sub32 io.seg.ack io.vars.snd_una };
          vars = record (io.vars) { snd_una = io.seg.ack };
        }) in
    let io = if is_good_ack io then acked else io in
    record io {
      vars = record (io.vars) {
        rcv_nxt = u32 (io.seg.seq + 1);
        irs = io.seg.seq;
        snd_wnd = io.seg.wnd;
        snd_wl1 = io.seg.seq;
        snd_wl2 = io.seg.ack;
      };
      ctl = record (io.ctl) { max_snd_wnd = widest io.ctl.max_snd_wnd io.seg.wnd };
    }

unfoldable pub open_active : Io → Io
open_active io =
    let there =
      put_ack (with_acts (λ a. record a { act_established = true }) (enter established io)) in
    if sub32 io.vars.snd_una io.vars.iss == 0
    then put_syn_ack (enter syn_received io)
    else if not (io.seg.data_len == 0) || io.seg.flags.fin || io.seg.flags.urg
    then check_rest there
    else there

unfoldable pub reset_open : Io → Io
reset_open io =
    if is_good_ack io
    then with_acts (λ a. record a { act_reset = true; act_flush = true; act_delete = true })
        (enter closed_state io)
    else io

unfoldable pub syn_sent : Borrow → Borrow
syn_sent w =
    let opening = opened w.io in
    let io = report ok opening in
    if not w.ctx.ready || not (is_syn_sent w.io.state)
    then record w { io = opening }
    else record w {
      io =
          if is_bad_ack io
          then if io.seg.flags.rst then io else put_rst_at_ack io
          else if io.seg.flags.rst
          then reset_open io
          else if not io.seg.flags.syn
          then io
          else open_active (take_syn io);
    }

-- A segment that the first check refuses, and is neither a reset nor a SYN.
unfoldable pub refuse : Io → Io
refuse io =
    let seen = check_urg io in
    let c = check_ack seen in
    if not (seen.vars.rcv_wnd == 0)
    then put_ack seen
    else if c.stops
    then c.after
    else put_ack c.after

unfoldable pub check_unacceptable : Borrow → Borrow
check_unacceptable w =
    if w.io.seg.flags.rst
    then (check_rst w).after
    else if w.io.seg.flags.syn
    then (check_syn w).after
    else record w { io = refuse w.io }

unfoldable pub check_acceptable : Borrow → Borrow
check_acceptable w =
    let r = check_rst w in
    let s = check_syn w in
    let a = check_ack w.io in
    if r.stops
    then r.after
    else if s.stops
    then s.after
    else record w { io = if a.stops then a.after else check_rest a.after }

abbrev pub judge : Io → Io
judge io = record io {
  res = record (io.res) {
    acceptable = seg_acceptable io.seg.seq io.seg.len io.vars.rcv_nxt io.vars.rcv_wnd;
  };
}

-- The processing of a segment in the states from SYN-RECEIVED on.
unfoldable pub process : Borrow → Borrow
process w =
    let p = paws w.io in
    let judged = record w { io = judge p.after } in
    if p.stops
    then record w { io = put_ack (with_acts (λ a. record a { act_paws = true }) p.after) }
    else if judged.io.res.acceptable
    then check_acceptable judged
    else check_unacceptable judged

unfoldable pub segment : Borrow → Borrow
segment w =
    let opening = opened w.io in
    if not w.ctx.ready || not (is_later w.io.state)
    then record w { io = opening }
    else process (record w { io = report ok opening })
